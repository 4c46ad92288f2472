-- ===== src/Tokens/SingleUse.antt =====
-- Every order of calls on one `MemoryStore`: how often an identifier is accepted.
use chainctl.Prelude.{
  ℕ, ◌+◌, ◌-◌, ◌≤◌, Bool, true, false, not, Option, none, some, List, [], ◌∷◌, arith, Option-cases,
  inl, inr,
}
use chainctl.Result.{Result, ok, err, Result-cases}
use chainctl.Text.{Str, str_eq}
use chainctl.Text.Laws.{str_eq_iff}
use chainctl.Dict.{lookup, lookup-insert}
use chainctl.Tokens.{
  Error, Scope, CreateOptions, Token, CreatedToken, Entropy, split_token, generate_token,
}
use chainctl.Tokens.Outcome.{consume_outcome, check_token_passes}
use chainctl.Tokens.MemoryStore.{
  minute, MemoryStore, new_memory_store, create, consume, force_expire,
}

-- A call of a method, with what it reads of the clock and of the random source.
pub data Call : Type 0 where
  create_call : CreateOptions → ℕ → Entropy → Call
  consume_call : Str → Scope → ℕ → Call
  force_expire_call : Str → ℕ → Call

abbrev count_if : Bool → ℕ
count_if true = 1
count_if false = 0

-- 1 if the composite names the identifier `k`
abbrev names : Str → Result Error (Str × Str) → ℕ
names k (ok (id, _)) = count_if (str_eq id k)
names k (err _) = 0

abbrev if_none : Option Error → ℕ → ℕ
if_none none n = n
if_none (some _) n = 0

-- 1 if the token stored under `k` is not consumed
abbrev pub unused : Option Token → ℕ
unused none = 0
unused (some r) = count_if (not r.consumed)

abbrev issued_by : Str → Result Error (Token × CreatedToken) → ℕ
issued_by k (ok (r, _)) = count_if (str_eq r.id k)
issued_by k (err _) = 0

module _ (sha256 : Str → Str) (k : Str) where
  unfoldable pub after_call : Call → MemoryStore → MemoryStore
  after_call (create_call opts now entropy) s = (create sha256 opts now entropy s).1
  after_call (consume_call composite expected now) s = (consume sha256 composite expected now s).1
  after_call (force_expire_call composite now) s = force_expire composite now s

  -- 1 if the call is a `Consume` of a token `k` that returns nil
  unfoldable pub accepted : Call → MemoryStore → ℕ
  accepted (consume_call composite expected now) s =
      if_none (consume sha256 composite expected now s).0 (names k (split_token composite))
  accepted _ s = 0

  -- 1 if the call is a `Create` that issues `k`
  unfoldable pub issued : Call → ℕ
  issued (create_call opts now entropy) = issued_by k (generate_token sha256 opts now entropy)
  issued _ = 0

  create_step :
      (opts : CreateOptions) (now : ℕ) (entropy : Entropy) (s : MemoryStore)
      → unused (lookup k (create sha256 opts now entropy s).1)
        ≤ unused (lookup k s) + issued_by k (generate_token sha256 opts now entropy)
  unfolding create
  create_step opts now entropy s = elim (Result-cases (generate_token sha256 opts now entropy)) [
    | inl ((r, c), e) ↦ rw e (ground (arith, lookup-insert r.id k r s))
    | inr (x, e) ↦ rw e (omega arith)
  ]

  consume_step :
      (composite : Str) (expected : Scope) (now : ℕ) (s : MemoryStore)
      → if_none (consume sha256 composite expected now s).0 (names k (split_token composite))
          + unused (lookup k (consume sha256 composite expected now s).1)
        ≤ unused (lookup k s)
  consume_step composite expected now s = elim (consume_outcome sha256 composite expected now s) [
    | inl a ↦
        rw (a.result, a.splits)
          (let used : Token = record a.stored { consumed = true } in
            let (fresh, _, _, _) =
              check_token_passes sha256 composite expected now s a.stored a.id a.secret a.checked in
            ground (arith, fresh, a.found, str_eq_iff a.id k, lookup-insert a.id k used s))
    | inr r ↦ rw r.result (omega arith)
  ]

  force_expire_step :
      (composite : Str) (now : ℕ) (s : MemoryStore)
      → unused (lookup k (force_expire composite now s)) ≤ unused (lookup k s)
  unfolding force_expire
  force_expire_step composite now s = elim (Result-cases (split_token composite)) [
    | inr (x, e) ↦ rw e (omega arith)
    | inl ((id, secret), e) ↦ elim (Option-cases (lookup id s)) [
      | inl missing ↦ rw (e, missing) (omega arith)
      | inr (r, found) ↦
          rw (e, found)
            (let old : Token = record r { expires_at = now - minute } in
              ground (arith, found, str_eq_iff id k, lookup-insert id k old s))
    ]
  ]

  -- A call spends at most what is unused or what it issues itself.
  accepted_step :
      (c : Call) (s : MemoryStore)
      → accepted c s + unused (lookup k (after_call c s)) ≤ unused (lookup k s) + issued c
  unfolding accepted issued after_call
  accepted_step (create_call opts now entropy) s = omega (arith, create_step opts now entropy s)
  accepted_step (consume_call composite expected now) s =
      omega (arith, consume_step composite expected now s)
  accepted_step (force_expire_call composite now) s =
      omega (arith, force_expire_step composite now s)

  unfoldable pub acceptances : List Call → MemoryStore → ℕ
  unfolding accepted after_call
  acceptances [] s = 0
  acceptances (c ∷ cs) s = accepted c s + acceptances cs (after_call c s)

  unfoldable pub issues : List Call → ℕ
  unfolding issued
  issues [] = 0
  issues (c ∷ cs) = issued c + issues cs

  acceptances-le :
      (cs : List Call) (s : MemoryStore) → acceptances cs s ≤ unused (lookup k s) + issues cs
  unfolding acceptances issues
  acceptances-le [] s = omega arith
  acceptances-le (c ∷ cs) s = omega (arith, accepted_step c s, acceptances-le cs (after_call c s))

  -- From a new store, whatever calls of `Create`, `Consume` and `ForceExpire` follow one another,
  -- at whatever times, `Consume` returns nil for an identifier at most as often as `Create` has
  -- issued it.
  pub accepted_at_most_issued : (cs : List Call) → acceptances cs new_memory_store ≤ issues cs
  accepted_at_most_issued cs = unfold lookup in omega (arith, acceptances-le cs new_memory_store)
