-- ===== src/Tokens/Outcome.antt =====
-- The two outcomes of `Consume`, and exactly when it returns nil.
use chainctl.Prelude.{
  ℕ, ◌≤◌, ◌≡◌, ◌↔◌, ◌≢◌, refl, true, false, none, some, arith, Option-cases, ◌⊎◌, inl, inr, ap,
}
use chainctl.Result.{ok, Result-cases}
use chainctl.Text.{Str}
use chainctl.Text.Laws.{str_eq_iff}
use chainctl.Dict.{lookup, insert, lookup-insert}
use chainctl.Tokens.{
  Error, Scope, Token, split_token, check_token, hash_secret, compare_secret, token_not_found,
}
use chainctl.Tokens.MemoryStore.{MemoryStore, consume}

module _ (sha256 : Str → Str) (composite : Str) (expected : Scope) (now : ℕ) (s : MemoryStore) where
  pub record Accepts : Type 0 where
    pub id : Str
    pub secret : Str
    pub stored : Token
    pub splits : split_token composite ≡ ok (id, secret)
    pub found : lookup id s ≡ some stored
    pub checked : check_token sha256 stored id secret now expected ≡ none
    pub result :
        consume sha256 composite expected now s
        ≡ (none, insert id (record stored { consumed = true }) s)

  pub record Refuses : Type 0 where
    pub error : Error
    pub result : consume sha256 composite expected now s ≡ (some error, s)

  refused : (e : Error) → consume sha256 composite expected now s ≡ (some e, s) → Accepts ⊎ Refuses
  refused e h = inr (record { error = e; result = h })

  checked_outcome :
      (id secret : Str) (r : Token)
      → split_token composite ≡ ok (id, secret)
      → lookup id s ≡ some r
      → Accepts ⊎ Refuses
  unfolding consume
  checked_outcome id secret r splits found =
      elim (Option-cases (check_token sha256 r id secret now expected)) [
        | inl fine ↦ inl (record {
          id = id;
          secret = secret;
          stored = r;
          splits = splits;
          found = found;
          checked = fine;
          result = rw (splits, found, fine);
        })
        | inr (e, bad) ↦ refused e (rw (splits, found, bad))
      ]

  -- Either `consume` refuses and leaves the store as it was, or all that it looks at is in order
  -- and it marks the stored token.
  pub consume_outcome : Accepts ⊎ Refuses
  unfolding consume
  consume_outcome = elim (Result-cases (split_token composite)) [
    | inr (e, bad) ↦ refused e (rw bad)
    | inl ((id, secret), splits) ↦ elim (Option-cases (lookup id s)) [
      | inl missing ↦ refused token_not_found (rw (splits, missing))
      | inr (r, found) ↦ checked_outcome id secret r splits found
    ]
  ]

  -- What a caller has to present, and when.
  pub record IsValid : Type 0 where
    pub id : Str
    pub secret : Str
    pub stored : Token
    pub splits : split_token composite ≡ ok (id, secret)
    pub found : lookup id s ≡ some stored
    pub fresh : stored.consumed ≡ false
    pub alive : now ≤ stored.expires_at
    pub scoped : stored.scope ≡ expected
    pub hashed : hash_secret sha256 id secret ≡ stored.hashed_secret

  compare_secret_iff :
      (r : Token) (id secret : Str)
      → (compare_secret sha256 r id secret ≡ true)
        ↔ (hash_secret sha256 id secret ≡ r.hashed_secret)
  unfolding compare_secret
  compare_secret_iff r id secret =
      ground (arith, str_eq_iff (hash_secret sha256 id secret) r.hashed_secret)

  pub check_token_passes :
      (r : Token) (id secret : Str)
      → check_token sha256 r id secret now expected ≡ none
      → (r.consumed ≡ false)
        × (now ≤ r.expires_at)
        × (r.scope ≡ expected)
        × (hash_secret sha256 id secret ≡ r.hashed_secret)
  unfolding check_token
  check_token_passes r id secret h =
      ground (arith, str_eq_iff r.scope expected, compare_secret_iff r id secret)

  check_token-eq-none :
      (r : Token) (id secret : Str)
      → r.consumed ≡ false
      → now ≤ r.expires_at
      → r.scope ≡ expected
      → hash_secret sha256 id secret ≡ r.hashed_secret
      → check_token sha256 r id secret now expected ≡ none
  unfolding check_token
  check_token-eq-none r id secret fresh alive scoped hashed =
      ground (arith, str_eq_iff r.scope expected, compare_secret_iff r id secret)

  valid_of_nil : (consume sha256 composite expected now s).0 ≡ none → IsValid
  valid_of_nil h = elim consume_outcome [
    | inl a ↦
        let (fresh, alive, scoped, hashed) = check_token_passes a.stored a.id a.secret a.checked in
        record {
          id = a.id;
          secret = a.secret;
          stored = a.stored;
          splits = a.splits;
          found = a.found;
          fresh = fresh;
          alive = alive;
          scoped = scoped;
          hashed = hashed;
        }
    | inr r ↦ absurd (cc (ap (λ p. p.0) r.result))
  ]

  nil_of_valid : IsValid → (consume sha256 composite expected now s).0 ≡ none
  unfolding consume
  nil_of_valid v = rw (
    v.splits,
    v.found,
    check_token-eq-none v.stored v.id v.secret v.fresh v.alive v.scoped v.hashed,
  )

  -- `Consume` returns nil exactly when the composite splits into an id that is stored and a secret
  -- whose hash is the stored one, the token is not consumed, its scope is the expected one and now
  -- is not after its expiry.
  pub consume-nil_iff : ((consume sha256 composite expected now s).0 ≡ none) ↔ IsValid
  consume-nil_iff = (valid_of_nil, nil_of_valid)

  -- `Consume` that returns an error, also that of a malformed composite, leaves every record as it
  -- was, and one that returns nil changes no record but that of the identifier in the composite.
  pub consume_frame :
      (j : Str)
      → ((id secret : Str) → split_token composite ≡ ok (id, secret) → j ≢ id)
        ⊎ ((consume sha256 composite expected now s).0 ≢ none)
      → lookup j (consume sha256 composite expected now s).1 ≡ lookup j s
  consume_frame j apart = elim consume_outcome [
    | inl a ↦ elim apart [
      | inl other ↦ rw a.result (
          ground (
            arith,
            other a.id a.secret a.splits,
            str_eq_iff a.id j,
            lookup-insert a.id j (record a.stored { consumed = true }) s,
          ))
      | inr failed ↦ absurd (failed (ap (λ x. x.0) a.result))
    ]
    | inr r ↦ rw r.result refl
  ]
