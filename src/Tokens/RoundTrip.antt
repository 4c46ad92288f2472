-- ===== src/Tokens/RoundTrip.antt =====
-- What `generateToken` issues, `splitToken` reads back and `Consume` accepts, once.
use chainctl.Prelude.{
  ℕ, ◌+◌, ◌≤◌, ◌<◌, ◌≡◌, refl, true, false, none, some, List, [], ◌∷◌, ◌++◌, arith, inl, inr, ap,
}
use chainctl.Result.{ok, Result-cases}
use chainctl.Text.{Str, split}
use chainctl.Text.Laws.{Without, split-append, split-Without, str_eq_refl}
use chainctl.Dict.{lookup, insert, lookup-insert_self}
use chainctl.Tokens.{
  Error, token_consumed, CreateOptions, Token, CreatedToken, Entropy, hex_encode, effective_ttl,
  split_token, hash_secret, compare_secret, generate_token, check_token, max_ttl, Duration,
}
use chainctl.Tokens.MemoryStore.{MemoryStore, create, consume}

hex_encode-Without : (bs : List ℕ) → Without b'.' (hex_encode bs)
unfolding hex_encode
hex_encode-Without [] = tt
hex_encode-Without (b ∷ bs) = (ground arith, (ground arith, hex_encode-Without bs))

-- The composite of two encodings that are not empty splits into them.
pub split_token-composite :
    (a b : ℕ) (ids secrets : List ℕ)
    → split_token (hex_encode (a ∷ ids) ++ b'.' ∷ hex_encode (b ∷ secrets))
      ≡ ok (hex_encode (a ∷ ids), hex_encode (b ∷ secrets))
unfolding split_token
split_token-composite a b ids secrets =
    rw
      (
        split-append b'.' (hex_encode (a ∷ ids)) (hex_encode (b ∷ secrets))
            (hex_encode-Without (a ∷ ids)),
        split-Without b'.' (hex_encode (b ∷ secrets)) (hex_encode-Without (b ∷ secrets)),
      )
      (unfold hex_encode in refl)

effective_ttl_pos : (d : Duration) → 0 < effective_ttl d
unfolding effective_ttl
effective_ttl_pos d = ground arith

module _ (sha256 : List ℕ → List ℕ) where
  -- A token that is generated expires after now, and at most the maximal time to live later,
  -- whatever time to live was asked for.
  pub generate_token-expires :
      (opts : CreateOptions) (now : ℕ) (entropy : Entropy) {r : Token} {c : CreatedToken}
      → generate_token sha256 opts now entropy ≡ ok (r, c)
      → (now < r.expires_at) × (r.expires_at ≤ now + max_ttl) × (c.expires_at ≡ r.expires_at)
  unfolding generate_token
  generate_token-expires opts now entropy h = ground (arith, effective_ttl_pos opts.ttl)

  compare_secret_self :
      (r : Token) (id secret : Str)
      → r.hashed_secret ≡ hash_secret sha256 id secret
      → compare_secret sha256 r id secret ≡ true
  unfolding compare_secret
  compare_secret_self r id secret h = ground (arith, str_eq_refl (hash_secret sha256 id secret))

  check_token_fresh :
      (r : Token) (id secret : Str) (now : ℕ)
      → r.consumed ≡ false
      → now ≤ r.expires_at
      → r.hashed_secret ≡ hash_secret sha256 id secret
      → check_token sha256 r id secret now r.scope ≡ none
  unfolding check_token
  check_token_fresh r id secret now fresh alive hashed =
      ground (arith, str_eq_refl r.scope, compare_secret_self r id secret)

  check_token_consumed :
      (r : Token) (id secret : Str) (now : ℕ) (expected : Str)
      → r.consumed ≡ true
      → check_token sha256 r id secret now expected ≡ some token_consumed
  unfolding check_token
  check_token_consumed r id secret now expected used = ground arith

  -- `consume` on a composite that splits and an id that is stored: what the checks say.
  pub consume_accepts :
      (composite expected id secret : Str) (now : ℕ) (s : MemoryStore) (r : Token)
      → split_token composite ≡ ok (id, secret)
      → lookup id s ≡ some r
      → check_token sha256 r id secret now expected ≡ none
      → consume sha256 composite expected now s ≡ (none, insert id (record r { consumed = true }) s)
  unfolding consume
  consume_accepts composite expected id secret now s r split found fine = rw (split, found, fine)

  pub consume_refuses :
      (composite expected id secret : Str) (now : ℕ) (s : MemoryStore) (r : Token) (e : Error)
      → split_token composite ≡ ok (id, secret)
      → lookup id s ≡ some r
      → check_token sha256 r id secret now expected ≡ some e
      → consume sha256 composite expected now s ≡ (some e, s)
  unfolding consume
  consume_refuses composite expected id secret now s r e split found bad = rw (split, found, bad)

  -- What a successful `create` has stored.
  pub create_stored :
      (opts : CreateOptions) (now : ℕ) (entropy : Entropy) (s : MemoryStore) {c : CreatedToken}
      {s' : MemoryStore}
      → create sha256 opts now entropy s ≡ (ok c, s')
      → (r : Token) × (generate_token sha256 opts now entropy ≡ ok (r, c)) × (s' ≡ insert r.id r s)
  unfolding create
  create_stored opts now entropy s h =
      elim (Result-cases (generate_token sha256 opts now entropy)) [
        | inl ((r, c'), e) ↦ (r, ground arith, ground arith)
        | inr (x, e) ↦ absurd (ground arith)
      ]

  -- The parts of a generated token.
  generate_token_parts :
      (opts : CreateOptions) (now : ℕ) (ids secrets : List ℕ) {r : Token} {c : CreatedToken}
      → generate_token sha256 opts now (record { for_id = some ids; for_secret = some secrets })
        ≡ ok (r, c)
      → (r.id ≡ hex_encode ids)
        × (r.hashed_secret ≡ hash_secret sha256 r.id (hex_encode secrets))
        × (r.consumed ≡ false)
        × (c.token ≡ hex_encode ids ++ b'.' ∷ hex_encode secrets)
        × (c.scope ≡ r.scope)
        × (c.expires_at ≡ r.expires_at)
  unfolding generate_token
  generate_token_parts opts now ids secrets h = ground arith

  consume_twice :
      (r : Token) (composite secret scope : Str) (at later : ℕ) (s : MemoryStore)
      → split_token composite ≡ ok (r.id, secret)
      → r.consumed ≡ false
      → at ≤ r.expires_at
      → r.hashed_secret ≡ hash_secret sha256 r.id secret
      → let (e, used) = consume sha256 composite r.scope at (insert r.id r s) in
        (e ≡ none) × ((consume sha256 composite scope later used).0 ≡ some token_consumed)
  consume_twice r composite secret scope at later s split fresh alive hashed =
      let stored = insert r.id r s in
      let r' : Token = record r { consumed = true } in
      rw
        (consume_accepts composite r.scope r.id secret at stored r split
          (lookup-insert_self r.id r s) (check_token_fresh r r.id secret at fresh alive hashed))
        (
          refl,
          ap (λ p. p.0)
              (consume_refuses composite scope r.id secret later (insert r.id r' stored) r'
                token_consumed split (lookup-insert_self r.id r' stored)
                (check_token_consumed r' r.id secret later scope refl)),
        )

  -- A token that `create` returns, with bytes for the identifier and for the secret, is accepted by
  -- `consume` with its own scope, at any time up to its expiry, and the call that follows is
  -- refused as consumed, at whatever time and for whatever scope.
  pub create-consume_once :
      (opts : CreateOptions) (now a b : ℕ) (ids secrets : List ℕ) (s : MemoryStore)
      {c : CreatedToken} {s' : MemoryStore}
      → create sha256 opts now
          (record { for_id = some (a ∷ ids); for_secret = some (b ∷ secrets) })
          s
        ≡ (ok c, s')
      → (at later : ℕ) (scope : Str) → at ≤ c.expires_at
      → let (e, used) = consume sha256 c.token c.scope at s' in
        (e ≡ none) × ((consume sha256 c.token scope later used).0 ≡ some token_consumed)
  create-consume_once opts now a b ids secrets s h at later scope alive =
      let (r, made, stored) =
        create_stored opts now (record { for_id = some (a ∷ ids); for_secret = some (b ∷ secrets) })
          s h in
      let (is_id, hashed, fresh, token, scoped, expires) =
        generate_token_parts opts now (a ∷ ids) (b ∷ secrets) made in
      rw (stored, scoped)
        (consume_twice r _ (hex_encode (b ∷ secrets)) scope at later s
          (rw (token, is_id) (split_token-composite a b ids secrets)) fresh (omega arith) hashed)
