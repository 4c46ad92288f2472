-- ===== src/Tokens.antt =====
-- Join tokens: pkg/tokens/store.go, its types and what both stores share.
-- Times are nanoseconds from an origin in the past; a `time.Duration` may be negative.
pub mod MemoryStore
pub mod KubeStore
pub mod Outcome
pub mod RoundTrip
pub mod SingleUse
use chainctl.Prelude.{
  ℕ, zero, suc, ◌+◌, ◌*◌, ◌/◌, ◌%◌, Bool, true, false, not, ◌&&◌, ◌||◌, Option, none, some, List,
  [], ◌∷◌, ◌++◌, length, ltb, ◌==◌, if◌then◌else◌, is_empty, ◌-◌, ◌≤◌, ◌<◌, String, ◌≡◌, refl, sym,
  ap, ◌∙◌, subst, ◌≢◌, ◌↔◌, ◌⊎◌, inl, inr, map, append-nil, append_assoc, arith, leb, ==_iff,
  leb→le, Bool-cases, Option-cases, take, drop, length-append, any, all, All, All-append,
}
use chainctl.Result.{
  Result, ok, err, ◌>>=◌, ◌>>◌, guard, map_err, of_error, >>=-eq-ok, Result-cases,
}
use chainctl.Text.{
  Str, codes, str_eq, split, has_prefix, contains, is_space, trim_left, trim_right, trim_space,
  is_blank, lower, upper, to_lower, to_upper, cons_head, cut, cut_last, join,
}

-- type Scope string
abbrev pub Scope : Type 0
Scope = Str

unfoldable pub scope_worker : Scope
unfolding codes
scope_worker = codes "worker"

unfoldable pub scope_control_plane : Scope
unfolding codes
scope_control_plane = codes "control-plane"

pub data Error : Type 0 where
  unknown_scope : Scope → Error
  ttl_exceeds_maximum : ℕ → Error
  generate_id generate_secret : Error
  token_not_found token_consumed token_expired scope_mismatch invalid_token_fmt : Error

-- A duration: `after n` is n ns, `before n` is -(n + 1) ns.
pub data Duration : Type 0 where
  after : ℕ → Duration
  before : ℕ → Duration

abbrev pub hour : ℕ
hour = 3_600_000_000_000

abbrev pub max_ttl : ℕ
max_ttl = 24 * hour

pub record CreateOptions : Type 0 where
  pub scope : Scope
  pub ttl : Duration
  pub created_by : Str
  pub description : Str

pub record Token : Type 0 where
  pub id : Str
  pub scope : Scope
  pub expires_at : ℕ
  pub hashed_secret : Str
  pub created_by : Str
  pub description : Str
  pub consumed : Bool

pub record CreatedToken : Type 0 where
  pub id : Str
  pub scope : Scope
  pub expires_at : ℕ
  pub created_by : Str
  pub description : Str
  pub token : Str

-- What the two calls of `rand.Read` leave in their buffers, `none` for an error.
pub record Entropy : Type 0 where
  pub for_id : Option (List ℕ)
  pub for_secret : Option (List ℕ)

-- hex.EncodeToString
abbrev pub hex_digit : ℕ → ℕ
hex_digit n = if ltb n 10 then 48 + n else 87 + n

unfoldable pub hex_encode : List ℕ → Str
hex_encode [] = []
hex_encode (b ∷ bs) = hex_digit (b / 16) ∷ hex_digit (b % 16) ∷ hex_encode bs

unfoldable pub random_hex : Option (List ℕ) → Error → Result Error Str
unfolding hex_encode
random_hex none e = err e
random_hex (some buf) e = ok (hex_encode buf)

-- `if ttl <= 0 { ttl = 2 * time.Hour }`
unfoldable pub effective_ttl : Duration → ℕ
effective_ttl (after zero) = 2 * hour
effective_ttl (after (suc n)) = suc n
effective_ttl (before n) = 2 * hour

unfoldable pub known_scope : Scope → Bool
known_scope s = str_eq s scope_worker || str_eq s scope_control_plane

-- The two parts of a text that has exactly two, neither of them empty.
abbrev pub two_parts : List Str → Result Error (Str × Str)
two_parts (p ∷ q ∷ []) = if is_empty p || is_empty q then err invalid_token_fmt else ok (p, q)
two_parts _ = err invalid_token_fmt

unfoldable pub split_token : Str → Result Error (Str × Str)
split_token token = two_parts (split b'.' token)

-- `sha256` stands for crypto/sha256.
module _ (sha256 : List ℕ → List ℕ) where
  unfoldable pub hash_secret : Str → Str → Str
  unfolding hex_encode
  hash_secret id secret = hex_encode (sha256 (id ++ b':' ∷ secret))

  -- The constant-time comparison is one of texts of one length.
  unfoldable pub compare_secret : Token → Str → Str → Bool
  compare_secret record' id secret =
      let expected = hash_secret id secret in
      if not (length expected == length record'.hashed_secret)
      then false
      else str_eq expected record'.hashed_secret

  new_token : CreateOptions → ℕ → Str → Str → Token × CreatedToken
  new_token opts expires id secret = (
    record {
      id = id;
      scope = opts.scope;
      expires_at = expires;
      hashed_secret = hash_secret id secret;
      created_by = opts.created_by;
      description = opts.description;
      consumed = false;
    },
    record {
      id = id;
      scope = opts.scope;
      expires_at = expires;
      created_by = opts.created_by;
      description = opts.description;
      token = id ++ b'.' ∷ secret;
    },
  )

  unfoldable pub generate_token : CreateOptions → ℕ → Entropy → Result Error (Token × CreatedToken)
  unfolding new_token random_hex effective_ttl known_scope
  generate_token opts now entropy =
      if not (known_scope opts.scope)
      then err (unknown_scope opts.scope)
      else if ltb max_ttl (effective_ttl opts.ttl)
      then err (ttl_exceeds_maximum (effective_ttl opts.ttl))
      else do
        id ← random_hex entropy.for_id generate_id
        secret ← random_hex entropy.for_secret generate_secret
        ok (new_token opts (now + effective_ttl opts.ttl) id secret)

  -- The checks on a stored record, in the order of `Consume`, `none` where all pass.
  unfoldable pub check_token : Token → Str → Str → ℕ → Scope → Option Error
  check_token record' id secret now expected =
      if record'.consumed
      then some token_consumed
      else if ltb record'.expires_at now
      then some token_expired
      else if not (str_eq record'.scope expected)
      then some scope_mismatch
      else if not (compare_secret record' id secret)
      then some token_not_found
      else none
