-- ===== src/Tests/Cluster.antt =====
-- The token store in a cluster, over a server that holds one secret and checks versions.
use chainctl.Prelude.{
  ℕ, suc, ◌≡◌, refl, sym, ap, ◌∙◌, ◌≢◌, inl, inr, Bool, true, false, ◌&&◌, ◌||◌, Option, none, some,
  [], ◌∷◌, arith, ◌==◌, if◌then◌else◌, ==_iff, Bool-cases,
}
use chainctl.Result.{Result, ok, err}
use chainctl.Text.{Str, str_eq, codes, split}
use chainctl.Text.Laws.{str_eq_iff, str_eq_refl}
use chainctl.Dict.{lookup}
use chainctl.Tokens.{Token, split_token, check_token, hash_secret, compare_secret}
use chainctl.Tokens.KubeStore.{
  ApiError, KubeError, Secret, SecretsApi, Codec, read_checked, write_consumed, not_found, conflict,
  data_key_record, token_secret_name,
}
use chainctl.Tokens.KubeStore.Consumption.{OptimisticLocking, RoundTrips, overtaken_update_fails}

-- The server counts from 1, so that no secret has the unset version.
abbrev shown : Secret → Secret
shown s = record s { resource_version = suc s.resource_version }

abbrev holds : Option Secret → Str → Option Secret
holds none name = none
holds (some s) name = if str_eq s.name name then some (shown s) else none

abbrev answer : Option Secret → Result ApiError Secret
answer none = err not_found
answer (some s) = ok s

abbrev is_current : Secret → Secret → Bool
is_current current s =
    str_eq current.name s.name
    && (s.resource_version == 0 || suc current.resource_version == s.resource_version)

abbrev overwrite : Option Secret → Secret → Result ApiError (Unit {0}) × Option Secret
overwrite none s = (err not_found, none)
overwrite (some current) s =
    if is_current current s
    then (ok tt, some (record s { resource_version = suc current.resource_version }))
    else (err conflict, some current)

abbrev one_secret : SecretsApi
one_secret = record {
  Server = Option Secret;
  create_secret_call = λ ns s server. (ok tt, some s);
  get_secret_call = λ ns name server. answer (holds server name);
  update_secret_call = λ ns s server. overwrite server s;
}

answers_held :
    (server : Option Secret) (name : Str) (s : Secret)
    → answer (holds server name) ≡ ok s
    → (holds server name ≡ some s) × (s.name ≡ name) × (s.resource_version ≢ 0)
answers_held none name s h = absurd (cc h)
answers_held (some t) name s h = elim (Bool-cases (str_eq t.name name)) [
  | inr other ↦ absurd (cc (rw other at h))
  | inl same ↦
      let is : shown t ≡ s = cc (rw same at h) in
      (
        rw same (ap some is),
        sym (ap (λ (x : Secret). x.name) is) ∙ (str_eq_iff t.name name).0 same,
        λ unset. suc_apart (ap (λ (x : Secret). x.resource_version) is ∙ unset),
      )
]
  where
    suc_apart : {n : ℕ} → suc n ≢ 0
    suc_apart h = omega arith

overwrite_checks :
    (server after : Option Secret) (s : Secret)
    → s.resource_version ≢ 0
    → overwrite server s ≡ (ok tt, after)
    → (current : Secret) × (holds server s.name ≡ some current)
      × (current.resource_version ≡ s.resource_version)
overwrite_checks none after s set h = absurd (cc (ap (λ q. q.0) h))
overwrite_checks (some t) after s set h = elim (Bool-cases (is_current t s)) [
  | inr other ↦ absurd (cc (ap (λ q. q.0) (rw other at h)))
  | inl same ↦ (
    shown t,
    ground arith,
    ground (
      arith,
      set,
      ==_iff s.resource_version 0,
      ==_iff (suc t.resource_version) s.resource_version,
    ),
  )
]

overwrite_stores :
    (server after : Option Secret) (s : Secret)
    → overwrite server s ≡ (ok tt, after)
    → (current : Secret) × (version : ℕ) × (holds server s.name ≡ some current)
      × (holds after s.name ≡ some (record s { resource_version = version }))
      × (current.contents ≢ s.contents → current.resource_version ≢ version)
overwrite_stores none after s h = absurd (cc (ap (λ q. q.0) h))
overwrite_stores (some t) after s h = elim (Bool-cases (is_current t s)) [
  | inl same ↦ (
    shown t,
    suc (suc t.resource_version),
    ground arith,
    ap (λ a. holds a s.name) (sym (ap (λ q. q.1) (rw same at h))) ∙ rw (str_eq_refl s.name) refl,
    λ changed is. omega arith,
  )
  | inr other ↦ absurd (cc (ap (λ q. q.0) (rw other at h)))
]

one_secret-OptimisticLocking : OptimisticLocking one_secret
one_secret-OptimisticLocking = record {
  stored = λ server ns name. holds server name;
  get_current = λ ns name server s h. answers_held server name s h;
  update_checks = λ ns s server after set h. overwrite_checks server after s set h;
  update_stores = λ ns s server after h. overwrite_stores server after s h;
}

abbrev no_hash : Str → Str
no_hash s = s

abbrev token_of : Bool → Token
token_of consumed = record {
  id = 97 ∷ [];
  scope = codes "worker";
  expires_at = 9;
  hashed_secret = hash_secret no_hash (97 ∷ []) (98 ∷ []);
  created_by = [];
  description = [];
  consumed = consumed;
}

-- The codec knows the token above, consumed or not.
abbrev is_known : Token → Bool
is_known r =
    str_eq r.id (97 ∷ [])
    && str_eq r.scope (codes "worker")
    && r.expires_at == 9
    && str_eq r.hashed_secret (hash_secret no_hash (97 ∷ []) (98 ∷ []))
    && str_eq r.created_by []
    && str_eq r.description []

abbrev flag_codec : Codec
flag_codec = record {
  marshal = λ r. if is_known r then some ((if r.consumed then 1 else 0) ∷ []) else none;
  unmarshal = λ payload. some (token_of (str_eq payload (1 ∷ [])));
  rfc3339 = λ now. [];
}

known_token : (r : Token) → is_known r ≡ true → r ≡ token_of r.consumed
known_token r h =
    let id : r.id ≡ 97 ∷ [] = ground (arith, str_eq_iff r.id (97 ∷ [])) in
    let scope : r.scope ≡ codes "worker" = ground (arith, str_eq_iff r.scope (codes "worker")) in
    let expiry : r.expires_at ≡ 9 = ground (arith, ==_iff r.expires_at 9) in
    let hashed : r.hashed_secret ≡ hash_secret no_hash (97 ∷ []) (98 ∷ []) =
      ground (arith, str_eq_iff r.hashed_secret (hash_secret no_hash (97 ∷ []) (98 ∷ []))) in
    let creator : r.created_by ≡ [] = ground (arith, str_eq_iff r.created_by []) in
    let described : r.description ≡ [] = ground (arith, str_eq_iff r.description []) in
    λ i. record {
      id = id i;
      scope = scope i;
      expires_at = expiry i;
      hashed_secret = hashed i;
      created_by = creator i;
      description = described i;
      consumed = r.consumed;
    }

flag_read : (b : Bool) → str_eq ((if b then 1 else 0) ∷ []) (1 ∷ []) ≡ b
unfolding str_eq
flag_read true = refl
flag_read false = refl

flag_codec-RoundTrips : RoundTrips flag_codec
flag_codec-RoundTrips r payload h = elim (Bool-cases (is_known r)) [
  | inr other ↦ absurd (cc (rw other at h))
  | inl known ↦
      let is : (if r.consumed then 1 else 0) ∷ [] ≡ payload = cc (rw known at h) in
      rw (← is, flag_read r.consumed) (ap some (sym (known_token r known)))
]

abbrev fresh_secret : Secret
fresh_secret = record {
  name = token_secret_name (97 ∷ []);
  namespace = [];
  labels = [];
  annotations = [];
  contents = (data_key_record, 0 ∷ []) ∷ [];
  resource_version = 4;
}

abbrev composite : Str
composite = codes "a.b"

abbrev write_fresh : ℕ → Option Secret → Result KubeError (Unit {0}) × Option Secret
write_fresh = write_consumed no_hash flag_codec one_secret [] (shown fresh_secret, token_of false)

composite_splits : split_token composite ≡ ok (97 ∷ [], 98 ∷ [])
unfolding split_token codes split
composite_splits = refl

fresh_reads :
    read_checked no_hash flag_codec one_secret [] composite (codes "worker") 5 (some fresh_secret)
    ≡ ok (shown fresh_secret, token_of false)
unfolding read_checked codes split_token split str_eq token_secret_name lookup data_key_record
    check_token compare_secret hash_secret
fresh_reads = refl

first_write_succeeds : (write_fresh 5 (some fresh_secret)).0 ≡ ok tt
unfolding write_consumed str_eq codes hash_secret token_secret_name
first_write_succeeds = refl

overtaken_update_fails_example : (write_fresh 5 (write_fresh 5 (some fresh_secret)).1).0 ≢ ok tt
overtaken_update_fails_example =
    overtaken_update_fails no_hash flag_codec one_secret [] one_secret-OptimisticLocking composite
      composite (codes "worker") (codes "worker") 5 5 (some fresh_secret)
      (write_fresh 5 (some fresh_secret)).1 (shown fresh_secret) (shown fresh_secret)
      (token_of false) (token_of false) (97 ∷ []) (98 ∷ []) (98 ∷ []) flag_codec-RoundTrips
      composite_splits composite_splits fresh_reads fresh_reads
      (ap (λ e. (e, (write_fresh 5 (some fresh_secret)).1)) first_write_succeeds)
