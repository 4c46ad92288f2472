-- ===== src/Tokens/KubeStore.antt =====
-- `KubeStore` of pkg/tokens/kube_store.go. The API server is a parameter: it answers a call and
-- goes on in a state of its own. The JSON of a record and the texts of times are parameters too.
pub mod Consumption
use chainctl.Prelude.{
  ℕ, zero, suc, ◌+◌, ◌-◌, ◌*◌, ◌/◌, ◌%◌, ◌≤◌, ◌<◌, String, ◌≡◌, refl, sym, ap, ◌∙◌, subst, ◌≢◌, ◌↔◌,
  ◌⊎◌, inl, inr, Bool, true, false, not, ◌&&◌, ◌||◌, Option, none, some, List, [], ◌∷◌, ◌++◌, map,
  append-nil, append_assoc, arith, ltb, leb, ◌==◌, if◌then◌else◌, ==_iff, leb→le, Bool-cases,
  Option-cases, length, is_empty, take, drop, length-append, any, all, All, All-append,
}
use chainctl.Result.{
  ok, map_err, Result, ◌>>=◌, ◌>>◌, guard, of_error, >>=-eq-ok, Result-cases, err,
}
use chainctl.Text.{
  Str, codes, str_eq, has_prefix, contains, is_space, trim_left, trim_right, trim_space, is_blank,
  lower, upper, to_lower, to_upper, cons_head, split, cut, cut_last, join,
}
use chainctl.Dict.{
  Dict, lookup, insert, lookup-insert, lookup-insert_self, Distinct, remove, lookup-remove,
}
use chainctl.Tokens.{
  CreateOptions, Token, Error, Duration, CreatedToken, Entropy, Scope, scope_worker,
  scope_control_plane, hour, max_ttl, hex_digit, hex_encode, random_hex, effective_ttl, known_scope,
  two_parts, split_token, hash_secret, compare_secret, generate_token, check_token, unknown_scope,
  ttl_exceeds_maximum, generate_id, generate_secret, token_not_found, token_consumed, token_expired,
  scope_mismatch, invalid_token_fmt, after, before, new_token,
}

-- The error of an API call: apierrors.IsNotFound, or another.
pub data ApiError : Type 0 where
  not_found conflict unavailable : ApiError

pub data KubeError : Type 0 where
  of_token : Error → KubeError
  not_initialised marshal_failed : KubeError
  create_secret get_secret mark_consumed_failed : ApiError → KubeError
  payload_missing decode_failed : KubeError

-- corev1.Secret; `resource_version` is the server's own and comes back with an update.
pub record Secret : Type 0 where
  pub name : Str
  pub namespace : Str
  pub labels : Dict Str
  pub annotations : Dict Str
  pub contents : Dict Str
  pub resource_version : ℕ

pub record SecretsApi : Type 1 where
  pub Server : Type 0
  pub create_secret_call : Str → Secret → Server → Result ApiError (Unit {0}) × Server
  pub get_secret_call : Str → Str → Server → Result ApiError Secret
  pub update_secret_call : Str → Secret → Server → Result ApiError (Unit {0}) × Server

-- encoding/json on a token record, and time.Time's RFC 3339.
pub record Codec : Type 0 where
  pub marshal : Token → Option Str
  pub unmarshal : Str → Option Token
  pub rfc3339 : ℕ → Str

unfoldable pub default_namespace : Str
unfolding codes
default_namespace = codes "chain-system"

unfoldable pub data_key_record : Str
unfolding codes
data_key_record = codes "record"

unfoldable pub annotation_consumed_at : Str
unfolding codes
annotation_consumed_at = codes "chainctl.io/consumedAt"

-- What `NewKubeStore` makes of the namespace.
unfoldable pub store_namespace : Str → Str
store_namespace namespace = if is_blank namespace then default_namespace else trim_space namespace

unfoldable pub token_secret_name : Str → Str
token_secret_name id = codes "chainctl-node-token-" ++ id

annotate : Str → Str → Dict Str → Dict Str
annotate key value annotations =
    if is_empty value then annotations else insert key value annotations

unfoldable pub creation_annotations : Codec → Token → Dict Str
unfolding annotate
creation_annotations codec r = annotate (codes "chainctl.io/description") r.description (
    annotate (codes "chainctl.io/createdBy") r.created_by
      ((codes "chainctl.io/expiresAt", codec.rfc3339 r.expires_at) ∷ []))

unfoldable pub token_secret : Codec → Str → Token → Str → Secret
unfolding creation_annotations
token_secret codec namespace r payload = record {
  name = token_secret_name r.id;
  namespace = namespace;
  labels =
      (codes "app.kubernetes.io/managed-by", codes "chainctl")
      ∷ (codes "chainctl.io/token-scope", r.scope)
      ∷ [];
  annotations = creation_annotations codec r;
  contents = (data_key_record, payload) ∷ [];
  resource_version = 0;
}

module _ (sha256 : Str → Str) (codec : Codec) (api : SecretsApi) (namespace : Str) where
  open api use {Server, create_secret_call, get_secret_call, update_secret_call}

  send_created :
      CreatedToken → Result ApiError (Unit {0}) × Server → Result KubeError CreatedToken × Server
  send_created created (ok _, server) = (ok created, server)
  send_created created (err e, server) = (err (create_secret e), server)

  store_generated :
      Result Error (Token × CreatedToken) → Server → Result KubeError CreatedToken × Server
  unfolding send_created
  store_generated (err e) server = (err (of_token e), server)
  store_generated (ok (r, created)) server = elim (codec.marshal r) [
    | none ↦ (err marshal_failed, server)
    | some payload ↦
        send_created created
          (create_secret_call namespace (token_secret codec namespace r payload) server)
  ]

  -- `has_client` is false for a nil client.
  unfoldable pub create_in_cluster :
      Bool → CreateOptions → ℕ → Entropy → Server → Result KubeError CreatedToken × Server
  unfolding store_generated
  create_in_cluster has_client opts now entropy server =
      if not has_client
      then (err not_initialised, server)
      else store_generated (generate_token sha256 opts now entropy) server

  -- The record of a secret that `Get` returned.
  unfoldable pub stored_record : Secret → Result KubeError Token
  stored_record stored = elim (lookup data_key_record stored.contents) [
    | none ↦ err payload_missing
    | some raw ↦ elim (codec.unmarshal raw) [ none ↦ err decode_failed | some r ↦ ok r ]
  ]

  of_api : Result ApiError Secret → Result KubeError Secret
  of_api (ok stored) = ok stored
  of_api (err not_found) = err (of_token token_not_found)
  of_api (err e) = err (get_secret e)

  checked_record : Str → Str → ℕ → Scope → Secret × Token → Result KubeError (Secret × Token)
  checked_record id secret now expected (stored, r) =
      elim (check_token sha256 r id secret now expected) [
        | none ↦ ok (stored, r)
        | some e ↦ err (of_token e)
      ]

  -- The first half of `Consume`, up to the last check: it reads the secret and writes nothing.
  unfoldable pub read_checked : Str → Scope → ℕ → Server → Result KubeError (Secret × Token)
  unfolding stored_record of_api checked_record
  read_checked composite expected now server = do
    (id, secret) ← map_err of_token (split_token composite)
    stored ← of_api (get_secret_call namespace (token_secret_name id) server)
    r ← stored_record stored
    checked_record id secret now expected (stored, r)

  unfoldable pub marked_secret : Secret → Str → ℕ → Secret
  marked_secret stored payload now = record stored {
    annotations = insert annotation_consumed_at (codec.rfc3339 now) stored.annotations;
    contents = insert data_key_record payload stored.contents;
  }

  sent_update : Result ApiError (Unit {0}) × Server → Result KubeError (Unit {0}) × Server
  sent_update (ok _, server) = (ok tt, server)
  sent_update (err e, server) = (err (mark_consumed_failed e), server)

  -- The second half: the record marked consumed goes back in the secret that was read.
  unfoldable pub write_consumed : Secret × Token → ℕ → Server → Result KubeError (Unit {0}) × Server
  unfolding sent_update marked_secret
  write_consumed (stored, r) now server = elim (codec.marshal (record r { consumed = true })) [
    | none ↦ (err marshal_failed, server)
    | some payload ↦
        sent_update (update_secret_call namespace (marked_secret stored payload now) server)
  ]

  consume_read :
      Result KubeError (Secret × Token) → ℕ → Server → Result KubeError (Unit {0}) × Server
  consume_read (err e) now server = (err e, server)
  consume_read (ok found) now server = write_consumed found now server

  unfoldable pub consume_in_cluster :
      Bool → Str → Scope → ℕ → Server → Result KubeError (Unit {0}) × Server
  unfolding consume_read
  consume_in_cluster has_client composite expected now server =
      if not has_client
      then (err not_initialised, server)
      else consume_read (read_checked composite expected now server) now server
