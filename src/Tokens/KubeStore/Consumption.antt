-- ===== src/Tokens/KubeStore/Consumption.antt =====
-- Two consumers of one token in the cluster: between the read and the update of one, another may
-- run. What the API server documents of `Get` and `Update` is a hypothesis.
use chainctl.Prelude.{
  ℕ, ◌≡◌, refl, sym, ap, ◌∙◌, ◌≢◌, inl, inr, true, false, Option, some, arith, Option-cases,
}
use chainctl.Result.{ok, Result, map_err, >>=-eq-ok, err}
use chainctl.Text.{Str}
use chainctl.Dict.{lookup-insert_self}
use chainctl.Tokens.{Token, Error, Scope, split_token, check_token}
use chainctl.Tokens.KubeStore.{
  Secret, ApiError, KubeError, SecretsApi, Codec, data_key_record, token_secret_name, stored_record,
  read_checked, marked_secret, write_consumed, not_found, of_token, of_api, checked_record,
  sent_update,
}

-- The server keeps a secret for a namespace and a name, with a resource version, which is never the
-- unset one, 0. `Get` returns it. `Update` stores a secret over the one that is there, under a
-- version that is another one if the contents are: with a version it succeeds only if that is the
-- one that the server has, and without one on any.
pub record OptimisticLocking (api : SecretsApi) : Type 0 where
  pub stored : api.Server → Str → Str → Option Secret
  pub get_current :
      (ns name : Str) (server : api.Server) (s : Secret)
      → api.get_secret_call ns name server ≡ ok s
      → (stored server ns name ≡ some s) × (s.name ≡ name) × (s.resource_version ≢ 0)
  pub update_checks :
      (ns : Str) (s : Secret) (server server_after : api.Server)
      → s.resource_version ≢ 0
      → api.update_secret_call ns s server ≡ (ok tt, server_after)
      → (current : Secret) × (stored server ns s.name ≡ some current)
        × (current.resource_version ≡ s.resource_version)
  pub update_stores :
      (ns : Str) (s : Secret) (server server_after : api.Server)
      → api.update_secret_call ns s server ≡ (ok tt, server_after)
      → (current : Secret) × (version : ℕ) × (stored server ns s.name ≡ some current)
        × (stored server_after ns s.name ≡ some (record s { resource_version = version }))
        × (current.contents ≢ s.contents → current.resource_version ≢ version)

-- encoding/json reads back the records that it wrote.
abbrev pub RoundTrips : Codec → Type 0
RoundTrips codec =
    (r : Token) (payload : Str) → codec.marshal r ≡ some payload → codec.unmarshal payload ≡ some r

module _ (sha256 : Str → Str) (codec : Codec) (api : SecretsApi) (namespace : Str) where
  -- What a successful first half has found.
  pub record Found (composite : Str) (server : api.Server) (s : Secret) (r : Token) : Type 0 where
    pub id : Str
    pub secret : Str
    pub splits : split_token composite ≡ ok (id, secret)
    pub got : api.get_secret_call namespace (token_secret_name id) server ≡ ok s
    pub decoded : stored_record sha256 codec api namespace s ≡ ok r
    pub fresh : r.consumed ≡ false

  of_api-ok :
      (m : Result ApiError Secret) (s : Secret)
      → of_api sha256 codec api namespace m ≡ ok s
      → m ≡ ok s
  unfolding of_api
  of_api-ok (ok x) s h = ground arith
  of_api-ok (err not_found) s h = absurd (cc h)
  of_api-ok (err _) s h = absurd (cc h)

  map_err-ok : (m : Result Error (Str × Str)) (p : Str × Str) → map_err of_token m ≡ ok p → m ≡ ok p
  map_err-ok (ok x) p h = ground arith
  map_err-ok (err e) p h = absurd (cc h)

  checked_record-ok :
      (id secret : Str) (now : ℕ) (expected : Scope) (s s' : Secret) (r r' : Token)
      → checked_record sha256 codec api namespace id secret now expected (s, r) ≡ ok (s', r')
      → (s ≡ s') × (r ≡ r') × (r.consumed ≡ false)
  unfolding checked_record check_token
  checked_record-ok id secret now expected s s' r r' h = (ground arith, ground arith, ground arith)

  pub read_checked-Found :
      (composite : Str) (expected : Scope) (now : ℕ) (server : api.Server) (s : Secret) (r : Token)
      → read_checked sha256 codec api namespace composite expected now server ≡ ok (s, r)
      → Found composite server s r
  unfolding read_checked
  read_checked-Found composite expected now server s r h =
      let ((id, secret), e1, h1) = >>=-eq-ok (map_err of_token (split_token composite)) _ h in
      let (s', e2, h2) =
        >>=-eq-ok
          (of_api sha256 codec api namespace
            (api.get_secret_call namespace (token_secret_name id) server))
          _ h1 in
      let (r', e3, h3) = >>=-eq-ok (stored_record sha256 codec api namespace s') _ h2 in
      let (same_s, same_r, fresh) = checked_record-ok id secret now expected s' s r' r h3 in
      record {
        id = id;
        secret = secret;
        splits = map_err-ok (split_token composite) (id, secret) e1;
        got = rw (← same_s) (of_api-ok _ s' e2);
        decoded = rw (← same_s, ← same_r) e3;
        fresh = rw (← same_r) fresh;
      }

  sent_update-ok :
      (p : Result ApiError (Unit {0}) × api.Server) (server_after : api.Server)
      → sent_update sha256 codec api namespace p ≡ (ok tt, server_after)
      → p ≡ (ok tt, server_after)
  unfolding sent_update
  sent_update-ok (ok _, server) server_after h = ap (λ q. (ok tt, q.1)) h
  sent_update-ok (err e, server) server_after h = absurd (cc (ap (λ q. q.0) h))

  -- What a successful second half has sent.
  record Sent (s : Secret) (r : Token) (now : ℕ) (server server_after : api.Server) : Type 0 where
    payload : Str
    encoded : codec.marshal (record r { consumed = true }) ≡ some payload
    updated :
        api.update_secret_call namespace
          (marked_secret sha256 codec api namespace s payload now)
          server
        ≡ (ok tt, server_after)

  write_consumed-Sent :
      (s : Secret) (r : Token) (now : ℕ) (server server_after : api.Server)
      → write_consumed sha256 codec api namespace (s, r) now server ≡ (ok tt, server_after)
      → Sent s r now server server_after
  unfolding write_consumed
  write_consumed-Sent s r now server server_after h =
      elim (Option-cases (codec.marshal (record r { consumed = true }))) [
        | inl failed ↦ absurd (cc (ap (λ q. q.0) (rw (failed, write_consumed) at h)))
        | inr (payload, encoded) ↦ record {
          payload = payload;
          encoded = encoded;
          updated = sent_update-ok _ server_after (rw (encoded, write_consumed) at h);
        }
      ]

  same_ids :
      (composite id secret id' secret' : Str)
      → split_token composite ≡ ok (id, secret)
      → split_token composite ≡ ok (id', secret')
      → id ≡ id'
  same_ids composite id secret id' secret' h k = ground (arith, h, k)

  decode_marked :
      (s : Secret) (r : Token) (payload : Str) (now version : ℕ)
      → codec.unmarshal payload ≡ some (record r { consumed = true })
      → stored_record sha256 codec api namespace
          (record (marked_secret sha256 codec api namespace s payload now) {
            resource_version = version;
          })
        ≡ ok (record r { consumed = true })
  unfolding stored_record marked_secret
  decode_marked s r payload now version h =
      ground (arith, lookup-insert_self data_key_record payload s.contents)

  unconsumed : (r' r : Token) → r' ≡ record r { consumed = true } → r'.consumed ≡ false → ⊥
  unconsumed r' r e h = cc (ap (λ (x : Token). x.consumed) e)

  ok_injective : (a b : Token) → ◌≡◌ {A = Result KubeError Token} (ok a) (ok b) → a ≡ b
  ok_injective a b h = cc

  module _ (locking : OptimisticLocking api) where
    -- The contents that a consumer sends are others than those that it has read.
    contents_change :
        (s : Secret) (r : Token) (payload : Str) (now : ℕ)
        → RoundTrips codec
        → stored_record sha256 codec api namespace s ≡ ok r
        → r.consumed ≡ false
        → codec.marshal (record r { consumed = true }) ≡ some payload
        → s.contents ≢ (marked_secret sha256 codec api namespace s payload now).contents
    unfolding marked_secret stored_record
    contents_change s r payload now trips decoded fresh encoded same =
        let marked = decode_marked s r payload now 0 (trips _ payload encoded) in
        unconsumed r r (ok_injective _ _ (sym decoded ∙ rw same marked)) fresh

    -- Where two consumers of one token have both passed the checks and then the update of the one
    -- succeeds, the update of the other fails, if the server checks and changes the version of a
    -- secret on an update and a record that is encoded is read back.
    pub overtaken_update_fails :
        (composite composite' : Str) (expected expected' : Scope) (now now' : ℕ)
        (server server_after : api.Server) (s s' : Secret) (r r' : Token) (id secret secret' : Str)
        → RoundTrips codec
        → split_token composite ≡ ok (id, secret)
        → split_token composite' ≡ ok (id, secret')
        → read_checked sha256 codec api namespace composite expected now server ≡ ok (s, r)
        → read_checked sha256 codec api namespace composite' expected' now' server ≡ ok (s', r')
        → write_consumed sha256 codec api namespace (s, r) now server ≡ (ok tt, server_after)
        → (write_consumed sha256 codec api namespace (s', r') now' server_after).0 ≢ ok tt
    unfolding marked_secret
    overtaken_update_fails composite composite' expected expected' now now' server server_after s s'
          r r' id secret secret' trips splits splits' read read' first second =
        let f = read_checked-Found composite expected now server s r read in
        let f' = read_checked-Found composite' expected' now' server s' r' read' in
        let same_id = same_ids composite id secret f.id f.secret splits f.splits in
        let same_id' = same_ids composite' id secret' f'.id f'.secret splits' f'.splits in
        let last = (write_consumed sha256 codec api namespace (s', r') now' server_after).1 in
        let w = write_consumed-Sent s r now server server_after first in
        let w' = write_consumed-Sent s' r' now' server_after last (λ i. (second i, last)) in
        let marked = marked_secret sha256 codec api namespace s w.payload now in
        let marked' = marked_secret sha256 codec api namespace s' w'.payload now' in
        let (read_s, named, set) =
          locking.get_current namespace (token_secret_name f.id) server s f.got in
        let (read_s', named', set') =
          locking.get_current namespace (token_secret_name f'.id) server s' f'.got in
        let (found, version, was, kept, changes) =
          locking.update_stores namespace marked server server_after w.updated in
        let (current, is, same) =
          locking.update_checks namespace marked' server_after last set' w'.updated in
        let ids : f.id ≡ f'.id = sym same_id ∙ same_id' in
        let same_s : s' ≡ s = cc (ap token_secret_name ids, read_s, read_s') in
        let found_s : found ≡ s = cc (named, was, read_s) in
        let names : s'.name ≡ s.name = ap (λ (x : Secret). x.name) same_s in
        let sent : current ≡ record marked { resource_version = version } = cc (names, kept, is) in
        let versions : found.resource_version ≡ version =
          ap (λ (x : Secret). x.resource_version) (found_s ∙ sym same_s)
          ∙ sym same
          ∙ ap (λ (x : Secret). x.resource_version) sent in
        changes
          (λ equal.
            contents_change s r w.payload now trips f.decoded f.fresh w.encoded
              (sym (ap (λ (x : Secret). x.contents) found_s) ∙ equal))
          versions

    -- Once a consumer's update has succeeded, no consumer that reads the secret in the state that
    -- the update left passes the checks.
    pub consumed_is_seen :
        (composite composite' : Str) (expected expected' : Scope) (now now' : ℕ)
        (server server_after : api.Server) (s s' : Secret) (r r' : Token) (id secret secret' : Str)
        → RoundTrips codec
        → split_token composite ≡ ok (id, secret)
        → split_token composite' ≡ ok (id, secret')
        → read_checked sha256 codec api namespace composite expected now server ≡ ok (s, r)
        → write_consumed sha256 codec api namespace (s, r) now server ≡ (ok tt, server_after)
        → read_checked sha256 codec api namespace composite' expected' now' server_after
          ≢ ok (s', r')
    consumed_is_seen composite composite' expected expected' now now' server server_after s s' r r'
          id secret secret' trips splits splits' read wrote again =
        let f = read_checked-Found composite expected now server s r read in
        let f' = read_checked-Found composite' expected' now' server_after s' r' again in
        let w = write_consumed-Sent s r now server server_after wrote in
        let marked = marked_secret sha256 codec api namespace s w.payload now in
        let (_, version, _, kept, _) =
          locking.update_stores namespace marked server server_after w.updated in
        let same_id = same_ids composite id secret f.id f.secret splits f.splits in
        let same_id' = same_ids composite' id secret' f'.id f'.secret splits' f'.splits in
        let (_, named, _) = locking.get_current namespace (token_secret_name f.id) server s f.got in
        let (current, _, _) =
          locking.get_current namespace (token_secret_name f'.id) server_after s' f'.got in
        let same_name : token_secret_name f'.id ≡ marked.name =
          unfold marked_secret in rw (← same_id', named, ← same_id) refl in
        let overwritten : some s' ≡ some (record marked { resource_version = version }) =
          sym current ∙ rw same_name kept in
        let is_marked : s' ≡ record marked { resource_version = version } = cc in
        let again_decoded = rw is_marked at f'.decoded in
        unconsumed r' r
          (ok_injective _ _ (
            sym again_decoded
            ∙ decode_marked s r w.payload now version (trips _ w.payload w.encoded)))
          f'.fresh
