-- ===== src/Node.antt =====
-- `chainctl node token` and `node join`, cmd/chainctl/node: token.go, join.go and the fallback of
-- store_factory.go, over a store of tokens with the state `S`.
pub mod Joining
use chainctl.Prelude.{
  ℕ, zero, suc, ◌+◌, ◌-◌, ◌*◌, ◌/◌, ◌%◌, ◌≤◌, ◌<◌, String, ◌≡◌, refl, sym, ap, ◌∙◌, subst, ◌≢◌, ◌↔◌,
  ◌⊎◌, inl, inr, Bool, true, false, not, ◌&&◌, ◌||◌, Option, none, some, List, [], ◌∷◌, ◌++◌, map,
  append-nil, append_assoc, arith, ltb, leb, ◌==◌, if◌then◌else◌, ==_iff, leb→le, Bool-cases,
  Option-cases, not-true, length, is_empty, take, drop, length-append, take_append, drop_append,
  any, all, All, All-append,
}
use chainctl.Result.{Result, ok, err, map_err, guard}
use chainctl.Exec.{Exec, pure, raise, lift, modify, ◌>>=◌, ◌>>◌}
use chainctl.Text.{Str, codes, str_eq, is_blank}
use chainctl.Dict.{Dict}
use chainctl.Helm.{note}
use chainctl.Logger.{Line, Entry}
use chainctl.Logger.Phases.{Emitter, log}
use chainctl.CommandLog.{workflow_start, workflow_success, workflow_failure, note_list}
use chainctl.Tokens.{
  Scope, scope_worker, scope_control_plane, Duration, CreateOptions, CreatedToken, Entropy,
}
use chainctl.Tokens
use chainctl.Tokens.MemoryStore.{MemoryStore, new_memory_store, create, consume}

pub record TokenCommandOptions : Type 0 where
  pub role : Str
  pub ttl : Str
  pub description : Str
  pub output : Str

pub record JoinCommandOptions : Type 0 where
  pub cluster_endpoint : Str
  pub role : Str
  pub token : Str
  pub labels : List Str
  pub taints : List Str
  pub output : Str

pub data Error : Type 0 where
  invalid_role invalid_ttl logger_unavailable unsupported_output : Error
  cluster_endpoint_required token_required : Error
  emitter_failed encode_failed : Str → Error
  create_failed consume_failed : Tokens.Error → Error

unfoldable pub parse_scope : Str → Result Error Scope
parse_scope raw =
    if str_eq raw (codes "worker")
    then ok scope_worker
    else if str_eq raw (codes "control-plane")
    then ok scope_control_plane
    else err invalid_role

-- What is written to the standard output: lines, or the fields of a JSON object.
pub data Field : Type 0 where
  text_field : Str → Field
  list_field : List Str → Field

pub data Output : Type 0 where
  text_output : List Str → Output
  json_output : Dict Field → Output

-- The interfaces `tokenStore` and `tokenConsumer`.
pub record Store (S : Type 0) : Type 0 where
  pub create_token : CreateOptions → S → Result Tokens.Error CreatedToken × S
  pub consume_token : Str → Scope → S → Option Tokens.Error × S

pub record World (S : Type 0) : Type 0 where
  pub lines : List Line
  pub store : S
  pub printed : List Output

-- `parse_duration` is time.ParseDuration, `ttl_text` the String of a duration, `format_time` the
-- time as RFC 3339, and `user` the variable USER.
pub record Host : Type 0 where
  pub text_of : Error → Str
  pub emitter : Result Str Emitter
  pub encode_error : Option Str
  pub parse_duration : Str → Option Duration
  pub ttl_text : Duration → Str
  pub format_time : ℕ → Str
  pub user : Str

unfoldable pub parse_ttl : Host → Str → Result Error Duration
parse_ttl host raw = elim (host.parse_duration raw) [ none ↦ err invalid_ttl | some d ↦ ok d ]

unfoldable pub token_metadata : Host → TokenCommandOptions → Scope → Duration → Dict Str
token_metadata host o scope ttl =
    note (codes "description") o.description
      ((codes "role", scope) ∷ (codes "ttl", host.ttl_text ttl) ∷ [])

unfoldable pub join_metadata : JoinCommandOptions → Scope → Dict Str
join_metadata o scope = note_list (codes "taints") o.taints (
    note_list (codes "labels") o.labels
      ((codes "cluster", o.cluster_endpoint) ∷ (codes "role", scope) ∷ []))

unfoldable pub token_payload : Host → CreatedToken → Dict Field
token_payload host created =
    (codes "token", text_field created.token)
    ∷ (codes "tokenID", text_field created.id)
    ∷ (codes "scope", text_field created.scope)
    ∷ (codes "expiresAt", text_field (host.format_time created.expires_at))
    ∷ (codes "description", text_field created.description)
    ∷ []

unfoldable pub token_text : Host → CreatedToken → List Str
token_text host created =
    (codes "Token: " ++ created.token)
    ∷ (codes "Expiry: " ++ host.format_time created.expires_at)
    ∷ (codes "Scope: " ++ created.scope)
    ∷ (if is_empty created.description
        then []
        else (codes "Description: " ++ created.description) ∷ [])

unfoldable pub join_payload : JoinCommandOptions → Scope → Dict Field
join_payload o scope =
    (codes "clusterEndpoint", text_field o.cluster_endpoint)
    ∷ (codes "role", text_field scope)
    ∷ (codes "labels", list_field o.labels)
    ∷ (codes "taints", list_field o.taints)
    ∷ (codes "status", text_field (codes "ready"))
    ∷ []

unfoldable pub join_text : JoinCommandOptions → Scope → List Str
join_text o scope =
    (codes "Validated token for role "
      ++ (scope ++ (codes " against cluster " ++ o.cluster_endpoint)))
    ∷ []

module _ {S : Type 0} (host : Host) (store : Store S) where
  abbrev pub Step : Type 0 → Type 0
  Step A = Exec Error (World S) A

  unfoldable pub log_entry : Emitter → Entry → Step (Unit {0})
  log_entry em entry = modify (λ w. record w { lines = log em entry w.lines })

  unfoldable pub print : Output → Step (Unit {0})
  print output = modify (λ w. record w { printed = w.printed ++ output ∷ [] })

  unfoldable pub init_telemetry : Step Emitter
  init_telemetry = do
    em ← lift (map_err emitter_failed host.emitter)
    lift (guard em.has_logger logger_unavailable)
    pure em

  -- The switch on the format, with what each format writes.
  encode_output : Option Str → Dict Field → Step (Unit {0})
  encode_output none payload = print (json_output payload)
  encode_output (some text) payload = raise (encode_failed text)

  unfoldable pub write_output : Str → List Str → Dict Field → Step (Unit {0})
  unfolding encode_output
  write_output format text payload =
      if str_eq format (codes "json")
      then encode_output host.encode_error payload
      else if str_eq format (codes "text")
      then print (text_output text)
      else raise unsupported_output

  -- The deferred function.
  unfoldable pub log_failure :
      Emitter
      → Str
      → Dict Str
      → Result Error (Unit {0}) × World S
      → Result Error (Unit {0}) × World S
  log_failure em step metadata (ok done, w) = (ok done, w)
  log_failure em step metadata (err e, w) =
      let entry = workflow_failure step metadata (host.text_of e) in
      (err e, record w { lines = log em entry w.lines })

  unfoldable pub create_step : CreateOptions → Step CreatedToken
  create_step opts w =
      let (created, after) = store.create_token opts w.store in
      (map_err create_failed created, record w { store = after })

  abbrev consumed : Option Tokens.Error → Result Error (Unit {0})
  consumed none = ok tt
  consumed (some e) = err (consume_failed e)

  unfoldable pub consume_step : Str → Scope → Step (Unit {0})
  consume_step token scope w =
      let (error, after) = store.consume_token token scope w.store in
      (consumed error, record w { store = after })

  -- What runs under the deferred function of each command.
  unfoldable pub issue_token : TokenCommandOptions → Emitter → Scope → Duration → Step (Unit {0})
  issue_token o em scope ttl = do
    created ←
        create_step
          (record { scope = scope; ttl = ttl; created_by = host.user; description = o.description })
    write_output o.output (token_text host created) (token_payload host created)
    log_entry em (workflow_success (codes "token-create") (token_metadata host o scope ttl))

  unfoldable pub run_token_create : TokenCommandOptions → Step (Unit {0})
  run_token_create o = do
    scope ← lift (parse_scope o.role)
    ttl ← lift (parse_ttl host o.ttl)
    em ← init_telemetry
    log_entry em (workflow_start (codes "token-create") (token_metadata host o scope ttl))
    λ w.
        log_failure em (codes "token-create") (token_metadata host o scope ttl)
          (issue_token o em scope ttl w)

  unfoldable pub admit_node : JoinCommandOptions → Emitter → Scope → Step (Unit {0})
  admit_node o em scope = do
    consume_step o.token scope
    write_output o.output (join_text o scope) (join_payload o scope)
    log_entry em (workflow_success (codes "node-join") (join_metadata o scope))

  unfoldable pub run_join : JoinCommandOptions → Step (Unit {0})
  run_join o = do
    lift (guard (not (is_blank o.cluster_endpoint)) cluster_endpoint_required)
    scope ← lift (parse_scope o.role)
    lift (guard (not (is_blank o.token)) token_required)
    em ← init_telemetry
    log_entry em (workflow_start (codes "node-join") (join_metadata o scope))
    λ w. log_failure em (codes "node-join") (join_metadata o scope) (admit_node o em scope w)

-- The store of a command without a cluster's configuration: `NewMemoryStore`, new in each process.
unfoldable pub memory_store : (Str → Str) → ℕ → Entropy → Store MemoryStore
memory_store sha256 now entropy = record {
  create_token = λ opts s. create sha256 opts now entropy s;
  consume_token = λ token scope s. consume sha256 token scope now s;
}
