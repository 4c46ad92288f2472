-- ===== src/Node/Joining.antt =====
-- `runJoin`: what becomes of the token, over any store and over the one that a command falls back
-- on.
use chainctl.Prelude.{
  ℕ, ◌≡◌, refl, ap, subst, ◌⊎◌, inl, inr, not, Option, none, some, List, Option-cases,
}
use chainctl.Result.{Result, ok, err, guard, Result-cases}
use chainctl.Exec.{
  modify, ◌>>=◌, bind_lift-elim, bind-elim, Keeps, Keeps-raise, Keeps-bind, keeps_rules,
}
use chainctl.Text.{Str, codes, is_blank}
use chainctl.Dict.{Dict, lookup}
use chainctl.Logger.{Entry}
use chainctl.Logger.Phases.{Emitter, log}
use chainctl.CommandLog.{workflow_start, workflow_success}
use chainctl.Tokens.{Scope, Entropy, split_token, token_not_found}
use chainctl.Tokens
use chainctl.Tokens.MemoryStore.{MemoryStore, new_memory_store, consume}
use chainctl.Node.{
  JoinCommandOptions, Error, Field, Output, Store, World, Host, parse_scope, join_metadata,
  join_payload, join_text, log_entry, print, init_telemetry, write_output, log_failure,
  consume_step, admit_node, run_join, memory_store, cluster_endpoint_required, token_required,
  consume_failed, encode_output,
}

module _ {S : Type 0} (host : Host) (store : Store S) where
  abbrev pub IsError : Result Error (Unit {0}) → Type 0
  IsError r = (e : Error) × (r ≡ err e)

  -- The store stays as it is.
  abbrev Held : S → World S → Type 0
  Held s w = w.store ≡ s

  log_entry-Keeps :
      (s : S) (em : Emitter) (entry : Entry) → Keeps (Held s) (log_entry host store em entry)
  unfolding log_entry modify
  log_entry-Keeps s em entry = record { at = λ w h. h }

  print-Keeps : (s : S) (output : Output) → Keeps (Held s) (print host store output)
  unfolding print modify
  print-Keeps s output = record { at = λ w h. h }

  encode_output-Keeps :
      (s : S) (error : Option Str) (payload : Dict Field)
      → Keeps (Held s) (encode_output host store error payload)
  unfolding encode_output
  encode_output-Keeps s none payload = print-Keeps s _
  encode_output-Keeps s (some text) payload = Keeps-raise _

  write_output-Keeps :
      (s : S) (format : Str) (text : List Str) (payload : Dict Field)
      → Keeps (Held s) (write_output host store format text payload)
  unfolding write_output
  write_output-Keeps s format text payload = search (keeps_rules, print-Keeps, encode_output-Keeps)

  -- The run fails and the store is as it was, or the store was asked for the token, with the scope
  -- of the role: it refuses it and the run fails, or it accepts it.
  abbrev pub Ends : JoinCommandOptions → S → Result Error (Unit {0}) × World S → Type 0
  Ends o before (r, after) =
      (IsError r × (after.store ≡ before))
      ⊎ ((scope : Scope) × (parse_scope o.role ≡ ok scope)
          × (after.store ≡ (store.consume_token o.token scope before).1)
          × ((IsError r
                × ((e : Tokens.Error) × ((store.consume_token o.token scope before).0 ≡ some e)))
              ⊎ ((store.consume_token o.token scope before).0 ≡ none)))

  log_failure-Ends :
      (o : JoinCommandOptions) (before : S) (em : Emitter) (metadata : Dict Str)
      (r : Result Error (Unit {0})) (w : World S)
      → Ends o before (r, w)
      → Ends o before (log_failure host store em (codes "node-join") metadata (r, w))
  unfolding log_failure
  log_failure-Ends o before em metadata (ok done) w h = h
  log_failure-Ends o before em metadata (err e) w h = h

  admit_node-Ends :
      (o : JoinCommandOptions) (em : Emitter) (scope : Scope) (w : World S)
      → parse_scope o.role ≡ ok scope
      → Ends o w.store (admit_node host store o em scope w)
  unfolding admit_node consume_step ◌>>=◌
  admit_node-Ends o em scope w parsed =
      let asked = store.consume_token o.token scope w.store in
      elim (Option-cases asked.0) [
        | inr (e, refused) ↦
            rw refused (inr (scope, parsed, refl, inl ((consume_failed e, refl), (e, refused))))
        | inl accepted ↦
            let reported =
              Keeps-bind
                (write_output host store o.output (join_text o scope) (join_payload o scope))
                (λ _.
                  log_entry host store em
                    (workflow_success (codes "node-join") (join_metadata o scope)))
                (write_output-Keeps asked.1 o.output (join_text o scope) (join_payload o scope))
                (λ _. log_entry-Keeps asked.1 em _) in
            rw accepted
              (inr (scope, parsed, reported.at (record w { store = asked.1 }) refl, inr accepted))
      ]

  init_telemetry-Keeps : (s : S) → Keeps (Held s) (init_telemetry host store)
  unfolding init_telemetry
  init_telemetry-Keeps s = search keeps_rules

  join-Ends : (o : JoinCommandOptions) (w : World S) → Ends o w.store (run_join host store o w)
  unfolding run_join log_entry modify ◌>>=◌
  join-Ends o w =
      let End = Ends o w.store in
      let started : World S → Emitter → Scope → World S = λ mid em scope. record mid {
        lines = log em (workflow_start (codes "node-join") (join_metadata o scope)) mid.lines;
      } in
      bind_lift-elim End (guard (not (is_blank o.cluster_endpoint)) cluster_endpoint_required) _ w
        (λ _ _.
          bind_lift-elim End (parse_scope o.role) _ w
            (λ scope parsed.
              bind_lift-elim End (guard (not (is_blank o.token)) token_required) _ w
                (λ _ _.
                  bind-elim End (init_telemetry host store) _ w
                    (λ em mid ran. log_failure-Ends o w.store em _ _ _ (
                      subst
                        (λ s. Ends o s (admit_node host store o em scope (started mid em scope)))
                        (subst (λ x. x.1.store ≡ w.store) ran
                          ((init_telemetry-Keeps w.store).at w refl))
                        (admit_node-Ends o em scope (started mid em scope) parsed)))
                    (λ e mid failed. inl (
                      (e, refl),
                      subst (λ x. x.1.store ≡ w.store) failed
                          ((init_telemetry-Keeps w.store).at w refl),
                    )))
                (λ e _. inl ((e, refl), refl)))
            (λ e _. inl ((e, refl), refl)))
        (λ e _. inl ((e, refl), refl))

-- A run of `node join` fails and leaves the store, or it asks the store once for the token, with the
-- scope of the role: where the store refuses the token the run fails, and where it accepts the token
-- the run leaves the store as that call did, whether the run returns or fails afterwards.
pub run_join-Ends :
    {S : Type 0} (host : Host) (store : Store S) (o : JoinCommandOptions) (w : World S)
    → Ends host store o w.store (run_join host store o w)
run_join-Ends host store o w = join-Ends host store o w

-- A store that was just made accepts no token.
new_memory_store-refuses :
    (sha256 : Str → Str) (token : Str) (scope : Scope) (now : ℕ)
    → (e : Tokens.Error) × ((consume sha256 token scope now new_memory_store).0 ≡ some e)
unfolding consume lookup
new_memory_store-refuses sha256 token scope now = elim (Result-cases (split_token token)) [
  | inl ((id, secret), parts) ↦ rw parts (token_not_found, refl)
  | inr (e, parts) ↦ rw parts (e, refl)
]

-- A join without a cluster's configuration asks a store that the process has just made, and so it
-- fails for every token, whatever was created before by another process.
pub run_join_without_cluster :
    (sha256 : Str → Str) (now : ℕ) (entropy : Entropy) (host : Host) (o : JoinCommandOptions)
    (w : World MemoryStore)
    → w.store ≡ new_memory_store
    → let (r, after) = run_join host (memory_store sha256 now entropy) o w in
      (e : Error) × (r ≡ err e)
unfolding memory_store
run_join_without_cluster sha256 now entropy host o w new =
    elim (run_join-Ends host (memory_store sha256 now entropy) o w) [
      | inl (failed, _) ↦ failed
      | inr (scope, _, _, inl (failed, _)) ↦ failed
      | inr (scope, _, _, inr accepted) ↦
          let (e, refused) = new_memory_store-refuses sha256 o.token scope now in
          absurd (cc (ap (λ s. (consume sha256 o.token scope now s).0) new, accepted, refused))
    ]
