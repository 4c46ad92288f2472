-- ===== src/Bootstrap/Commands.antt =====
-- pkg/bootstrap/bootstrap.go: which commands the orchestrator runs.
use chainctl.Prelude.{
  ℕ, zero, suc, ◌≡◌, refl, sym, ◌∙◌, ◌≢◌, ◌↔◌, ◌⊎◌, inl, inr, true, false, none, some, List, [],
  ◌∷◌, ◌++◌, append_assoc, Bool-cases, Option-cases, is_empty,
}
use chainctl.Text.{Str, contains}
use chainctl.Text.Laws.{contains-append}
use chainctl.Profile.{Profile, Mode, bootstrap, reuse}
use chainctl.Dict.{Dict}
use chainctl.Logger.{Entry}
use chainctl.Bootstrap.{
  Error, ExitCode, CommandResult, Host, path_command, url_command, Run, Wait, run_and_wait,
  bootstrap_cluster, reported_code, run_error, start_entry, complete_entry, run_logged,
  checksum_missing, invalid_path, source_missing, code, below_zero, exit_zero,
}

holds_middle : (l s r : Str) → contains (l ++ (s ++ r)) s ≡ true
holds_middle l s r = rw (← append_assoc l s r) (contains-append l s r)

path_command-contains : (sha path : Str) → contains (path_command sha path) sha ≡ true
unfolding path_command
path_command-contains sha path = holds_middle _ sha _

url_command-contains : (sha url : Str) → contains (url_command sha url) sha ≡ true
unfolding url_command
url_command-contains sha url = holds_middle _ sha _

Mode-cases : (m : Mode) → (m ≡ bootstrap) ⊎ (m ≡ reuse)
Mode-cases bootstrap = inl refl
Mode-cases reuse = inr refl

exit_cases :
    (c : ExitCode) → ((exit_zero c ≡ true) × (c ≡ code 0)) ⊎ ((exit_zero c ≡ false) × (c ≢ code 0))
exit_cases (code zero) = inl (refl, refl)
exit_cases (code (suc n)) = inr (refl, λ h. absurd (cc h))
exit_cases (below_zero n) = inr (refl, λ h. absurd (cc h))

run_error-none_iff :
    (r : CommandResult) → (run_error r ≡ none) ↔ ((r.failure ≡ none) × (r.exit_code ≡ code 0))
unfolding run_error reported_code
run_error-none_iff r = elim (Option-cases r.failure) [
  | inr (text, failed) ↦ (λ h. absurd (cc (rw failed at h)), λ h. absurd (cc (sym failed ∙ h.0)))
  | inl fine ↦ elim (exit_cases r.exit_code) [
    | inl (zero_code, is_zero) ↦ (λ h. (fine, is_zero), λ h. rw (fine, zero_code) refl)
    | inr (other, apart) ↦ (λ h. absurd (cc (rw (fine, other) at h)), λ h. absurd (apart h.1))
  ]
]

-- The orchestrator either does nothing without an error, in reuse mode, or does nothing and returns
-- an error, or it runs one script in the shell and waits; then the environment gives a checksum that
-- is not empty, and the script's text holds it.
pub bootstrap_cluster-runs :
    {World : Type 0} (host : Host) (run : Run World) (wait : Wait World) (p : Profile) (w : World)
    → ((bootstrap_cluster host run wait p w ≡ (none, w)) × (p.mode ≡ reuse))
      ⊎ (((e : Error) × (bootstrap_cluster host run wait p w ≡ (some e, w)))
          ⊎ ((script : Str) × (is_empty host.install_sha256 ≡ false)
              × (contains script host.install_sha256 ≡ true)
              × (bootstrap_cluster host run wait p w ≡ run_and_wait run wait script p w)))
unfolding bootstrap_cluster
bootstrap_cluster-runs host run wait p w = elim (Mode-cases p.mode) [
  | inr reusing ↦ inl (rw reusing refl, reusing)
  | inl fresh ↦ elim (Bool-cases (is_empty host.install_sha256)) [
    | inl missing ↦ inr (inl (checksum_missing, rw (fresh, missing) refl))
    | inr given ↦ elim (Bool-cases (is_empty host.install_path)) [
      | inr located ↦ elim (Bool-cases (host.exists host.install_path)) [
        | inl there ↦ inr (
            inr (
              path_command host.install_sha256 host.install_path,
              given,
              path_command-contains host.install_sha256 host.install_path,
              rw (fresh, given, located, there) refl,
            ))
        | inr absent ↦ inr (inl (invalid_path, rw (fresh, given, located, absent) refl))
      ]
      | inl no_path ↦ elim (Bool-cases (is_empty host.install_url)) [
        | inl no_url ↦ inr (inl (source_missing, rw (fresh, given, no_path, no_url) refl))
        | inr url ↦ inr (
            inr (
              url_command host.install_sha256 host.install_url,
              given,
              url_command-contains host.install_sha256 host.install_url,
              rw (fresh, given, no_path, url) refl,
            ))
      ]
    ]
  ]
]

-- A command that is logged starts and completes with one entry each, in this order, behind what was
-- logged before, and returns no error exactly if its result has none and the exit code 0.
pub run_logged-error_iff :
    (itoa : ExitCode → Str) (limit : ℕ) (exec : List Str → Dict Str → CommandResult)
    (cmd : List Str) (env : Dict Str) (log : List Entry)
    → let ran = run_logged itoa limit exec cmd env log in
      ((ran.0 ≡ none) ↔ (((exec cmd env).failure ≡ none) × ((exec cmd env).exit_code ≡ code 0)))
      × (ran.1 ≡ log ++ start_entry cmd env ∷ complete_entry itoa limit cmd env (exec cmd env) ∷ [])
unfolding run_logged
run_logged-error_iff itoa limit exec cmd env log = (run_error-none_iff (exec cmd env), refl)
