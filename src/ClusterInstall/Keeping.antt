-- ===== src/ClusterInstall/Keeping.antt =====
-- The steps of `runInstall` that bootstrap and install nothing.
use chainctl.Prelude.{◌≡◌, Bool, Option, none, some, List}
use chainctl.Result.{Result}
use chainctl.Exec.{modify, Keeps, Keeps-pure, Keeps-raise, keeps_rules}
use chainctl.Text.{Str}
use chainctl.Dict.{Dict}
use chainctl.Config.{ResolvedInvocation}
use chainctl.Profile.{Profile}
use chainctl.Bundle.{Bundle}
use chainctl.Logger.{Entry}
use chainctl.Logger.Phases.{Emitter}
use chainctl.App.World.{Output}
use chainctl.ClusterInstall.{InstallOptions}
use chainctl.ClusterInstall.World.{World, Host}
use chainctl.ClusterInstall.Run.{
  log_entry, print, emit_telemetry, init_install_telemetry, encode_output, emit_output, log_unless,
  handle_install_dry_run,
}

-- The calls of a state, which the steps around the phases keep.
abbrev pub Held : List Profile → List (Profile × Option Bundle) → World → Type 0
Held bootstraps installs w = (w.bootstraps ≡ bootstraps) × (w.installs ≡ installs)

module _ (bootstraps : List Profile) (installs : List (Profile × Option Bundle)) where
  pub log_entry-Keeps :
      (em : Emitter) (entry : Entry) → Keeps (Held bootstraps installs) (log_entry em entry)
  unfolding log_entry modify
  log_entry-Keeps em entry = record { at = λ w h. h }

  pub print-Keeps : (output : Output) → Keeps (Held bootstraps installs) (print output)
  unfolding print modify
  print-Keeps output = record { at = λ w h. h }

  pub encode_output-Keeps :
      (error : Option Str) (payload : Dict Str)
      → Keeps (Held bootstraps installs) (encode_output error payload)
  unfolding encode_output
  encode_output-Keeps none payload = print-Keeps _
  encode_output-Keeps (some text) payload = Keeps-raise _

  pub emit_output-Keeps :
      (host : Host) (p : Profile) (b : Option Bundle) (dry_run : Bool) (format : Str)
      → Keeps (Held bootstraps installs) (emit_output host p b dry_run format)
  unfolding emit_output
  emit_output-Keeps host p b dry_run format = search (keeps_rules, print-Keeps, encode_output-Keeps)

  pub log_unless-Keeps :
      (silent : Bool) (em : Emitter) (entry : Entry)
      → Keeps (Held bootstraps installs) (log_unless silent em entry)
  unfolding log_unless
  log_unless-Keeps silent em entry = search (keeps_rules, log_entry-Keeps)

  pub emit_telemetry-Keeps :
      (em : Emitter) (invocation : Option ResolvedInvocation)
      → Keeps (Held bootstraps installs) (emit_telemetry em invocation)
  unfolding emit_telemetry
  emit_telemetry-Keeps em none = Keeps-pure _
  emit_telemetry-Keeps em (some resolved) = log_entry-Keeps em _

  pub init_install_telemetry-Keeps :
      (host : Host) (made : Result Str Emitter)
      → Keeps (Held bootstraps installs) (init_install_telemetry host made)
  unfolding init_install_telemetry
  init_install_telemetry-Keeps host made = search (keeps_rules, emit_telemetry-Keeps)

  pub handle_install_dry_run-Keeps :
      (host : Host) (em : Emitter) (p : Profile) (b : Option Bundle) (o : InstallOptions)
      (m n : Bool)
      → Keeps (Held bootstraps installs) (handle_install_dry_run host em p b o m n)
  unfolding handle_install_dry_run
  handle_install_dry_run-Keeps host em p b o m n =
      search (keeps_rules, log_entry-Keeps, log_unless-Keeps, emit_output-Keeps)
