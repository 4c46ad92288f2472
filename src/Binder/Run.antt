-- ===== src/Binder/Run.antt =====
-- `Manager.apply`: the steps over the flags, the command's context and its standard error.
use chainctl.Prelude.{Option, none, some, [], ◌∷◌, ◌++◌, if◌then◌else◌}
use chainctl.Result.{Result, ok, err}
use chainctl.Text.{Str, codes, str_eq}
use chainctl.Config.{FlagSet, FlagValue, ResolvedInvocation}
use chainctl.Config.Summary.{Writers, format_summary}
use chainctl.Config.Summary
use chainctl.Locator.{LocationResult}
use chainctl.Exec.{Exec, pure, lift, modify, ◌>>=◌, ◌>>◌}
use chainctl.Binder.{
  Flag, Pflag, Error, World, Host, config_flag_name, format_resolved_flag_value,
  resolve_config_location, collect_runtime_overrides, build_resolved_invocation,
  determine_output_format, flag_not_applied, not_summarized,
}

unfoldable pub ignored_warning : Str → Str
ignored_warning name = codes "flag \"" ++ (name ++ codes "\" ignored (not recognised by command)")

abbrev set_result : Str → Option Str → Result Error (Unit {0})
set_result name none = ok tt
set_result name (some text) = err (flag_not_applied name text)

abbrev printed_summary : {F : Type 0} → Result Summary.Error Str → Exec Error (World F) (Unit {0})
printed_summary (ok text) w = (ok tt, record w { printed = w.printed ++ text ∷ [] })
printed_summary (err e) w = (err (not_summarized e), w)

module _ {F : Type 0} (pflag : Pflag F) where
  abbrev pub Step : Type 0 → Type 0
  Step A = Exec Error (World F) A

  unfoldable pub set_step : Str → Str → Step (Unit {0})
  set_step name text w =
      let (error, after) = pflag.set_flag name text w.flags in
      (set_result name error, record w { flags = after })

  -- The rest of `applyResolvedFlag`, by what Lookup returns: the invocation may gain a warning.
  unfoldable pub apply_found_flag :
      Option Flag → ResolvedInvocation → Str → FlagValue → Step ResolvedInvocation
  apply_found_flag none r name value =
      pure (record r { warnings = r.warnings ++ ignored_warning name ∷ [] })
  apply_found_flag (some flag) r name value = do
    text ← lift (format_resolved_flag_value flag value.value name)
    set_step name text
    pure r

  unfoldable pub apply_resolved_flag :
      ResolvedInvocation → Str → FlagValue → Step ResolvedInvocation
  apply_resolved_flag r name value w =
      if str_eq name config_flag_name
      then (ok r, w)
      else apply_found_flag (pflag.find name w.flags) r name value w

  unfoldable pub apply_resolved_flags : FlagSet → ResolvedInvocation → Step ResolvedInvocation
  apply_resolved_flags [] r = pure r
  apply_resolved_flags ((name, value) ∷ rest) r = do
    next ← apply_resolved_flag r name value
    apply_resolved_flags rest next

  unfoldable pub store_resolved_invocation : ResolvedInvocation → Step (Unit {0})
  store_resolved_invocation r = modify (λ w. record w { resolved = some r })

  unfoldable pub emit_invocation_summary : Host → ResolvedInvocation → Step (Unit {0})
  emit_invocation_summary host r w =
      printed_summary (format_summary host.writers (some r) (determine_output_format pflag w.flags))
        w

  -- The rest of `apply`, once the configuration is found.
  unfoldable pub apply_config : Host → Str → LocationResult → Step (Unit {0})
  apply_config host command_path location w =
      (do
        runtime ← lift (collect_runtime_overrides pflag w.flags)
        resolved ← lift (build_resolved_invocation host location.path command_path runtime)
        applied ← apply_resolved_flags resolved.flags resolved
        store_resolved_invocation applied
        emit_invocation_summary host applied)
        w

  unfoldable pub apply_located : Host → Str → Option LocationResult → Step (Unit {0})
  apply_located host command_path none = pure tt
  apply_located host command_path (some location) = apply_config host command_path location

  -- `Manager.apply` for the command at a path; a command's set of flags is never nil.
  unfoldable pub apply_declarative_config : Host → Str → Step (Unit {0})
  apply_declarative_config host command_path w =
      (lift (resolve_config_location pflag host.env w.flags) >>= apply_located host command_path) w
