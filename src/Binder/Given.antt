-- ===== src/Binder/Given.antt =====
-- `Manager.apply`: what becomes of a flag that the command line gives.
use chainctl.Prelude.{◌≡◌, subst, inl, none, some, []}
use chainctl.Result.{Result, ok, map_err, map_err-eq-ok, >>=-eq-ok}
use chainctl.Exec.{pure, bind_lift-elim, Keeps-bind}
use chainctl.Text.{Str}
use chainctl.Text.Laws.{str_eq_iff}
use chainctl.Dict.{lookup, Distinct}
use chainctl.Config.{FlagSet, ResolvedInvocation}
use chainctl.Config.Resolver.{with_source}
use chainctl.CommandLog.{sprint}
use chainctl.Config.Runtime.{IsOverridden, resolve_invocation-IsOverridden}
use chainctl.Loader.{load}
use chainctl.Locator.{LocationResult}
use chainctl.Binder.{
  profile_unreadable, not_loaded, not_resolved, resolve_config_location, Flag, Pflag, Error, World,
  Host, collect_runtime_overrides, build_resolved_invocation,
}
use chainctl.Binder.Captures.{given, IsGiven, capture_flags-Distinct, capture_flags-Captured}
use chainctl.Binder.Run.{apply_config, apply_located, apply_declarative_config}
use chainctl.Binder.Keeping.{
  IsPflag, Holds, Agrees, apply_resolved_flags-Keeps, emit_invocation_summary-Keeps, store-Keeps,
}

module _ {F : Type 0} (pflag : Pflag F) where
  pub build-IsOverridden :
      (host : Host) (path command_path : Str) (runtime : FlagSet) (r : ResolvedInvocation)
      → Distinct runtime
      → build_resolved_invocation host path command_path runtime ≡ ok r
      → IsOverridden runtime r
  unfolding build_resolved_invocation
  build-IsOverridden host path command_path runtime r d h =
      let (raw, _, h1) = >>=-eq-ok (map_err profile_unreadable (host.read_raw_profile path)) _ h in
      let (profile, _, h2) = >>=-eq-ok (map_err not_loaded (load host.catalog path raw)) _ h1 in
      resolve_invocation-IsOverridden profile command_path runtime r d
        (map_err-eq-ok not_resolved _ h2)

  resolved-Agrees :
      (name text : Str) (runtime : FlagSet) (r : ResolvedInvocation)
      → lookup name runtime ≡ some (given pflag text)
      → IsOverridden runtime r
      → Agrees pflag name text r.flags
  unfolding with_source sprint
  resolved-Agrees name text runtime r captured is v said =
      cc (is.overrides_win name (given pflag text) captured, said)

  apply_config-Holds :
      (name text command_path : Str) (flag : Flag) (host : Host) (location : LocationResult)
      (w : World F)
      → IsPflag pflag
      → pflag.find name w.flags ≡ some flag
      → IsGiven pflag flag text w.flags
      → Holds pflag name text (apply_config pflag host command_path location w).1
  unfolding apply_config collect_runtime_overrides
  apply_config-Holds name text command_path flag host location w laws found given' =
      let P : Result Error (Unit {0}) × World F → Type 0 = λ x. Holds pflag name text x.1 in
      let (named, visited) = laws.visited name flag w.flags found in
      let start : Holds pflag name text w = (
        (flag, found, given'.of_strings),
        subst (λ n. pflag.get_string n w.flags ≡ ok text) named given'.is_read,
      ) in
      bind_lift-elim P (collect_runtime_overrides pflag w.flags) _ w
        (λ runtime collected.
          bind_lift-elim P (build_resolved_invocation host location.path command_path runtime) _ w
            (λ r built.
              let captured =
                capture_flags-Captured pflag (pflag.visit_all w.flags) flag text w.flags [] runtime
                  given'
                  (λ x seen same.
                    cc (
                      laws.found x w.flags seen,
                      (str_eq_iff x.name flag.name).0 same,
                      named,
                      found,
                    ))
                  (inl visited) collected in
              let is =
                build-IsOverridden host location.path command_path runtime r
                  (capture_flags-Distinct pflag (pflag.visit_all w.flags) w.flags [] runtime tt
                    collected)
                  built in
              let agrees =
                resolved-Agrees name text runtime r
                  (subst (λ n. lookup n runtime ≡ some (given pflag text)) named captured) is in
              (Keeps-bind _ _
                  (apply_resolved_flags-Keeps pflag name text r.flags r laws is.flags_distinct
                    agrees)
                  λ applied.
                    Keeps-bind _ _ (store-Keeps pflag name text applied)
                      λ _. emit_invocation_summary-Keeps pflag name text host applied).at
                w start)
            (λ _ _. start))
        (λ _ _. start)

-- Whether the binding of a declarative configuration returns or fails, a flag of strings that the
-- command line gives, other than the one for the configuration's path, reads as before, if setting a
-- flag leaves the others and a visit lists what is found.
pub apply_declarative_config_keeps_given :
    {F : Type 0} (pflag : Pflag F) (host : Host) (command_path text : Str) (flag : Flag)
    (w : World F)
    → IsPflag pflag
    → pflag.find flag.name w.flags ≡ some flag
    → IsGiven pflag flag text w.flags
    → pflag.get_string flag.name (apply_declarative_config pflag host command_path w).1.flags
      ≡ ok text
unfolding apply_declarative_config apply_located pure
apply_declarative_config_keeps_given pflag host command_path text flag w laws found given' =
    (bind_lift-elim (λ x. Holds pflag flag.name text x.1)
      (resolve_config_location pflag host.env w.flags) _ w
      (λ located _.
        elim located
          as (λ m. Holds pflag flag.name text (apply_located pflag host command_path m w).1) [
            | none ↦ ((flag, found, given'.of_strings), given'.is_read)
            | some location ↦
                apply_config-Holds pflag flag.name text command_path flag host location w laws found
                  given'
          ])
      (λ _ _. ((flag, found, given'.of_strings), given'.is_read))).1
