-- ===== src/Binder/Applied.antt =====
-- `Manager.apply`: the flags that it sets where it returns.
use chainctl.Prelude.{
  ◌≡◌, refl, sym, ap, ◌∙◌, subst, inl, inr, false, Option, none, some, [], ◌∷◌, Bool-cases,
}
use chainctl.Result.{Result, ok, Result-cases}
use chainctl.Exec.{modify, lift, pure, ◌>>=◌, exec-eq-ok, bind-elim, bind_lift-elim, Keeps}
use chainctl.Text.{Str, str_eq}
use chainctl.Text.Laws.{str_eq_iff}
use chainctl.Dict.{lookup, Distinct}
use chainctl.Config.{FlagSet, FlagValue, ResolvedInvocation}
use chainctl.Config.Summary.{format_summary}
use chainctl.CommandLog.{sprint}
use chainctl.Locator.{LocationResult}
use chainctl.Binder.{
  Flag, Pflag, Error, World, Host, config_flag_name, resolve_config_location,
  determine_output_format, format_resolved_flag_value, collect_runtime_overrides,
  build_resolved_invocation,
}
use chainctl.Binder.Run.{
  set_step, apply_found_flag, apply_resolved_flag, apply_resolved_flags, store_resolved_invocation,
  emit_invocation_summary, apply_config, apply_located, apply_declarative_config,
}
use chainctl.Binder.Captures.{capture_flags-Distinct}
use chainctl.Binder.Given.{build-IsOverridden}
use chainctl.Binder.Keeping.{
  Reads, Holds, IsPflag, set_found_flag, apply_resolved_flag-Keeps, apply_resolved_flags-Keeps,
  store-Keeps, emit_invocation_summary-Keeps,
}

module _ {F : Type 0} (pflag : Pflag F) where
  apply_resolved_flag_sets :
      (name was : Str) (value : FlagValue) (r : ResolvedInvocation) (w : World F)
      → IsPflag pflag
      → str_eq name config_flag_name ≡ false
      → Holds pflag name was w
      → Holds pflag name (sprint value.value) (apply_resolved_flag pflag r name value w).1
  unfolding apply_resolved_flag
  apply_resolved_flag_sets name was value r w laws apart h =
      let ((flag, found, kind), read) = h in
      rw (apart, found)
        (set_found_flag pflag name was (sprint value.value) flag value r w laws kind refl h)

  apply_resolved_flags_sets :
      (name was : Str) (v : FlagValue) (set : FlagSet) (r out : ResolvedInvocation)
      (w after : World F)
      → IsPflag pflag
      → Distinct set
      → str_eq name config_flag_name ≡ false
      → Holds pflag name was w
      → lookup name set ≡ some v
      → apply_resolved_flags pflag set r w ≡ (ok out, after)
      → Holds pflag name (sprint v.value) after
  unfolding apply_resolved_flags lookup
  apply_resolved_flags_sets name was v [] r out w after laws d apart h said ran = absurd (cc said)
  apply_resolved_flags_sets name was v ((other, value) ∷ rest) r out w after laws d apart h said
        ran =
      let (next, mid, first, left) = exec-eq-ok (apply_resolved_flag pflag r other value) _ w ran in
      elim (Bool-cases (str_eq other name)) [
        | inr different ↦
            apply_resolved_flags_sets name was v rest next out mid after laws d.1 apart
              (subst (λ x. Holds pflag name was x.1) first
                ((apply_resolved_flag-Keeps pflag name was other value r laws
                    (λ same. absurd (cc (same, different)))).at
                  w h))
              (rw different at said) left
        | inl same ↦
            let is = (str_eq_iff other name).0 same in
            let set_now : Holds pflag name (sprint v.value) mid =
              subst (λ (u : FlagValue). Holds pflag name (sprint u.value) mid) {x = value} {y = v}
                (cc (rw same at said))
                (subst (λ x. Holds pflag name (sprint value.value) x.1) first
                  (subst
                    (λ n.
                      Holds pflag name (sprint value.value)
                        (apply_resolved_flag pflag r n value w).1)
                    (sym is) (apply_resolved_flag_sets name was value r w laws apart h))) in
            subst (λ x. Holds pflag name (sprint v.value) x.1) left
              ((apply_resolved_flags-Keeps pflag name (sprint v.value) rest next laws d.1
                  (λ u told. absurd (cc (told, d.0, ap (λ n. lookup n rest) is)))).at
                mid set_now)
      ]

  -- The invocation that is returned has the flags of the one that is given.
  abbrev SameFlags : ResolvedInvocation → Result Error ResolvedInvocation × World F → Type 0
  SameFlags r (out, after) = (x : ResolvedInvocation) → out ≡ ok x → x.flags ≡ r.flags

  apply_found_flag-SameFlags :
      (found : Option Flag) (r : ResolvedInvocation) (name : Str) (value : FlagValue) (w : World F)
      → SameFlags r (apply_found_flag pflag found r name value w)
  unfolding apply_found_flag pure
  apply_found_flag-SameFlags none r name value w = λ x h. cc h
  apply_found_flag-SameFlags (some flag) r name value w =
      bind_lift-elim (SameFlags r) (format_resolved_flag_value flag value.value name) _ w
        (λ text _.
          bind-elim (SameFlags r) (set_step pflag name text) _ w (λ _ mid _ x h. cc h)
            (λ e mid _ x h. absurd (cc h)))
        (λ e _ x h. absurd (cc h))

  apply_resolved_flag-SameFlags :
      (r : ResolvedInvocation) (name : Str) (value : FlagValue) (w : World F)
      → SameFlags r (apply_resolved_flag pflag r name value w)
  unfolding apply_resolved_flag
  apply_resolved_flag-SameFlags r name value w = elim (Bool-cases (str_eq name config_flag_name)) [
    | inl config ↦ rw config (λ x h. cc h)
    | inr other ↦ rw other (apply_found_flag-SameFlags (pflag.find name w.flags) r name value w)
  ]

  apply_resolved_flags-SameFlags :
      (set : FlagSet) (r : ResolvedInvocation) (w : World F)
      → SameFlags r (apply_resolved_flags pflag set r w)
  unfolding apply_resolved_flags pure
  apply_resolved_flags-SameFlags [] r w = λ x h. cc h
  apply_resolved_flags-SameFlags ((name, value) ∷ rest) r w =
      bind-elim (SameFlags r) (apply_resolved_flag pflag r name value) _ w
        (λ next mid ran x h.
          apply_resolved_flags-SameFlags rest next mid x h
          ∙ apply_resolved_flag-SameFlags r name value w next (ap (λ y. y.0) ran))
        (λ e mid _ x h. absurd (cc h))

  abbrev Stored : ResolvedInvocation → World F → Type 0
  Stored r w = w.resolved ≡ some r

  emit_invocation_summary-Stored :
      (r : ResolvedInvocation) (host : Host) (shown : ResolvedInvocation)
      → Keeps (Stored r) (emit_invocation_summary pflag host shown)
  unfolding emit_invocation_summary
  emit_invocation_summary-Stored r host shown = record {
    at = λ w h.
        elim (Result-cases
          (format_summary host.writers (some shown) (determine_output_format pflag w.flags))) [
            | inl (summary, made) ↦ rw made h
            | inr (e, failed) ↦ rw failed h
          ];
  }

  apply_config_sets :
      (host : Host) (command_path name was : Str) (location : LocationResult) (w after : World F)
      (r : ResolvedInvocation) (v : FlagValue)
      → IsPflag pflag
      → str_eq name config_flag_name ≡ false
      → Holds pflag name was w
      → apply_config pflag host command_path location w ≡ (ok tt, after)
      → after.resolved ≡ some r
      → lookup name r.flags ≡ some v
      → Holds pflag name (sprint v.value) after
  unfolding apply_config collect_runtime_overrides lift store_resolved_invocation modify
  apply_config_sets host command_path name was location w after r v laws apart h ran stored said =
      let (runtime, m1, e1, h1) =
        exec-eq-ok (lift (collect_runtime_overrides pflag w.flags)) _ w ran in
      let (resolved, m2, e2, h2) =
        exec-eq-ok (lift (build_resolved_invocation host location.path command_path runtime)) _ m1
          h1 in
      let (applied, m3, e3, h3) =
        exec-eq-ok (apply_resolved_flags pflag resolved.flags resolved) _ m2 h2 in
      let (done, m4, e4, h4) = exec-eq-ok (store_resolved_invocation pflag applied) _ m3 h3 in
      let is =
        build-IsOverridden pflag host location.path command_path runtime resolved
          (capture_flags-Distinct pflag (pflag.visit_all w.flags) w.flags [] runtime tt
            (ap (λ x. x.0) e1))
          (ap (λ x. x.0) e2) in
      let before =
        subst (Holds pflag name was) {x = w} {y = m2} (ap (λ x. x.1) e1 ∙ ap (λ x. x.1) e2) h in
      let kept =
        (emit_invocation_summary-Stored applied host applied).at m4
          (sym (ap (λ x. x.1.resolved) e4)) in
      let applied_said : lookup name resolved.flags ≡ some v = cc (
        said,
        stored,
        subst (λ x. x.1.resolved ≡ some applied) h4 kept,
        apply_resolved_flags-SameFlags resolved.flags resolved m2 applied (ap (λ x. x.0) e3),
      ) in
      let set_now =
        apply_resolved_flags_sets name was v resolved.flags resolved applied m2 m3 laws
          is.flags_distinct apart before applied_said e3 in
      subst (λ x. Holds pflag name (sprint v.value) x.1) h4
        ((emit_invocation_summary-Keeps pflag name (sprint v.value) host applied).at m4 (
          subst (λ x. Holds pflag name (sprint v.value) x.1) e4
            ((store-Keeps pflag name (sprint v.value) applied).at m3 set_now)))

-- Where the binding of a declarative configuration returns with a configuration found, every flag of
-- strings of the command, other than the one for the configuration's path, that the stored
-- invocation has reads as the text of its value there, if setting a flag leaves the others.
pub apply_declarative_config_sets :
    {F : Type 0} (pflag : Pflag F) (host : Host) (command_path name was : Str)
    (location : LocationResult) (w after : World F) (r : ResolvedInvocation) (v : FlagValue)
    → IsPflag pflag
    → str_eq name config_flag_name ≡ false
    → Reads pflag name was w.flags
    → resolve_config_location pflag host.env w.flags ≡ ok (some location)
    → apply_declarative_config pflag host command_path w ≡ (ok tt, after)
    → after.resolved ≡ some r
    → lookup name r.flags ≡ some v
    → pflag.get_string name after.flags ≡ ok (sprint v.value)
unfolding apply_declarative_config apply_located ◌>>=◌
apply_declarative_config_sets pflag host command_path name was location w after r v laws apart reads
      located ran stored said =
    (apply_config_sets pflag host command_path name was location w after r v laws apart reads
      (rw located at ran) stored said).1
