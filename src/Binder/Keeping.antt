-- ===== src/Binder/Keeping.antt =====
-- The steps of `Manager.apply`: what each leaves of a flag of strings.
use chainctl.Prelude.{
  ◌≡◌, refl, inl, inr, true, false, Option, none, some, [], ◌∷◌, arith, Bool-cases, Option-cases,
}
use chainctl.Result.{ok, Result-cases}
use chainctl.Exec.{modify, ◌>>=◌, Keeps, Keeps-bind, Keeps-pure, Keeps-lift}
use chainctl.Text.{Str, codes, str_eq}
use chainctl.Text.Laws.{str_eq_iff}
use chainctl.Dict.{lookup, Distinct}
use chainctl.Config.{FlagSet, FlagValue, Value, ResolvedInvocation}
use chainctl.CommandLog.{sprint}
use chainctl.Config.Summary.{format_summary}
use chainctl.Binder.{
  determine_output_format, Flag, Pflag, World, Host, config_flag_name, format_resolved_flag_value,
}
use chainctl.Binder.Captures.{Visits}
use chainctl.Binder.Run.{
  set_step, apply_found_flag, apply_resolved_flag, apply_resolved_flags, store_resolved_invocation,
  emit_invocation_summary,
}

module _ {F : Type 0} (pflag : Pflag F) where
  -- A flag of strings is in place: it is found, has its type, and reads as the text.
  abbrev pub Reads : Str → Str → F → Type 0
  Reads name text flags =
      ((flag : Flag) × (pflag.find name flags ≡ some flag) × (flag.kind ≡ codes "string"))
      × (pflag.get_string name flags ≡ ok text)

  -- What pflag says of its flags of strings: what is set is what is read, and setting one flag
  -- leaves the others as they are; what VisitAll visits is what Lookup finds.
  pub record IsPflag : Type 0 where
    pub reads_set :
        (name was text : Str) (flags : F)
        → Reads name was flags
        → Reads name text (pflag.set_flag name text flags).1
    pub set_other :
        (name other text value : Str) (flags : F)
        → str_eq other name ≡ false
        → Reads name text flags
        → Reads name text (pflag.set_flag other value flags).1
    pub visited :
        (name : Str) (flag : Flag) (flags : F)
        → pflag.find name flags ≡ some flag
        → (flag.name ≡ name) × Visits flag (pflag.visit_all flags)
    pub found :
        (flag : Flag) (flags : F)
        → Visits flag (pflag.visit_all flags)
        → pflag.find flag.name flags ≡ some flag

  -- The flag keeps its text.
  abbrev pub Holds : Str → Str → World F → Type 0
  Holds name text w = Reads name text w.flags

  set_step-Keeps :
      (name text other value : Str)
      → IsPflag
      → str_eq other name ≡ false
      → Keeps (Holds name text) (set_step pflag other value)
  unfolding set_step
  set_step-Keeps name text other value laws apart = record {
    at = λ w h. laws.set_other name other text value w.flags apart h;
  }

  apply_found_flag-Keeps :
      (name text other : Str) (found : Option Flag) (value : FlagValue) (r : ResolvedInvocation)
      → IsPflag
      → str_eq other name ≡ false
      → Keeps (Holds name text) (apply_found_flag pflag found r other value)
  unfolding apply_found_flag
  apply_found_flag-Keeps name text other none value r laws apart = Keeps-pure _
  apply_found_flag-Keeps name text other (some flag) value r laws apart =
      Keeps-bind _ _ (Keeps-lift _)
        λ said. Keeps-bind _ _ (set_step-Keeps name text other said laws apart) λ _. Keeps-pure _

  string_formatted :
      (flag : Flag) (value : Value) (name text : Str)
      → flag.kind ≡ codes "string"
      → sprint value ≡ text
      → format_resolved_flag_value flag value name ≡ ok text
  unfolding format_resolved_flag_value codes str_eq sprint
  string_formatted flag value name text kind is = rw (kind, is) refl

  pub set_found_flag :
      (name was text : Str) (flag : Flag) (value : FlagValue) (r : ResolvedInvocation) (w : World F)
      → IsPflag
      → flag.kind ≡ codes "string"
      → sprint value.value ≡ text
      → Holds name was w
      → Holds name text (apply_found_flag pflag (some flag) r name value w).1
  unfolding apply_found_flag set_step ◌>>=◌
  set_found_flag name was text flag value r w laws kind is h =
      let set = laws.reads_set name was text w.flags h in
      rw (string_formatted flag value.value name text kind is)
        (elim (Option-cases (pflag.set_flag name text w.flags).0) [
          | inl done ↦ rw done set
          | inr (e, failed) ↦ rw failed set
        ])

  pub apply_resolved_flag-Keeps :
      (name text other : Str) (value : FlagValue) (r : ResolvedInvocation)
      → IsPflag
      → (str_eq other name ≡ true → sprint value.value ≡ text)
      → Keeps (Holds name text) (apply_resolved_flag pflag r other value)
  unfolding apply_resolved_flag
  apply_resolved_flag-Keeps name text other value r laws agrees = record {
    at = λ w h. elim (Bool-cases (str_eq other config_flag_name)) [
      | inl config ↦ rw config h
      | inr apart ↦ rw apart (elim (Bool-cases (str_eq other name)) [
        | inr different ↦
            (apply_found_flag-Keeps name text other (pflag.find other w.flags) value r laws
                different).at
              w h
        | inl same ↦
            let ((flag, found, kind), read) = h in
            let equal = (str_eq_iff other name).0 same in
            rw (equal, found)
              (set_found_flag name text text flag value r w laws kind (agrees same) h)
      ])
    ];
  }

  -- What a set of flags says of the flag is the text.
  abbrev pub Agrees : Str → Str → FlagSet → Type 0
  Agrees name text set = (v : FlagValue) → lookup name set ≡ some v → sprint v.value ≡ text

  pub apply_resolved_flags-Keeps :
      (name text : Str) (set : FlagSet) (r : ResolvedInvocation)
      → IsPflag
      → Distinct set
      → Agrees name text set
      → Keeps (Holds name text) (apply_resolved_flags pflag set r)
  unfolding apply_resolved_flags lookup
  apply_resolved_flags-Keeps name text [] r laws d agrees = Keeps-pure _
  apply_resolved_flags-Keeps name text ((other, value) ∷ rest) r laws d agrees =
      Keeps-bind _ _
        (apply_resolved_flag-Keeps name text other value r laws λ same. agrees value (rw same refl))
        λ next.
          apply_resolved_flags-Keeps name text rest next laws d.1
            λ v said. agrees v (ground (arith, said, d.0, str_eq_iff other name))

  pub emit_invocation_summary-Keeps :
      (name text : Str) (host : Host) (r : ResolvedInvocation)
      → Keeps (Holds name text) (emit_invocation_summary pflag host r)
  unfolding emit_invocation_summary
  emit_invocation_summary-Keeps name text host r = record {
    at = λ w h.
        elim (Result-cases
          (format_summary host.writers (some r) (determine_output_format pflag w.flags))) [
            | inl (summary, made) ↦ rw made h
            | inr (e, failed) ↦ rw failed h
          ];
  }

  pub store-Keeps :
      (name text : Str) (r : ResolvedInvocation)
      → Keeps (Holds name text) (store_resolved_invocation pflag r)
  unfolding store_resolved_invocation modify
  store-Keeps name text r = record { at = λ w h. h }
