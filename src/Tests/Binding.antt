-- ===== src/Tests/Binding.antt =====
-- The binding of a declarative configuration at a concrete input: a command with one flag of strings.
use chainctl.Prelude.{
  ◌≡◌, refl, sym, ap, subst, ◌∙◌, inl, inr, Bool, true, false, none, some, [], ◌∷◌, Bool-cases,
  if◌then◌else◌,
}
use chainctl.Result.{Result, ok, err}
use chainctl.Exec.{◌>>=◌}
use chainctl.Text.{
  Str, codes, str_eq, has_prefix, trim_left, trim_right, trim_space, is_blank, split, join,
}
use chainctl.Text.Laws.{str_eq_iff}
use chainctl.FilePath.{
  is_abs, up, push_segment, normalise, rev_append, parts, render, clean, join_path, abs,
}
use chainctl.Dict.{lookup}
use chainctl.Config.{ResolvedInvocation, FlagValue, string_value, command_source}
use chainctl.Config.Summary.{Writers}
use chainctl.CommandLog.{sprint}
use chainctl.Loader.{Catalog, RawProfile, raw_scalar, raw_string, flag_string}
use chainctl.Locator.{
  LocationResult, Env, to_absolute, found_at, resolve_candidate, locate_explicit, env_at,
  working_dir_at, locate_config, source_working_dir,
}
use chainctl.Binder.{Flag, Pflag, Error, World, Host, config_flag_name, resolve_config_location}
use chainctl.Binder.Run.{apply_declarative_config}
use chainctl.Binder.Keeping.{IsPflag}
use chainctl.Binder.Given.{apply_declarative_config_keeps_given}
use chainctl.Binder.Applied.{apply_declarative_config_sets}

abbrev sole_name : Str
sole_name = 110 ∷ 115 ∷ []

abbrev sole_flag : Bool → Flag
sole_flag changed = record { name = sole_name; kind = codes "string"; changed = changed }

-- The state is the text of the flag; the flag for the path reads as no text.
abbrev sole_pflag : Bool → Pflag Str
sole_pflag changed = record {
  visit_all = λ flags. sole_flag changed ∷ [];
  find = λ name flags. if str_eq name sole_name then some (sole_flag changed) else none;
  get_bool = λ name flags. err [];
  get_string = λ name flags. if str_eq name sole_name then ok flags else ok [];
  get_string_slice = λ name flags. err [];
  set_flag = λ name text flags. if str_eq name sole_name then (none, text) else (some [], flags);
}

found_sole :
    (changed : Bool) (name : Str) (flag : Flag) (flags : Str)
    → (sole_pflag changed).find name flags ≡ some flag
    → (name ≡ sole_name) × (flag ≡ sole_flag changed)
found_sole changed name flag flags h = elim (Bool-cases (str_eq name sole_name)) [
  | inl same ↦ ((str_eq_iff name sole_name).0 same, cc (rw same at h))
  | inr apart ↦ absurd (cc (rw apart at h))
]

sole_pflag-IsPflag : (changed : Bool) → IsPflag (sole_pflag changed)
unfolding str_eq
sole_pflag-IsPflag changed = record {
  reads_set = λ name was text flags h.
      let is = (found_sole changed name h.0.0 flags h.0.1).0 in
      rw is ((sole_flag changed, refl, refl), refl);
  set_other = λ name other text value flags apart h.
      let is = (found_sole changed name h.0.0 flags h.0.1).0 in rw (rw is at apart) h;
  visited = λ name flag flags h.
      let (named, is) = found_sole changed name flag flags h in
      (ap (λ (f : Flag). f.name) is ∙ sym named, inl (sym is));
  found = λ flag flags h. elim h [
    | inl is ↦ subst (λ (f : Flag). (sole_pflag changed).find f.name flags ≡ some f) is refl
    | inr none_left ↦ absurd none_left
  ];
}

abbrev in_work : Env
in_work = record {
  config_variable = none;
  xdg_config_home = [];
  home = none;
  wd = some (codes "/w");
  exists = λ path. true;
}

abbrev work_file : LocationResult
work_file = record { path = codes "/w/chainctl.yaml"; source = source_working_dir }

abbrev command_text : Str
command_text = 105 ∷ []

abbrev sole_profile : RawProfile
sole_profile = record {
  name = [];
  description = [];
  defaults = [];
  profiles = [];
  commands =
      (
        command_text,
        record {
          profiles = [];
          flags = (sole_name, raw_scalar (raw_string (120 ∷ []))) ∷ [];
          disabled = false;
        },
      )
      ∷ [];
}

abbrev sole_host : Host
sole_host = record {
  env = in_work;
  catalog = record {
    commands = (command_text, (sole_name, flag_string) ∷ []) ∷ [];
    index = [];
    order = command_text ∷ [];
  };
  read_raw_profile = λ path. ok sole_profile;
  writers = record { align = λ rows. ok []; encode = λ payload. ok [] };
}

abbrev before_binding : World Str
before_binding = record { flags = 121 ∷ []; resolved = none; printed = [] }

abbrev bound : Bool → Result Error (Unit {0}) × World Str
bound changed = apply_declarative_config (sole_pflag changed) sole_host command_text before_binding

apply_declarative_config_keeps_given_example :
    (sole_pflag true).get_string sole_name (bound true).1.flags ≡ ok (121 ∷ [])
unfolding str_eq codes
apply_declarative_config_keeps_given_example =
    apply_declarative_config_keeps_given (sole_pflag true) sole_host command_text (121 ∷ [])
      (sole_flag true) before_binding (sole_pflag-IsPflag true) refl
      (record { has_changed = refl; no_config = refl; of_strings = refl; is_read = refl })

abbrev sole_value : FlagValue
sole_value = record { value = string_value (120 ∷ []); source = command_source }

abbrev sole_invocation : ResolvedInvocation
sole_invocation = record {
  command_path = command_text;
  profiles = [];
  flags = (sole_name, sole_value) ∷ [];
  overrides = [];
  warnings = [];
  source_path = codes "/w/chainctl.yaml";
}

located_in_work :
    resolve_config_location (sole_pflag false) in_work (121 ∷ []) ≡ ok (some work_file)
unfolding resolve_config_location locate_config locate_explicit env_at working_dir_at
    resolve_candidate to_absolute found_at codes str_eq has_prefix join split is_abs clean join_path
    abs normalise parts push_segment render rev_append up is_blank trim_space trim_left trim_right
located_in_work = refl

binding_returns : ((bound false).0 ≡ ok tt) × ((bound false).1.resolved ≡ some sole_invocation)
unfolding ◌>>=◌ chainctl.Binder.should_skip_runtime_flag chainctl.Binder.format_resolved_flag_value
    chainctl.Binder.build_resolved_invocation chainctl.Binder.resolve_config_location
    chainctl.Binder.capture_flags chainctl.Binder.collect_runtime_overrides
    chainctl.Binder.determine_output_format chainctl.Binder.Run.set_step
    chainctl.Binder.Run.apply_found_flag chainctl.Binder.Run.apply_resolved_flag
    chainctl.Binder.Run.apply_resolved_flags chainctl.Binder.Run.store_resolved_invocation
    chainctl.Binder.Run.emit_invocation_summary chainctl.Binder.Run.apply_config
    chainctl.Binder.Run.apply_located chainctl.Binder.Run.apply_declarative_config
    chainctl.Loader.is_sensitive chainctl.Loader.coerce_value chainctl.Loader.expected_type
    chainctl.Loader.populate_profiles chainctl.Loader.populate_commands chainctl.Loader.load
    chainctl.Config.Resolver.validate_command_section
    chainctl.Config.Resolver.new_resolved_invocation chainctl.Config.Resolver.with_source
    chainctl.Config.Resolver.apply_flag chainctl.Config.Resolver.apply
    chainctl.Config.Resolver.apply_profile_sections
    chainctl.Config.Resolver.sanitize_runtime_overrides chainctl.Config.Resolver.resolve_section
    chainctl.Config.Resolver.resolve_invocation chainctl.Config.Summary.format_summary_text
    chainctl.Config.Summary.format_summary locate_config locate_explicit env_at working_dir_at
    resolve_candidate to_absolute str_eq join split is_abs clean join_path abs push_segment is_blank
    chainctl.Text.to_lower chainctl.Text.contains
binding_returns = (refl, refl)

apply_declarative_config_sets_example :
    (sole_pflag false).get_string sole_name (bound false).1.flags ≡ ok (sprint sole_value.value)
unfolding str_eq codes lookup
apply_declarative_config_sets_example =
    apply_declarative_config_sets (sole_pflag false) sole_host command_text sole_name (121 ∷ [])
      work_file before_binding (bound false).1 sole_invocation sole_value (sole_pflag-IsPflag false)
      refl ((sole_flag false, refl, refl), refl) located_in_work
      (ap (λ r. (r, (bound false).1)) binding_returns.0) binding_returns.1 refl
