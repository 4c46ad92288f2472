-- ===== src/Loader/Admission.antt =====
-- internal/config/loader.go: what a configuration that loads may hold.
use chainctl.Prelude.{◌≡◌, subst, inl, inr, true, some, [], ◌∷◌, arith, Bool-cases, all}
use chainctl.Result.{guard, >>=-eq-ok, ok}
use chainctl.Text.{Str, str_eq, trim_space, is_blank}
use chainctl.Text.Laws.{str_eq_iff}
use chainctl.Dict.{Dict, lookup, insert, lookup-insert}
use chainctl.Config.{
  FlagSet, ConfigurationProfile, CommandSection, default_source, profile_source, command_source,
}
use chainctl.Loader.{
  Catalog, Raw, RawCommandSection, RawProfile, is_command_supported, build_flag_set,
  populate_profiles, build_section, populate_command, populate_commands, load, unknown_command,
}
use chainctl.Loader.Flags.{AreAdmitted, build_flag_set-AreAdmitted}

-- What a map has at every key.
abbrev pub Everywhere : {V : Type 0} → (Str → V → Type 0) → Dict V → Type 0
Everywhere {V} P m = (k : Str) (v : V) → lookup k m ≡ some v → P k v

Everywhere-insert :
    {V : Type 0} (P : Str → V → Type 0) (k : Str) (v : V) (m : Dict V)
    → Everywhere P m
    → P k v
    → Everywhere P (insert k v m)
Everywhere-insert P k v m all here j w found = elim (Bool-cases (str_eq k j)) [
  | inl same ↦
      subst (λ w. P j w) (ground (arith, lookup-insert k j v m, same))
        (subst (λ i. P i v) ((str_eq_iff k j).0 same) here)
  | inr other ↦ all j w (ground (arith, lookup-insert k j v m, other))
]

populate_profiles-AreAdmitted :
    (c : Catalog) (made : Dict FlagSet) (raw : Dict (Dict Raw)) (out : Dict FlagSet)
    → Everywhere (λ _. AreAdmitted c [] profile_source) made
    → populate_profiles c made raw ≡ ok out
    → Everywhere (λ _. AreAdmitted c [] profile_source) out
unfolding populate_profiles
populate_profiles-AreAdmitted c made [] out all h =
    subst (Everywhere (λ _. AreAdmitted c [] profile_source)) (cc h) all
populate_profiles-AreAdmitted c made ((name, entries) ∷ rest) out all h =
    let (set, e, h') = >>=-eq-ok (build_flag_set c entries [] profile_source) _ h in
    populate_profiles-AreAdmitted c (insert name set made) rest out
      (Everywhere-insert (λ _. AreAdmitted c [] profile_source) name set made all
        (build_flag_set-AreAdmitted c entries [] profile_source set e))
      h'

-- A section of a command that the catalog knows, with admitted flags.
pub record IsSupported (c : Catalog) (path : Str) (s : CommandSection) : Type 0 where
  pub supported : is_command_supported c path ≡ true
  pub flags_admitted : AreAdmitted c path command_source s.flags

build_section-IsSupported :
    (c : Catalog) (path : Str) (section : RawCommandSection) (s : CommandSection)
    → build_section c path section ≡ ok s
    → IsSupported c path s
unfolding build_section
build_section-IsSupported c path section s h =
    let (u, e₁, h₁) = >>=-eq-ok (guard (is_command_supported c path) (unknown_command path)) _ h in
    let (set, e₂, h₂) = >>=-eq-ok (build_flag_set c section.flags path command_source) _ h₁ in
    record {
      supported = ground (arith, e₁);
      flags_admitted =
          subst (AreAdmitted c path command_source) (ground (arith, h₂))
            (build_flag_set-AreAdmitted c section.flags path command_source set e₂);
    }

populate_command-IsSupported :
    (c : Catalog) (made : Dict CommandSection) (command : Str) (section : RawCommandSection)
    (out : Dict CommandSection)
    → Everywhere (IsSupported c) made
    → populate_command c made command section ≡ ok out
    → Everywhere (IsSupported c) out
unfolding populate_command
populate_command-IsSupported c made command section out all h =
    elim (Bool-cases (is_blank command)) [
      | inl blank ↦ subst (Everywhere (IsSupported c)) (cc (rw blank at h)) all
      | inr given ↦
          let (s, e, h') =
            >>=-eq-ok (build_section c (trim_space command) section)
              (λ s. ok (insert (trim_space command) s made)) (rw given at h) in
          subst (Everywhere (IsSupported c)) (cc h') (
            Everywhere-insert (IsSupported c) (trim_space command) s made all
              (build_section-IsSupported c (trim_space command) section s e))
    ]

populate_commands-IsSupported :
    (c : Catalog) (made : Dict CommandSection) (raw : Dict RawCommandSection)
    (out : Dict CommandSection)
    → Everywhere (IsSupported c) made
    → populate_commands c made raw ≡ ok out
    → Everywhere (IsSupported c) out
unfolding populate_commands
populate_commands-IsSupported c made [] out all h = subst (Everywhere (IsSupported c)) (cc h) all
populate_commands-IsSupported c made ((command, section) ∷ rest) out all h =
    let (next, e, h') = >>=-eq-ok (populate_command c made command section) _ h in
    populate_commands-IsSupported c next rest out
      (populate_command-IsSupported c made command section next all e) h'

-- A configuration whose every flag holds no secret, is known to the catalog and has the type it
-- asks for, with the source of the place it stands in, and whose commands are supported.
pub record IsAdmissible (c : Catalog) (p : ConfigurationProfile) : Type 0 where
  pub defaults_admitted : AreAdmitted c [] default_source p.defaults
  pub profiles_admitted : Everywhere (λ _. AreAdmitted c [] profile_source) p.profiles
  pub commands_supported : Everywhere (IsSupported c) p.commands

-- A configuration that loads is admissible: no flag of its defaults, profiles and commands is
-- sensitive or unknown or has a value of another type than the catalog's, and every command is
-- supported.
pub load-IsAdmissible :
    (c : Catalog) (path : Str) (raw : RawProfile) (p : ConfigurationProfile)
    → load c path raw ≡ ok p
    → IsAdmissible c p
unfolding load lookup
load-IsAdmissible c path raw p h =
    let (defaults, e₁, h₁) = >>=-eq-ok (build_flag_set c raw.defaults [] default_source) _ h in
    let (profiles, e₂, h₂) = >>=-eq-ok (populate_profiles c [] raw.profiles) _ h₁ in
    let (commands, e₃, h₃) = >>=-eq-ok (populate_commands c [] raw.commands) _ h₂ in
    let made : ConfigurationProfile = record {
      metadata = record { name = raw.name; description = raw.description };
      defaults = defaults;
      profiles = profiles;
      commands = commands;
      source_path = path;
    } in
    subst (IsAdmissible c) {x = made} (cc h₃) (record {
      defaults_admitted = build_flag_set-AreAdmitted c raw.defaults [] default_source defaults e₁;
      profiles_admitted =
          populate_profiles-AreAdmitted c [] raw.profiles profiles (λ k v found. absurd (cc found))
            e₂;
      commands_supported =
          populate_commands-IsSupported c [] raw.commands commands (λ k v found. absurd (cc found))
            e₃;
    })
