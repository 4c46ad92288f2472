-- ===== src/Loader/Flags.antt =====
-- internal/config/loader.go: the flags that `buildFlagSet` admits.
use chainctl.Prelude.{
  ◌≡◌, refl, subst, inl, inr, Bool, true, false, not, some, [], ◌∷◌, arith, Bool-cases,
}
use chainctl.Result.{guard, >>=-eq-ok, ok}
use chainctl.Text.{Str, str_eq}
use chainctl.Text.Laws.{str_eq_iff}
use chainctl.Dict.{Dict, lookup, insert, lookup-insert}
use chainctl.Config.{FlagSet, FlagValue, Value, ValueSource, bool_value, string_value, list_value}
use chainctl.Loader.{
  FlagType, Catalog, Raw, is_sensitive, stringify, coerce_bool, stringify_all, coerce_string_slice,
  coerce_string, coerce_value, known, expected_type, build_flag, build_flags, build_flag_set,
  flag_string, flag_bool, flag_string_slice, raw_bool, raw_string, raw_printed, raw_other,
  raw_scalar, raw_list, secrets_disallowed, unknown_flag,
}

-- A value of the Go type that the flag's type asks for.
unfoldable pub fits : FlagType → Value → Bool
fits flag_bool (bool_value b) = true
fits flag_string (string_value s) = true
fits flag_string_slice (list_value items) = true
fits _ _ = false

-- A flag that the catalog knows, that holds no secret and whose value has the flag's type.
pub record IsAdmitted (c : Catalog) (command : Str) (source : ValueSource) (name : Str)
    (v : FlagValue) : Type 0 where
  pub type_of : FlagType
  pub is_known : expected_type c command name ≡ some type_of
  pub not_sensitive : is_sensitive name ≡ false
  pub value_fits : fits type_of v.value ≡ true
  pub from_source : v.source ≡ source

-- A set of such flags.
abbrev pub AreAdmitted : Catalog → Str → ValueSource → FlagSet → Type 0
AreAdmitted c command source set =
    (name : Str) (v : FlagValue) → lookup name set ≡ some v → IsAdmitted c command source name v

coerce_bool-fits :
    (name : Str) (raw : Raw) (value : Value)
    → coerce_bool name raw ≡ ok value
    → fits flag_bool value ≡ true
unfolding coerce_bool fits
coerce_bool-fits name (raw_scalar (raw_bool b)) value h = ground arith
coerce_bool-fits name (raw_scalar (raw_string s)) value h = ground arith
coerce_bool-fits name (raw_scalar (raw_printed s)) value h = cc
coerce_bool-fits name (raw_scalar raw_other) value h = cc
coerce_bool-fits name (raw_list items) value h = cc

coerce_string_slice-fits :
    (name : Str) (raw : Raw) (value : Value)
    → coerce_string_slice name raw ≡ ok value
    → fits flag_string_slice value ≡ true
unfolding coerce_string_slice fits
coerce_string_slice-fits name (raw_scalar (raw_bool b)) value h = cc
coerce_string_slice-fits name (raw_scalar (raw_string s)) value h = ground arith
coerce_string_slice-fits name (raw_scalar (raw_printed s)) value h = cc
coerce_string_slice-fits name (raw_scalar raw_other) value h = cc
coerce_string_slice-fits name (raw_list items) value h =
    let (out, e, made) = >>=-eq-ok (stringify_all name items) _ h in ground (arith, made)

coerce_string-fits :
    (name : Str) (raw : Raw) (value : Value)
    → coerce_string name raw ≡ ok value
    → fits flag_string value ≡ true
unfolding coerce_string fits
coerce_string-fits name (raw_scalar s) value h =
    let (out, e, made) = >>=-eq-ok (stringify name s) _ h in ground (arith, made)
coerce_string-fits name (raw_list items) value h = cc

coerce_value-fits :
    (name : Str) (raw : Raw) (type_of : FlagType) (value : Value)
    → coerce_value name raw type_of ≡ ok value
    → fits type_of value ≡ true
unfolding coerce_value
coerce_value-fits name raw flag_bool value h = coerce_bool-fits name raw value h
coerce_value-fits name raw flag_string_slice value h = coerce_string_slice-fits name raw value h
coerce_value-fits name raw flag_string value h = coerce_string-fits name raw value h

build_flag-IsAdmitted :
    (c : Catalog) (command name : Str) (source : ValueSource) (raw : Raw) (value : Value)
    → build_flag c command name raw ≡ ok value
    → IsAdmitted c command source name (record { value = value; source = source })
unfolding build_flag
build_flag-IsAdmitted c command name source raw value h =
    let (u, e₁, h₁) = >>=-eq-ok (guard (not (is_sensitive name)) (secrets_disallowed name)) _ h in
    let (type_of, e₂, h₂) =
      >>=-eq-ok (known (expected_type c command name) (unknown_flag name)) _ h₁ in
    record {
      type_of = type_of;
      is_known = ground (arith, e₂);
      not_sensitive = ground (arith, e₁);
      value_fits = coerce_value-fits name raw type_of value h₂;
      from_source = refl;
    }

build_flags-AreAdmitted :
    (c : Catalog) (command : Str) (source : ValueSource) (set : FlagSet) (entries : Dict Raw)
    (made : FlagSet)
    → AreAdmitted c command source set
    → build_flags c command source set entries ≡ ok made
    → AreAdmitted c command source made
unfolding build_flags
build_flags-AreAdmitted c command source set [] made admitted h =
    subst (AreAdmitted c command source) (cc h) admitted
build_flags-AreAdmitted c command source set ((name, raw) ∷ entries) made admitted h =
    let (value, e, h') = >>=-eq-ok (build_flag c command name raw) _ h in
    let v : FlagValue = record { value = value; source = source } in
    build_flags-AreAdmitted c command source (insert name v set) entries made
      (λ j w found. elim (Bool-cases (str_eq name j)) [
        | inl same ↦
            subst (λ w. IsAdmitted c command source j w)
              (ground (arith, lookup-insert name j v set, same))
              (subst (λ k. IsAdmitted c command source k v) ((str_eq_iff name j).0 same)
                (build_flag-IsAdmitted c command name source raw value e))
        | inr other ↦ admitted j w (ground (arith, lookup-insert name j v set, other))
      ])
      h'

pub build_flag_set-AreAdmitted :
    (c : Catalog) (entries : Dict Raw) (command : Str) (source : ValueSource) (made : FlagSet)
    → build_flag_set c entries command source ≡ ok made
    → AreAdmitted c command source made
unfolding lookup
build_flag_set-AreAdmitted c entries command source made h =
    build_flags-AreAdmitted c command source [] entries made (λ name v found. absurd (cc found)) h
