-- ===== src/Binder/Captures.antt =====
-- `collectRuntimeOverrides`: what it captures of a flag of strings.
use chainctl.Prelude.{
  ◌≡◌, refl, ap, ◌∙◌, subst, ◌⊎◌, inl, inr, true, false, some, List, [], ◌∷◌, Bool-cases,
  if◌then◌else◌,
}
use chainctl.Result.{Result, ok, map_err, >>=-eq-ok}
use chainctl.Text.{Str, codes, str_eq}
use chainctl.Text.Laws.{str_eq_iff}
use chainctl.Dict.{lookup, insert, lookup-insert, lookup-insert_self, Distinct, insert-Distinct}
use chainctl.Config.{FlagSet, FlagValue, string_value, runtime_source}
use chainctl.Binder.{
  Flag, Pflag, Error, config_flag_name, should_skip_runtime_flag, read_runtime_flag_value,
  capture_runtime_flag, capture_flags, flag_unreadable,
}

-- The flag is one of those visited.
abbrev pub Visits : Flag → List Flag → Type 0
Visits flag [] = ⊥
Visits flag (x ∷ xs) = (x ≡ flag) ⊎ Visits flag xs

module _ {F : Type 0} (pflag : Pflag F) where
  -- One round of the visit.
  abbrev round : Flag → F → FlagSet → Result Error FlagSet
  round flag flags runtime =
      if should_skip_runtime_flag flag
      then ok runtime
      else capture_runtime_flag pflag flag flags runtime

  abbrev pub given : Str → FlagValue
  given text = record { value = string_value text; source = runtime_source }

  round-Distinct :
      (flag : Flag) (flags : F) (runtime out : FlagSet)
      → Distinct runtime
      → round flag flags runtime ≡ ok out
      → Distinct out
  unfolding capture_runtime_flag
  round-Distinct flag flags runtime out d h = elim (Bool-cases (should_skip_runtime_flag flag)) [
    | inl skipped ↦ subst Distinct {x = runtime} {y = out} (cc (rw skipped at h)) d
    | inr kept ↦
        let (value, _, made) =
          >>=-eq-ok (map_err flag_unreadable (read_runtime_flag_value pflag flag flags)) _
            (rw kept at h) in
        subst Distinct (cc made)
          (insert-Distinct flag.name (record { value = value; source = runtime_source }) runtime d)
  ]

  pub capture_flags-Distinct :
      (visits : List Flag) (flags : F) (runtime out : FlagSet)
      → Distinct runtime
      → capture_flags pflag visits flags runtime ≡ ok out
      → Distinct out
  unfolding capture_flags
  capture_flags-Distinct [] flags runtime out d h = subst Distinct {x = runtime} {y = out} (cc h) d
  capture_flags-Distinct (flag ∷ rest) flags runtime out d h =
      let (next, e, left) = >>=-eq-ok (round flag flags runtime) _ h in
      capture_flags-Distinct rest flags next out (round-Distinct flag flags runtime next d e) left

  -- A flag of strings that the command line gives, and the text that it reads as.
  pub record IsGiven (flag : Flag) (text : Str) (flags : F) : Type 0 where
    pub has_changed : flag.changed ≡ true
    pub no_config : str_eq flag.name config_flag_name ≡ false
    pub of_strings : flag.kind ≡ codes "string"
    pub is_read : pflag.get_string flag.name flags ≡ ok text

  abbrev Captured : Flag → Str → FlagSet → Type 0
  Captured flag text runtime = lookup flag.name runtime ≡ some (given text)

  not_skipped :
      (flag : Flag) (text : Str) (flags : F)
      → IsGiven flag text flags
      → should_skip_runtime_flag flag ≡ false
  unfolding should_skip_runtime_flag
  not_skipped flag text flags g = rw (g.has_changed, g.no_config) refl

  read_given :
      (flag : Flag) (text : Str) (flags : F)
      → IsGiven flag text flags
      → read_runtime_flag_value pflag flag flags ≡ ok (string_value text)
  unfolding read_runtime_flag_value codes str_eq
  read_given flag text flags g = rw (g.of_strings, g.is_read) refl

  round_captures :
      (flag : Flag) (text : Str) (flags : F) (runtime out : FlagSet)
      → IsGiven flag text flags
      → round flag flags runtime ≡ ok out
      → Captured flag text out
  unfolding capture_runtime_flag
  round_captures flag text flags runtime out g h =
      subst (Captured flag text) {x = insert flag.name (given text) runtime} {y = out}
        (cc (rw (not_skipped flag text flags g, read_given flag text flags g) at h))
        (lookup-insert_self flag.name (given text) runtime)

  round-Captured :
      (flag other : Flag) (text : Str) (flags : F) (runtime out : FlagSet)
      → str_eq other.name flag.name ≡ false
      → Captured flag text runtime
      → round other flags runtime ≡ ok out
      → Captured flag text out
  unfolding capture_runtime_flag
  round-Captured flag other text flags runtime out apart captured h =
      elim (Bool-cases (should_skip_runtime_flag other)) [
        | inl skipped ↦
            subst (Captured flag text) {x = runtime} {y = out} (cc (rw skipped at h)) captured
        | inr kept ↦
            let (value, _, made) =
              >>=-eq-ok (map_err flag_unreadable (read_runtime_flag_value pflag other flags)) _
                (rw kept at h) in
            let v : FlagValue = record { value = value; source = runtime_source } in
            subst (Captured flag text) {y = out} (cc made)
              (lookup-insert other.name flag.name v runtime ∙ rw apart captured)
      ]

  pub capture_flags-Captured :
      (visits : List Flag) (flag : Flag) (text : Str) (flags : F) (runtime out : FlagSet)
      → IsGiven flag text flags
      → ((x : Flag) → Visits x visits → str_eq x.name flag.name ≡ true → x ≡ flag)
      → Visits flag visits ⊎ Captured flag text runtime
      → capture_flags pflag visits flags runtime ≡ ok out
      → Captured flag text out
  unfolding capture_flags
  capture_flags-Captured [] flag text flags runtime out g one (inl visited) h = absurd visited
  capture_flags-Captured [] flag text flags runtime out g one (inr captured) h =
      subst (Captured flag text) {x = runtime} {y = out} (cc h) captured
  capture_flags-Captured (x ∷ rest) flag text flags runtime out g one seen h =
      let (next, e, left) = >>=-eq-ok (round x flags runtime) _ h in
      capture_flags-Captured rest flag text flags next out g (λ y visited. one y (inr visited))
        (elim (Bool-cases (str_eq x.name flag.name)) [
          | inl same ↦
              let is = one x (inl refl) same in
              inr (
                round_captures flag text flags runtime next g
                  (subst (λ y. round y flags runtime ≡ ok next) is e))
          | inr apart ↦ elim seen [
            | inr captured ↦ inr (round-Captured flag x text flags runtime next apart captured e)
            | inl (inr visited) ↦ inl visited
            | inl (inl is) ↦ absurd (
                cc (
                  apart,
                  ap (λ (y : Flag). str_eq y.name flag.name) is,
                  (str_eq_iff flag.name flag.name).1 refl,
                ))
          ]
        ])
        left
