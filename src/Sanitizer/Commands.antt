-- ===== src/Sanitizer/Commands.antt =====
-- What `SanitizeCommand` and `SanitizeEnv` hide.
use chainctl.Prelude.{
  ℕ, ◌≡◌, refl, sym, ap, ◌∙◌, ◌≢◌, inl, inr, true, false, not, ◌&&◌, none, some, List, [], ◌∷◌,
  ◌++◌, arith, ◌==◌, if◌then◌else◌, Bool-cases, Option-cases, any,
}
use chainctl.Text.{Str, codes, str_eq, to_lower, cut, join}
use chainctl.Text.Laws.{str_eq_iff, Without, cut-append}
use chainctl.Dict.{Dict, lookup}
use chainctl.Sanitizer.{
  sanitize_step, Transform, redaction_placeholder, allowlisted_env_keys, is_sensitive_flag,
  is_sensitive_key, next_for_set_style_flag, sanitize_inline_assignment, sanitize_args,
  sanitize_command, sanitize_env, no_transform, redact_transform,
}

-- `nextTransform` behind the arguments.
unfoldable pub pending : Transform → List Str → Transform
pending t [] = t
pending t (arg ∷ args) = pending (sanitize_step t arg).1 args

-- What the loop appends for the arguments.
unfoldable pub sanitized : Transform → List Str → List Str
sanitized t [] = []
sanitized t (arg ∷ args) = (sanitize_step t arg).0 ∷ sanitized (sanitize_step t arg).1 args

pub sanitize_args-cons :
    (t : Transform) (arg : Str) (args : List Str)
    → sanitize_args t (arg ∷ args)
      ≡ (sanitize_step t arg).0 ∷ sanitize_args (sanitize_step t arg).1 args
unfolding sanitize_args
sanitize_args-cons no_transform arg args = refl
sanitize_args-cons _ arg args = refl

pub sanitize_args-append :
    (t : Transform) (pre post : List Str)
    → sanitize_args t (pre ++ post) ≡ sanitized t pre ++ sanitize_args (pending t pre) post
unfolding sanitized pending
sanitize_args-append t [] post = refl
sanitize_args-append t (arg ∷ pre) post =
    rw sanitize_args-cons
      (ap (◌∷◌ (sanitize_step t arg).0) (sanitize_args-append (sanitize_step t arg).1 pre post))

-- A flag that asks for the next argument to be redacted.
pub record IsSecretFlag (flag : Str) : Type 0 where
  pub not_set_style : next_for_set_style_flag (to_lower flag) ≡ false
  pub no_assignment : cut b'=' flag ≡ none
  pub sensitive : is_sensitive_flag flag ≡ true

pub step-IsSecretFlag :
    (flag : Str) → IsSecretFlag flag → sanitize_step no_transform flag ≡ (flag, redact_transform)
unfolding sanitize_step sanitize_inline_assignment
step-IsSecretFlag flag f = rw (f.not_set_style, f.no_assignment, f.sensitive) refl

pub sanitize_args_secret :
    (flag secret : Str) (post : List Str)
    → IsSecretFlag flag
    → sanitize_args no_transform (flag ∷ secret ∷ post)
      ≡ flag ∷ redaction_placeholder ∷ sanitize_args no_transform post
sanitize_args_secret flag secret post f =
    rw (sanitize_args-cons, step-IsSecretFlag flag f, sanitize_args-cons)
      (unfold sanitize_step in refl)

-- The argument behind a sensitive flag has no influence on the logged command, wherever the flag
-- stands, if the flag is not itself the value of the argument before it.
pub sanitize_command_hides_value :
    (pre post : List Str) (flag secret other : Str)
    → pending no_transform pre ≡ no_transform
    → IsSecretFlag flag
    → sanitize_command (pre ++ flag ∷ secret ∷ post) ≡ sanitize_command (pre ++ flag ∷ other ∷ post)
unfolding sanitize_command
sanitize_command_hides_value pre post flag secret other idle f =
    let shown = λ (value : Str). sanitize_args-append no_transform pre (flag ∷ value ∷ post) in
    ap (join (b' ' ∷ [])) (
      shown secret
      ∙ rw (idle, sanitize_args_secret flag secret post f, ← sanitize_args_secret flag other post f)
          refl
      ∙ rw idle at (sym (shown other)))

cut-to_lower : (s : Str) {l r : Str} → cut b'=' s ≡ some (l, r) → cut b'=' (to_lower s) ≢ none
unfolding cut to_lower
cut-to_lower [] h = absurd (cc h)
cut-to_lower (c ∷ s) {l} {r} h = elim (Bool-cases (c == b'=')) [
  | inl here ↦ ground arith
  | inr other ↦ elim (Option-cases (cut b'=' s)) [
    | inl missing ↦ absurd (ground (arith, missing))
    | inr ((l', r'), found) ↦ ground (arith, found, cut-to_lower s {l = l'} {r = r'} found)
  ]
]

no_set_style :
    (s : Str) {l r : Str} → cut b'=' s ≡ some (l, r) → next_for_set_style_flag (to_lower s) ≡ false
unfolding next_for_set_style_flag
no_set_style s {l} {r} h = elim (Bool-cases (str_eq (to_lower s) (codes "--set"))) [
  | inl same ↦ absurd (
      cut-to_lower s h
        (rw ((str_eq_iff (to_lower s) (codes "--set")).0 same) (unfold cut codes in refl)))
  | inr apart ↦ elim (Bool-cases (str_eq (to_lower s) (codes "--set-string"))) [
    | inl same ↦ absurd (
        cut-to_lower s h
          (rw ((str_eq_iff (to_lower s) (codes "--set-string")).0 same) (unfold cut codes in refl)))
    | inr apart' ↦ rw (apart, apart') refl
  ]
]

step_assignment :
    (first : ℕ) (flag value : Str)
    → Without b'=' (first ∷ flag)
    → is_sensitive_flag (first ∷ flag) ≡ true
    → sanitize_step no_transform (first ∷ flag ++ b'=' ∷ value)
      ≡ (first ∷ flag ++ b'=' ∷ redaction_placeholder, no_transform)
unfolding sanitize_step sanitize_inline_assignment
step_assignment first flag value plain sensitive =
    let split_ = cut-append b'=' (first ∷ flag) value plain in
    rw (no_set_style (first ∷ flag ++ b'=' ∷ value) split_, split_, sensitive) refl

-- The value of an assignment `flag=value` to a sensitive flag has no influence on the logged
-- command, wherever the assignment stands, if it is not itself the value of the argument before it.
pub sanitize_command_hides_assignment :
    (pre post : List Str) (first : ℕ) (flag secret other : Str)
    → pending no_transform pre ≡ no_transform
    → Without b'=' (first ∷ flag)
    → is_sensitive_flag (first ∷ flag) ≡ true
    → sanitize_command (pre ++ (first ∷ flag ++ b'=' ∷ secret) ∷ post)
      ≡ sanitize_command (pre ++ (first ∷ flag ++ b'=' ∷ other) ∷ post)
unfolding sanitize_command
sanitize_command_hides_assignment pre post first flag secret other idle plain sensitive =
    let arg = λ (value : Str). first ∷ flag ++ b'=' ∷ value in
    let step = λ (value : Str). step_assignment first flag value plain sensitive in
    ap (join (b' ' ∷ [])) (
      rw
        (
          sanitize_args-append no_transform pre (arg secret ∷ post),
          sanitize_args-append no_transform pre (arg other ∷ post),
          idle,
          sanitize_args-cons no_transform (arg secret) post,
          sanitize_args-cons no_transform (arg other) post,
          step secret,
          step other,
        )
        refl)

-- `SanitizeEnv` keeps every key, and of each value shows either all of it or the placeholder: the
-- placeholder exactly for the keys that are sensitive and not on the allowlist.
lookup-sanitize_env :
    (env : Dict Str) (key : Str)
    → lookup key (sanitize_env env) ≡ (elim (lookup key env) [
      | none ↦ none
      | some value ↦ some (
          if is_sensitive_key key && not (any (str_eq key) allowlisted_env_keys)
          then redaction_placeholder
          else value)
    ])
unfolding sanitize_env lookup
lookup-sanitize_env [] key = refl
lookup-sanitize_env ((k, value) ∷ env) key =
    ground (arith, str_eq_iff k key, lookup-sanitize_env env key)
