-- ===== src/Sanitizer.antt =====
-- internal/cli/logging/sanitizer.go: what is redacted before a command, an environment or an
-- output is logged.
pub mod Commands
pub mod Matching
pub mod Output
pub mod Redaction
pub mod Spaces
use chainctl.Prelude.{
  ℕ, zero, suc, ◌+◌, ◌-◌, ◌*◌, ◌/◌, ◌%◌, ◌≤◌, ◌<◌, String, ◌≡◌, refl, sym, ap, ◌∙◌, subst, ◌≢◌, ◌↔◌,
  ◌⊎◌, inl, inr, Bool, true, false, not, ◌&&◌, ◌||◌, Option, none, some, List, [], ◌∷◌, ◌++◌, map,
  append-nil, append_assoc, arith, ltb, leb, ◌==◌, if◌then◌else◌, ==_iff, leb→le, Bool-cases,
  Option-cases, length, is_empty, take, drop, length-append, any, all, All, All-append,
}
use chainctl.Text.{
  Str, codes, str_eq, has_prefix, contains, is_space, trim_left, trim_right, trim_space, is_blank,
  lower, upper, to_lower, to_upper, cons_head, split, cut, cut_last, join,
}
use chainctl.Dict.{Dict, lookup, insert, lookup-insert, lookup-insert_self, Distinct}

abbrev pub redaction_placeholder : Str
redaction_placeholder = b'*' ∷ b'*' ∷ b'*' ∷ []

unfoldable pub allowlisted_env_keys : List Str
unfolding codes
allowlisted_env_keys =
    codes "PATH"
    ∷ codes "HOME"
    ∷ codes "USER"
    ∷ codes "SHELL"
    ∷ codes "KUBECONFIG"
    ∷ codes "PWD"
    ∷ codes "LANG"
    ∷ codes "LC_ALL"
    ∷ codes "TMPDIR"
    ∷ codes "TMP"
    ∷ codes "TERM"
    ∷ codes "LOGNAME"
    ∷ codes "EDITOR"
    ∷ []

unfoldable pub is_sensitive_flag : Str → Bool
is_sensitive_flag flag =
    let flag_lower = to_lower flag in
    contains flag_lower (codes "password")
    || contains flag_lower (codes "passphrase")
    || contains flag_lower (codes "token")
    || contains flag_lower (codes "secret")
    || contains flag_lower (codes "credential")

unfoldable pub is_sensitive_key : Str → Bool
is_sensitive_key text =
    let lower_text = to_lower text in
    contains lower_text (codes "password")
    || contains lower_text (codes "passphrase")
    || contains lower_text (codes "secret")
    || contains lower_text (codes "token")
    || contains lower_text (codes "apikey")
    || contains lower_text (codes "privatekey")

-- One part of a `--set` expression; without a `=` it stays as it is.
unfoldable pub sanitize_pair : Str → Str
sanitize_pair pair = elim (cut b'=' pair) [
  | none ↦ pair
  | some (key, value) ↦
      if is_sensitive_key key || is_sensitive_key value
      then key ++ b'=' ∷ redaction_placeholder
      else key ++ b'=' ∷ value
]

unfoldable pub sanitize_set_expressions : Str → Str
unfolding sanitize_pair
sanitize_set_expressions expression = join (b',' ∷ []) (map sanitize_pair (split b',' expression))

-- What the next argument goes through: the closures that `nextTransform` can hold.
pub data Transform : Type 0 where
  no_transform set_transform redact_transform : Transform

unfoldable pub next_for_set_style_flag : Str → Bool
next_for_set_style_flag lower_arg =
    str_eq lower_arg (codes "--set") || str_eq lower_arg (codes "--set-string")

assignment : Str → Str → Str → Option Str
assignment lower_arg flag value =
    if is_sensitive_flag flag
    then some (flag ++ b'=' ∷ redaction_placeholder)
    else if has_prefix lower_arg (codes "--") && is_sensitive_key value
    then some (flag ++ b'=' ∷ redaction_placeholder)
    else if has_prefix lower_arg (codes "--set")
    then some (flag ++ b'=' ∷ sanitize_set_expressions value)
    else none

-- `none` is "not handled". A `=` at the start is none: `eq <= 0`.
unfoldable pub sanitize_inline_assignment : Str → Str → Option Str
unfolding assignment
sanitize_inline_assignment arg lower_arg = elim (cut b'=' arg) [
  | none ↦ none
  | some (flag, value) ↦ if is_empty flag then none else assignment lower_arg flag value
]

unfoldable pub sanitize_command_arg : Str → Str × Transform
sanitize_command_arg arg =
    if next_for_set_style_flag (to_lower arg)
    then (arg, set_transform)
    else elim (sanitize_inline_assignment arg (to_lower arg)) [
      | some sanitized ↦ (sanitized, no_transform)
      | none ↦ if is_sensitive_flag arg then (arg, redact_transform) else (arg, no_transform)
    ]

-- One round of the loop: the text to append and the next transform.
unfoldable pub sanitize_step : Transform → Str → Str × Transform
unfolding sanitize_command_arg
sanitize_step no_transform arg = sanitize_command_arg arg
sanitize_step set_transform arg = (sanitize_set_expressions arg, no_transform)
sanitize_step redact_transform arg = (redaction_placeholder, no_transform)

-- The loop, and the placeholder behind it for a transform that found no argument.
unfoldable pub sanitize_args : Transform → List Str → List Str
sanitize_args no_transform [] = []
sanitize_args set_transform [] = redaction_placeholder ∷ []
sanitize_args redact_transform [] = redaction_placeholder ∷ []
sanitize_args next (arg ∷ args) =
    (sanitize_step next arg).0 ∷ sanitize_args (sanitize_step next arg).1 args

unfoldable pub sanitize_command : List Str → Str
unfolding sanitize_args
sanitize_command args = join (b' ' ∷ []) (sanitize_args no_transform args)

unfoldable pub sanitize_env_value : Str → Str → Str
sanitize_env_value key value =
    if any (str_eq key) allowlisted_env_keys
    then value
    else if is_sensitive_key key
    then redaction_placeholder
    else value

unfoldable pub sanitize_env : Dict Str → Dict Str
unfolding sanitize_env_value
sanitize_env [] = []
sanitize_env ((key, value) ∷ env) = (key, sanitize_env_value key value) ∷ sanitize_env env

-- The words of `sensitivePattern`, in the order of its alternatives. `(?i)` is that of ASCII here: the
-- long s and the Kelvin sign, which it takes for an s and a k, are left out.
unfoldable pub pattern_words : List Str
unfolding codes
pattern_words =
    codes "password"
    ∷ codes "passphrase"
    ∷ codes "secret"
    ∷ codes "token"
    ∷ codes "apikey"
    ∷ codes "privatekey"
    ∷ []

-- `\s` of package regexp: tab, newline, form feed, carriage return and space.
abbrev pub is_regexp_space : ℕ → Bool
is_regexp_space c = c == 32 || c == 9 || c == 10 || c == 12 || c == 13

abbrev pub is_continuation : ℕ → Bool
is_continuation c = leb 128 c && leb c 191

-- The next `n` bytes are continuation bytes.
unfoldable pub continues : ℕ → Str → Bool
continues zero s = true
continues (suc n) [] = false
continues (suc n) (c ∷ s) = is_continuation c && continues n s

-- The first byte is between two.
unfoldable pub starts_within : ℕ → ℕ → Str → Bool
starts_within low high [] = false
starts_within low high (c ∷ s) = leb low c && leb c high

-- `n` further bytes, the first of them in the range, or none for an ill-formed sequence.
unfoldable pub tail_within : ℕ → ℕ → ℕ → Str → ℕ
tail_within n low high s = if starts_within low high s && continues n s then n else 0

-- How many bytes of UTF-8 belong to the rune that starts with `c`, behind it. A byte of an
-- ill-formed sequence is a rune by itself, as for the package regexp.
unfoldable pub rune_tail : ℕ → Str → ℕ
unfolding tail_within
rune_tail c s =
    if leb 194 c && leb c 223
    then tail_within 1 128 191 s
    else if c == 224
    then tail_within 2 160 191 s
    else if c == 237
    then tail_within 2 128 159 s
    else if leb 225 c && leb c 239
    then tail_within 2 128 191 s
    else if c == 240
    then tail_within 3 144 191 s
    else if leb 241 c && leb c 243
    then tail_within 3 128 191 s
    else if c == 244
    then tail_within 3 128 143 s
    else 0

-- How many bytes the greedy `[^\s]{1,128}` takes at the front: those of `limit` runes at most, none
-- of them a space.
unfoldable pub value_length : ℕ → Str → ℕ
unfolding rune_tail
value_length zero s = 0
value_length (suc limit) [] = 0
value_length (suc limit) (c ∷ s) =
    if is_regexp_space c
    then 0
    else suc (rune_tail c s + value_length limit (drop (rune_tail c s) s))

-- The value behind `word=`, if the text starts with them in any case.
unfoldable pub match_word : Str → Str → Option ℕ
match_word word text =
    let width = value_length 128 (drop (length word + 1) text) in
    if has_prefix (to_lower text) (word ++ b'=' ∷ [])
    then (if width == 0 then none else some (length word))
    else none

-- The length of the word of the first alternative that matches here.
unfoldable pub match_at : List Str → Str → Option ℕ
match_at [] text = none
match_at (word ∷ words) text = elim (match_word word text) [
  | none ↦ match_at words text
  | some n ↦ some n
]

-- ReplaceAllStringFunc: `skip` bytes belong to the match before.
unfoldable pub replace_all : ℕ → Str → Str
replace_all skip [] = []
replace_all (suc skip) (c ∷ s) = replace_all skip s
replace_all zero (c ∷ s) = elim (match_at pattern_words (c ∷ s)) [
  | none ↦ c ∷ replace_all zero s
  | some n ↦
      take n (c ∷ s)
      ++ b'='
        ∷ (redaction_placeholder ++ replace_all (n + value_length 128 (drop (n + 1) (c ∷ s))) s)
]

-- The regular expression and the split of a match at its first `=`, of which no word has one.
unfoldable pub sanitize_text : Str → Str
sanitize_text text = replace_all 0 text
