-- ===== src/State.antt =====
-- The application's state file: its record (pkg/state/state.go) and where it lies
-- (internal/state/resolver.go).
pub mod Manager
pub mod Location
pub mod Atomicity
use chainctl.Prelude.{
  ℕ, zero, suc, ◌+◌, ◌-◌, ◌*◌, ◌/◌, ◌%◌, ◌≤◌, ◌<◌, String, ◌≡◌, refl, sym, ap, ◌∙◌, subst, ◌≢◌, ◌↔◌,
  ◌⊎◌, inl, inr, Bool, true, false, not, ◌&&◌, ◌||◌, Option, none, some, List, [], ◌∷◌, ◌++◌, map,
  append-nil, append_assoc, arith, ltb, leb, ◌==◌, if◌then◌else◌, ==_iff, leb→le, Bool-cases,
  Option-cases, length, is_empty, take, drop, length-append, any, all, All, All-append,
}
use chainctl.Result.{
  ok, Result, ◌>>=◌, ◌>>◌, guard, map_err, of_error, >>=-eq-ok, Result-cases, err,
}
use chainctl.Text.{
  Str, codes, str_eq, has_prefix, contains, is_space, trim_left, trim_right, trim_space, is_blank,
  lower, upper, to_lower, to_upper, cons_head, split, cut, cut_last, join,
}
use chainctl.FilePath.{
  clean, dot, dot_dot, is_abs, up, push_segment, normalise, rev_append, parts, render, join_path,
  abs, dir, climb, rel_parts, starts_up, rel,
}

pub record ChartSource : Type 0 where
  pub type_of : Str
  pub reference : Str
  pub digest : Str

pub record Record : Type 0 where
  pub release : Str
  pub namespace : Str
  pub chart : ChartSource
  pub version : Str
  pub last_action : Str
  pub timestamp : Str
  pub cluster_endpoint : Str

pub record Overrides : Type 0 where
  pub state_directory : Str
  pub state_file_name : Str
  pub state_file_path : Str

pub data Error : Type 0 where
  conflicting_overrides relative_state_file invalid_file_name : Error
  determine_state_directory resolve_state_directory : Error
  path_resolver_missing empty_state_path write_failed : Error

-- What the process reads of its environment: XDG_CONFIG_HOME, the user's home directory and the
-- working directory, `none` where reading it fails.
pub record Env : Type 0 where
  pub xdg_config_home : Str
  pub user_home_dir : Option Str
  pub wd : Option Str

unfoldable pub default_file_name : Str
unfolding codes
default_file_name = codes "app.json"

unfoldable pub config_dir_name : Str
unfolding codes
config_dir_name = codes "chainctl"

unfoldable pub state_dir_name : Str
unfolding codes
state_dir_name = codes "state"

unfoldable pub reserved_names : List Str
unfolding codes
reserved_names =
    codes "CON"
    ∷ codes "PRN"
    ∷ codes "AUX"
    ∷ codes "NUL"
    ∷ codes "COM1"
    ∷ codes "COM2"
    ∷ codes "COM3"
    ∷ codes "COM4"
    ∷ codes "COM5"
    ∷ codes "COM6"
    ∷ codes "COM7"
    ∷ codes "COM8"
    ∷ codes "COM9"
    ∷ codes "LPT1"
    ∷ codes "LPT2"
    ∷ codes "LPT3"
    ∷ codes "LPT4"
    ∷ codes "LPT5"
    ∷ codes "LPT6"
    ∷ codes "LPT7"
    ∷ codes "LPT8"
    ∷ codes "LPT9"
    ∷ []

-- strings.ContainsAny(name, "/\\")
abbrev pub is_separator : ℕ → Bool
is_separator c = c == b'/' || c == 92

abbrev pub is_control : ℕ → Bool
is_control c = ltb c 32 || c == 127

abbrev pub names_device : Str → Str → Bool
names_device upper_name res = str_eq upper_name res || has_prefix upper_name (res ++ b'.' ∷ [])

unfoldable pub invalid_file_name_test : Str → Bool
invalid_file_name_test name =
    is_empty name
    || any is_separator name
    || any is_control name
    || any (names_device (to_upper name)) reserved_names

-- filepath.Join of three elements, the first not empty.
abbrev join_three : Str → Str → Str → Str
join_three a b c = join_path (join_path a b) c

unfoldable pub default_state_directory : Env → Result Error Str
default_state_directory env =
    if not (is_empty env.xdg_config_home)
    then ok (join_three (clean env.xdg_config_home) config_dir_name state_dir_name)
    else elim env.user_home_dir [
      | none ↦ err determine_state_directory
      | some home ↦
          if is_empty home
          then err determine_state_directory
          else ok (join_three (clean home) (b'.' ∷ config_dir_name) state_dir_name)
    ]

-- `dir` made absolute.
unfoldable pub absolute_directory : Env → Str → Result Error Str
absolute_directory env dir =
    if is_abs (clean dir)
    then ok (clean dir)
    else elim (abs env.wd (clean dir)) [ none ↦ err resolve_state_directory | some a ↦ ok a ]

unfoldable pub state_directory_of : Env → Str → Result Error Str
state_directory_of env dir = if is_empty dir then default_state_directory env else ok dir

file_in : Str → Str → Result Error Str
file_in dir file_name =
    if invalid_file_name_test file_name then err invalid_file_name else ok (join_path dir file_name)

unfoldable pub resolve : Env → Overrides → Result Error Str
unfolding file_in
resolve env o =
    if not (is_empty o.state_file_path) && not (is_empty o.state_file_name)
    then err conflicting_overrides
    else if not (is_empty o.state_file_path)
    then (if not (is_abs o.state_file_path)
        then err relative_state_file
        else ok (clean o.state_file_path))
    else do
      chosen ← state_directory_of env o.state_directory
      dir ← absolute_directory env chosen
      file_in dir (if is_empty o.state_file_name then default_file_name else o.state_file_name)
