-- ===== src/Locator.antt =====
-- internal/config/locator.go: where the declarative configuration is looked for.
pub mod Places
pub mod Precedence
use chainctl.Prelude.{
  false, true, none, some, ℕ, zero, suc, ◌+◌, ◌-◌, ◌*◌, ◌/◌, ◌%◌, ◌≤◌, ◌<◌, String, ◌≡◌, refl, sym,
  ap, ◌∙◌, subst, ◌≢◌, ◌↔◌, ◌⊎◌, inl, inr, Bool, true, not, ◌&&◌, ◌||◌, Option, some, List, [], ◌∷◌,
  ◌++◌, map, append-nil, append_assoc, arith, ltb, leb, ◌==◌, if◌then◌else◌, ==_iff, leb→le,
  Bool-cases, Option-cases, not-true, length, is_empty, take, drop, length-append, take_append,
  drop_append, any, all, All, All-append,
}
use chainctl.Result.{
  Result, ok, err, ◌>>=◌, ◌>>◌, guard, map_err, of_error, >>=-eq-ok, Result-cases,
}
use chainctl.Text.{
  Str, codes, str_eq, has_prefix, contains, is_space, trim_left, trim_right, trim_space, is_blank,
  lower, upper, to_lower, to_upper, cons_head, split, cut, cut_last, join,
}
use chainctl.FilePath.{
  join_path, clean, abs, dot, dot_dot, is_abs, up, push_segment, normalise, rev_append, parts,
  render, dir, climb, rel_parts, starts_up, rel,
}

pub data ConfigSource : Type 0 where
  source_explicit source_env source_working_dir source_xdg source_home : ConfigSource

pub record LocationResult : Type 0 where
  pub path : Str
  pub source : ConfigSource

pub data Error : Type 0 where
  config_not_found resolve_home absolute_path : Error

-- What is read of the environment: CHAINCTL_CONFIG if it is set, XDG_CONFIG_HOME, the home and the
-- working directory, `none` where reading it fails, and whether a path is there and no directory.
pub record Env : Type 0 where
  pub config_variable : Option Str
  pub xdg_config_home : Str
  pub home : Option Str
  pub wd : Option Str
  pub exists : Str → Bool

-- A located file, `none` for one that was not found.
abbrev pub Located : Type 0
Located = Result Error (Option LocationResult)

made_absolute : Option Str → Result Error Str
made_absolute none = err absolute_path
made_absolute (some path) = ok path

-- strings.TrimPrefix(path, "~") in the home directory
under_home : Option Str → Str → Result Error Str
under_home none path = err resolve_home
under_home (some home) path = ok (join_path home (drop 1 path))

unfoldable pub to_absolute : Env → Str → Result Error Str
unfolding made_absolute under_home
to_absolute env path = do
  expanded ← if has_prefix path (codes "~") then under_home env.home path else ok path
  made_absolute (abs env.wd expanded)

unfoldable pub found_at : Env → ConfigSource → Bool → Str → Located
found_at env source require_exists path =
    if env.exists path
    then ok (some (record { path = path; source = source }))
    else if require_exists
    then err config_not_found
    else ok none

unfoldable pub resolve_candidate : Env → Str → ConfigSource → Bool → Located
unfolding found_at
resolve_candidate env path source require_exists = do
  path_found ← to_absolute env (clean path)
  found_at env source require_exists path_found

unfoldable pub locate_explicit : Env → Str → Located
locate_explicit env path =
    if is_blank path then ok none else resolve_candidate env (trim_space path) source_explicit true

-- The rest of `locateEnv`, by what os.LookupEnv returns.
unfoldable pub env_at : Env → Option Str → Located
env_at env none = ok none
env_at env (some value) =
    if is_blank value then ok none else resolve_candidate env value source_env true

abbrev pub locate_env : Env → Located
locate_env env = env_at env env.config_variable

-- The rest of `locateWorkingDir`, by what os.Getwd returns.
unfoldable pub working_dir_at : Env → Option Str → Located
working_dir_at env none = ok none
working_dir_at env (some wd) =
    resolve_candidate env (join_path wd (codes "chainctl.yaml")) source_working_dir false

abbrev pub locate_working_dir : Env → Located
locate_working_dir env = working_dir_at env env.wd

unfoldable pub locate_xdg : Env → Located
locate_xdg env =
    if is_blank env.xdg_config_home
    then ok none
    else resolve_candidate env
        (join_path (trim_space env.xdg_config_home) (codes "chainctl/config.yaml")) source_xdg false

-- The rest of `locateHome`, by what os.UserHomeDir returns.
unfoldable pub home_at : Env → Option Str → Located
home_at env none = ok none
home_at env (some home) =
    if is_blank home
    then ok none
    else resolve_candidate env (join_path home (codes ".config/chainctl/config.yaml")) source_home
        false

abbrev pub locate_home : Env → Located
locate_home env = home_at env env.home

-- The next place if nothing was found and nothing failed.
abbrev pub or_else : Located → Located → Located
or_else (err e) next = err e
or_else (ok none) next = next
or_else (ok (some r)) next = ok (some r)

abbrev pub required : Located → Result Error LocationResult
required (err e) = err e
required (ok none) = err config_not_found
required (ok (some r)) = ok r

unfoldable pub locate_config : Env → Str → Result Error LocationResult
locate_config env explicit_path = required (
    or_else (locate_explicit env explicit_path) (
      or_else (locate_env env)
        (or_else (locate_working_dir env) (or_else (locate_xdg env) (locate_home env)))))
