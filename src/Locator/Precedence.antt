-- ===== src/Locator/Precedence.antt =====
-- internal/config/locator.go: which file is taken.
use chainctl.Prelude.{none, some, ◌≡◌, Bool, true, false, not, Option}
use chainctl.Result.{ok}
use chainctl.Text.{Str, codes, trim_space, is_blank}
use chainctl.FilePath.{join_path}
use chainctl.Locator.{
  LocationResult, Env, Located, locate_working_dir, locate_xdg, locate_home, or_else,
  source_explicit, source_env, source_working_dir, source_xdg, source_home,
}
use chainctl.Locator.Places.{IsAt}

-- The variable, where it is set, names a file.
abbrev names_file : Option Str → Bool
names_file none = false
names_file (some value) = not (is_blank value)

-- Where a file may have been taken from: the explicit path if there is one, else the variable if it
-- names a file, else the first of the usual places that has it.
pub data IsChosen (env : Env) (explicit_path : Str) (r : LocationResult) : Type 0 where
  explicitly :
      is_blank explicit_path ≡ false
      → IsAt env source_explicit (trim_space explicit_path) r
      → IsChosen env explicit_path r
  by_variable :
      (value : Str)
      → is_blank explicit_path ≡ true
      → env.config_variable ≡ some value
      → is_blank value ≡ false
      → IsAt env source_env value r
      → IsChosen env explicit_path r
  in_working_dir :
      (wd : Str)
      → is_blank explicit_path ≡ true
      → names_file env.config_variable ≡ false
      → env.wd ≡ some wd
      → IsAt env source_working_dir (join_path wd (codes "chainctl.yaml")) r
      → IsChosen env explicit_path r
  in_xdg :
      is_blank explicit_path ≡ true
      → names_file env.config_variable ≡ false
      → locate_working_dir env ≡ ok none
      → IsAt env source_xdg
          (join_path (trim_space env.xdg_config_home) (codes "chainctl/config.yaml"))
          r
      → IsChosen env explicit_path r
  in_home :
      (home : Str)
      → is_blank explicit_path ≡ true
      → names_file env.config_variable ≡ false
      → locate_working_dir env ≡ ok none
      → locate_xdg env ≡ ok none
      → env.home ≡ some home
      → IsAt env source_home (join_path home (codes ".config/chainctl/config.yaml")) r
      → IsChosen env explicit_path r

abbrev usual_places : Env → Located
usual_places env = or_else (locate_working_dir env) (or_else (locate_xdg env) (locate_home env))
