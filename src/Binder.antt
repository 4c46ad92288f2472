-- ===== src/Binder.antt =====
-- cmd/chainctl/declarative/binder.go: `Manager.apply`, which fills the flags of a command from its
-- declarative configuration before the command runs. A flag set of pflag, with the state `F`, and
-- the YAML decoder are parameters.
pub mod Run
pub mod Applied
pub mod Captures
pub mod Given
pub mod Keeping
use chainctl.Prelude.{
  ◌≡◌, Bool, true, false, not, ◌&&◌, ◌||◌, Option, none, some, List, [], ◌∷◌, ◌++◌, if◌then◌else◌,
  is_empty,
}
use chainctl.Result.{Result, ok, err, map_err, ◌>>=◌}
use chainctl.Text.{Str, codes, str_eq, is_blank, trim_space, to_lower, join}
use chainctl.Dict.{insert}
use chainctl.Config.{
  FlagSet, FlagValue, Value, ResolvedInvocation, bool_value, string_value, list_value,
  runtime_source,
}
use chainctl.Config.Resolver.{resolve_invocation}
use chainctl.Config.Resolver
use chainctl.Config.Summary.{Writers, format_summary}
use chainctl.Config.Summary
use chainctl.CommandLog.{sprint}
use chainctl.Loader.{Catalog, RawProfile, load}
use chainctl.Loader
use chainctl.Locator.{
  Env, LocationResult, locate_config, config_not_found, resolve_home, absolute_path,
}
use chainctl.Locator

-- A pflag.Flag: its name, the type that its value names, and whether it was set.
pub record Flag : Type 0 where
  pub name : Str
  pub kind : Str
  pub changed : Bool

-- The methods of a pflag.FlagSet.
pub record Pflag (F : Type 0) : Type 0 where
  pub visit_all : F → List Flag
  pub find : Str → F → Option Flag
  pub get_bool : Str → F → Result Str Bool
  pub get_string : Str → F → Result Str Str
  pub get_string_slice : Str → F → Result Str (List Str)
  pub set_flag : Str → Str → F → Option Str × F

pub data Error : Type 0 where
  config_flag_unreadable flag_unreadable profile_unreadable invalid_flag_type : Str → Error
  flag_not_applied : Str → Str → Error
  not_located : Locator.Error → Error
  not_loaded : Loader.Error → Error
  not_resolved : Resolver.Error → Error
  not_summarized : Summary.Error → Error

-- The flags, the invocation in the command's context and what was written to its standard error.
pub record World (F : Type 0) : Type 0 where
  pub flags : F
  pub resolved : Option ResolvedInvocation
  pub printed : List Str

-- `read_raw_profile` reads a file and decodes its YAML.
pub record Host : Type 0 where
  pub env : Env
  pub catalog : Catalog
  pub read_raw_profile : Str → Result Str RawProfile
  pub writers : Writers

abbrev pub config_flag_name : Str
config_flag_name = codes "config"

abbrev pub is_list_kind : Str → Bool
is_list_kind kind = str_eq kind (codes "stringSlice") || str_eq kind (codes "stringArray")

-- Without a path, a configuration that is not found is none.
abbrev found_or_none : Result Locator.Error LocationResult → Result Error (Option LocationResult)
found_or_none (ok location) = ok (some location)
found_or_none (err config_not_found) = ok none
found_or_none (err resolve_home) = err (not_located resolve_home)
found_or_none (err absolute_path) = err (not_located absolute_path)

abbrev must_be_found : Result Locator.Error LocationResult → Result Error (Option LocationResult)
must_be_found (ok location) = ok (some location)
must_be_found (err e) = err (not_located e)

unfoldable pub should_skip_runtime_flag : Flag → Bool
should_skip_runtime_flag flag = not flag.changed || str_eq flag.name config_flag_name

-- `toStringSlice`, with the commas between the items.
abbrev expect_list : Str → Value → Result Error Str
expect_list name (list_value vs) = ok (join (codes ",") vs)
expect_list name (bool_value b) = err (invalid_flag_type name)
expect_list name (string_value s) = err (invalid_flag_type name)

abbrev expect_bool : Str → Value → Result Error Str
expect_bool name (bool_value b) = ok (sprint (bool_value b))
expect_bool name (string_value s) = err (invalid_flag_type name)
expect_bool name (list_value vs) = err (invalid_flag_type name)

unfoldable pub format_resolved_flag_value : Flag → Value → Str → Result Error Str
format_resolved_flag_value flag raw name =
    if str_eq flag.kind (codes "bool")
    then expect_bool name raw
    else if is_list_kind flag.kind
    then expect_list name raw
    else ok (sprint raw)

abbrev map_value : {A : Type 0} → (A → Value) → Result Str A → Result Str Value
map_value f (ok a) = ok (f a)
map_value f (err text) = err text

unfoldable pub build_resolved_invocation :
    Host → Str → Str → FlagSet → Result Error ResolvedInvocation
build_resolved_invocation host config_path command_path runtime = do
  raw ← map_err profile_unreadable (host.read_raw_profile config_path)
  profile ← map_err not_loaded (load host.catalog config_path raw)
  map_err not_resolved (resolve_invocation (some profile) command_path runtime)

module _ {F : Type 0} (pflag : Pflag F) where
  unfoldable pub resolve_config_location : Env → F → Result Error (Option LocationResult)
  resolve_config_location env flags = elim (pflag.get_string config_flag_name flags) [
    | err text ↦ err (config_flag_unreadable text)
    | ok path ↦
        if not (is_blank path)
        then must_be_found (locate_config env path)
        else found_or_none (locate_config env [])
  ]

  unfoldable pub read_runtime_flag_value : Flag → F → Result Str Value
  read_runtime_flag_value flag flags =
      if str_eq flag.kind (codes "bool")
      then map_value bool_value (pflag.get_bool flag.name flags)
      else if is_list_kind flag.kind
      then map_value list_value (pflag.get_string_slice flag.name flags)
      else map_value string_value (pflag.get_string flag.name flags)

  unfoldable pub capture_runtime_flag : Flag → F → FlagSet → Result Error FlagSet
  capture_runtime_flag flag flags runtime = do
    value ← map_err flag_unreadable (read_runtime_flag_value flag flags)
    ok (insert flag.name (record { value = value; source = runtime_source }) runtime)

  -- VisitAll over the flags, where nothing more is done after the first error.
  unfoldable pub capture_flags : List Flag → F → FlagSet → Result Error FlagSet
  capture_flags [] flags runtime = ok runtime
  capture_flags (flag ∷ rest) flags runtime = do
    next ←
        if should_skip_runtime_flag flag
        then ok runtime
        else capture_runtime_flag flag flags runtime
    capture_flags rest flags next

  -- No override is a nil map, which is the empty one.
  unfoldable pub collect_runtime_overrides : F → Result Error FlagSet
  collect_runtime_overrides flags = capture_flags (pflag.visit_all flags) flags []

  abbrev text_or_empty : Result Str Str → Str
  text_or_empty (ok text) = text
  text_or_empty (err text) = []

  unfoldable pub determine_output_format : F → Str
  determine_output_format flags =
      let format =
        to_lower (trim_space (text_or_empty (pflag.get_string (codes "output") flags))) in
      if is_empty format
      then codes "text"
      else if not (str_eq format (codes "text")) && not (str_eq format (codes "json"))
      then codes "text"
      else format
