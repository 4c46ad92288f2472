-- ===== src/Config.antt =====
-- Declarative configuration: the types of pkg/config/profile.go.
-- A nil map is the empty one: nothing in these files tells them apart. A profile's flag values are
-- those that the loader and the binder build: a bool, a string or a list of strings.
pub mod Resolver
pub mod Precedence
pub mod Invocation
pub mod Summary
pub mod Runtime
use chainctl.Prelude.{Bool, Option, none, some, List, [], ◌∷◌}
use chainctl.Text.{Str, codes}
use chainctl.Dict.{Dict}

-- `unset` is the empty ValueSource.
pub data ValueSource : Type 0 where
  unset default_source profile_source command_source runtime_source : ValueSource

-- The text of a ValueSource.
unfoldable pub source_text : ValueSource → Str
unfolding codes
source_text unset = []
source_text default_source = codes "default"
source_text profile_source = codes "profile"
source_text command_source = codes "command"
source_text runtime_source = codes "runtime"

pub data Value : Type 0 where
  bool_value : Bool → Value
  string_value : Str → Value
  list_value : List Str → Value

pub record FlagValue : Type 0 where
  pub value : Value
  pub source : ValueSource

abbrev pub FlagSet : Type 0
FlagSet = Dict FlagValue

pub record Metadata : Type 0 where
  pub name : Str
  pub description : Str

pub record CommandSection : Type 0 where
  pub profiles : List Str
  pub flags : FlagSet
  pub disabled : Bool

pub record ConfigurationProfile : Type 0 where
  pub metadata : Metadata
  pub defaults : FlagSet
  pub profiles : Dict FlagSet
  pub commands : Dict CommandSection
  pub source_path : Str

pub record ResolvedInvocation : Type 0 where
  pub command_path : Str
  pub profiles : List Str
  pub flags : FlagSet
  pub overrides : List Str
  pub warnings : List Str
  pub source_path : Str
