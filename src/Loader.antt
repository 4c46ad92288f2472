-- ===== src/Loader.antt =====
-- internal/config: the loader of a declarative configuration (loader.go) over a catalog of flags
-- (cobra_catalog.go). The YAML decoder is outside: loading starts at the raw profile it gives.
pub mod Admission
pub mod Flags
pub mod Walk
use chainctl.Prelude.{
  ℕ, zero, suc, ◌+◌, ◌-◌, ◌*◌, ◌/◌, ◌%◌, ◌≤◌, ◌<◌, String, ◌≡◌, refl, sym, ap, ◌∙◌, subst, ◌≢◌, ◌↔◌,
  ◌⊎◌, inl, inr, Bool, true, false, not, ◌&&◌, ◌||◌, Option, none, some, List, [], ◌∷◌, ◌++◌, map,
  append-nil, append_assoc, arith, ltb, leb, ◌==◌, if◌then◌else◌, ==_iff, leb→le, Bool-cases,
  Option-cases, length, is_empty, take, drop, length-append, any, all, All, All-append,
}
use chainctl.Result.{
  Result, ◌>>=◌, ◌>>◌, guard, map_err, of_error, >>=-eq-ok, Result-cases, ok, err,
}
use chainctl.Text.{
  Str, codes, str_eq, has_prefix, contains, is_space, trim_left, trim_right, trim_space, is_blank,
  lower, upper, to_lower, to_upper, cons_head, split, cut, cut_last, join,
}
use chainctl.Dict.{
  Dict, lookup, insert, lookup-insert, lookup-insert_self, Distinct, remove, lookup-remove,
}
use chainctl.Config.{
  FlagSet, FlagValue, ConfigurationProfile, CommandSection, Metadata, Value, ValueSource,
  bool_value, string_value, list_value, default_source, profile_source, command_source,
  ResolvedInvocation, source_text, unset, runtime_source,
}

pub data FlagType : Type 0 where
  flag_string flag_bool flag_string_slice : FlagType

-- `cobraCatalog`; the flags of a command, and those of any command.
pub record Catalog : Type 0 where
  pub commands : Dict (Dict FlagType)
  pub index : Dict FlagType
  pub order : List Str

unfoldable pub is_command_supported : Catalog → Str → Bool
unfolding lookup
is_command_supported c command = elim (lookup command c.commands) [ none ↦ false | some _ ↦ true ]

unfoldable pub flag_type : Catalog → Str → Str → Option FlagType
unfolding lookup
flag_type c command flag = elim (lookup command c.commands) [
  | none ↦ none
  | some flags ↦ lookup flag flags
]

unfoldable pub any_flag_type : Catalog → Str → Option FlagType
unfolding lookup
any_flag_type c flag = lookup flag c.index

-- A YAML value as `any`. A number and a `fmt.Stringer` carry the text that they print as; `other`
-- is what no case of the switches takes, such as a list inside a list.
pub data Scalar : Type 0 where
  raw_bool : Bool → Scalar
  raw_string : Str → Scalar
  raw_printed : Str → Scalar
  raw_other : Scalar

pub data Raw : Type 0 where
  raw_scalar : Scalar → Raw
  raw_list : List Scalar → Raw

pub data Error : Type 0 where
  secrets_disallowed unknown_command unknown_flag invalid_flag_type : Str → Error

pub record RawCommandSection : Type 0 where
  pub profiles : List Str
  pub flags : Dict Raw
  pub disabled : Bool

pub record RawProfile : Type 0 where
  pub name : Str
  pub description : Str
  pub defaults : Dict Raw
  pub profiles : Dict (Dict Raw)
  pub commands : Dict RawCommandSection

unfoldable pub is_sensitive : Str → Bool
is_sensitive name =
    let lower_name = to_lower name in
    contains lower_name (codes "token")
    || contains lower_name (codes "secret")
    || contains lower_name (codes "passphrase")
    || contains lower_name (codes "password")
    || contains lower_name (codes "kubeconfig")

-- strconv.FormatBool
abbrev format_bool : Bool → Str
format_bool true = codes "true"
format_bool false = codes "false"

unfoldable pub stringify : Str → Scalar → Result Error Str
unfolding codes
stringify name (raw_string s) = ok s
stringify name (raw_printed s) = ok s
stringify name (raw_bool b) = ok (format_bool b)
stringify name raw_other = err (invalid_flag_type name)

unfoldable true_texts : List Str
unfolding codes
true_texts = codes "1" ∷ codes "t" ∷ codes "T" ∷ codes "TRUE" ∷ codes "true" ∷ codes "True" ∷ []

unfoldable false_texts : List Str
unfolding codes
false_texts = codes "0" ∷ codes "f" ∷ codes "F" ∷ codes "FALSE" ∷ codes "false" ∷ codes "False" ∷ []

-- strconv.ParseBool, `none` for its error
unfoldable pub parse_bool : Str → Option Bool
unfolding true_texts false_texts
parse_bool s =
    if any (str_eq s) true_texts
    then some true
    else if any (str_eq s) false_texts
    then some false
    else none

unfoldable pub coerce_bool : Str → Raw → Result Error Value
unfolding parse_bool
coerce_bool name (raw_scalar (raw_bool b)) = ok (bool_value b)
coerce_bool name (raw_scalar (raw_string s)) = elim (parse_bool (trim_space s)) [
  | none ↦ err (invalid_flag_type name)
  | some b ↦ ok (bool_value b)
]
coerce_bool name (raw_scalar (raw_printed s)) = err (invalid_flag_type name)
coerce_bool name (raw_scalar raw_other) = err (invalid_flag_type name)
coerce_bool name (raw_list items) = err (invalid_flag_type name)

unfoldable pub stringify_all : Str → List Scalar → Result Error (List Str)
unfolding stringify
stringify_all name [] = ok []
stringify_all name (item ∷ items) = do
  s ← stringify name item
  rest ← stringify_all name items
  ok (s ∷ rest)

unfoldable pub coerce_string_slice : Str → Raw → Result Error Value
unfolding stringify_all
coerce_string_slice name (raw_list items) = do out ← stringify_all name items; ok (list_value out)
coerce_string_slice name (raw_scalar (raw_string s)) = ok (list_value (trim_space s ∷ []))
coerce_string_slice name (raw_scalar (raw_bool b)) = err (invalid_flag_type name)
coerce_string_slice name (raw_scalar (raw_printed s)) = err (invalid_flag_type name)
coerce_string_slice name (raw_scalar raw_other) = err (invalid_flag_type name)

unfoldable pub coerce_string : Str → Raw → Result Error Value
unfolding stringify
coerce_string name (raw_scalar s) = do text ← stringify name s; ok (string_value text)
coerce_string name (raw_list items) = err (invalid_flag_type name)

unfoldable pub coerce_value : Str → Raw → FlagType → Result Error Value
unfolding coerce_bool coerce_string_slice coerce_string
coerce_value name raw flag_bool = coerce_bool name raw
coerce_value name raw flag_string_slice = coerce_string_slice name raw
coerce_value name raw flag_string = coerce_string name raw

abbrev pub known {ℓ} : {A : Type ℓ} → Option A → Error → Result Error A
known none e = err e
known (some a) e = ok a

-- The lookup of `buildFlagSet`: an empty command stands for any.
unfoldable pub expected_type : Catalog → Str → Str → Option FlagType
unfolding flag_type any_flag_type
expected_type c command name =
    if is_empty command then any_flag_type c name else flag_type c command name

-- One round of the loop of `buildFlagSet`.
unfoldable pub build_flag : Catalog → Str → Str → Raw → Result Error Value
build_flag c command name raw = do
  guard (not (is_sensitive name)) (secrets_disallowed name)
  type_of ← known (expected_type c command name) (unknown_flag name)
  coerce_value name raw type_of

unfoldable pub build_flags : Catalog → Str → ValueSource → FlagSet → Dict Raw → Result Error FlagSet
unfolding build_flag insert
build_flags c command source set [] = ok set
build_flags c command source set ((name, raw) ∷ entries) = do
  value ← build_flag c command name raw
  build_flags c command source (insert name (record { value = value; source = source }) set) entries

abbrev pub build_flag_set : Catalog → Dict Raw → Str → ValueSource → Result Error FlagSet
build_flag_set c entries command source = build_flags c command source [] entries

unfoldable pub populate_profiles :
    Catalog → Dict FlagSet → Dict (Dict Raw) → Result Error (Dict FlagSet)
unfolding build_flags insert
populate_profiles c made [] = ok made
populate_profiles c made ((name, entries) ∷ rest) = do
  set ← build_flag_set c entries [] profile_source
  populate_profiles c (insert name set made) rest

-- The section of one command.
unfoldable pub build_section : Catalog → Str → RawCommandSection → Result Error CommandSection
unfolding build_flags is_command_supported
build_section c path section = do
  guard (is_command_supported c path) (unknown_command path)
  set ← build_flag_set c section.flags path command_source
  ok (record { profiles = section.profiles; flags = set; disabled = section.disabled })

-- One round of the loop of `populateCommands`, with the sections made before.
unfoldable pub populate_command :
    Catalog → Dict CommandSection → Str → RawCommandSection → Result Error (Dict CommandSection)
unfolding build_section insert
populate_command c made command section = if is_blank command then ok made else do
  s ← build_section c (trim_space command) section
  ok (insert (trim_space command) s made)

unfoldable pub populate_commands :
    Catalog → Dict CommandSection → Dict RawCommandSection → Result Error (Dict CommandSection)
unfolding populate_command
populate_commands c made [] = ok made
populate_commands c made ((command, section) ∷ rest) = do
  next ← populate_command c made command section
  populate_commands c next rest

-- `Loader.Load` behind `readRawProfile`.
unfoldable pub load : Catalog → Str → RawProfile → Result Error ConfigurationProfile
load c path raw = do
  defaults ← build_flag_set c raw.defaults [] default_source
  profiles ← populate_profiles c [] raw.profiles
  commands ← populate_commands c [] raw.commands
  ok (record {
    metadata = record { name = raw.name; description = raw.description };
    defaults = defaults;
    profiles = profiles;
    commands = commands;
    source_path = path;
  })
