-- ===== src/Config/Summary.antt =====
-- pkg/config/summary.go: the summary of a resolved invocation. What tabwriter and the JSON encoder
-- make of the cells and of the payload is a parameter.
use chainctl.Prelude.{◌||◌, Option, none, some, List, [], ◌∷◌, ◌++◌, map, if◌then◌else◌, is_empty}
use chainctl.Result.{Result, ok, err}
use chainctl.Text.{Str, codes, str_eq, to_lower, join}
use chainctl.Text.Sort.{sort_strings}
use chainctl.Dict.{lookup}
use chainctl.Config.{
  Value, bool_value, string_value, list_value, FlagValue, FlagSet, ResolvedInvocation, source_text,
}
use chainctl.CommandLog.{sprint}

pub data Error : Type 0 where
  invocation_missing : Error
  unsupported_format flush_failed marshal_failed : Str → Error

-- A missing list is one that the object leaves out.
pub record Payload : Type 0 where
  pub command_path : Str
  pub source_path : Str
  pub flags : List (Str × FlagValue)
  pub profiles : Option (List Str)
  pub overrides : Option (List Str)
  pub warnings : Option (List Str)

-- The rows of cells that a tabwriter aligns, and the indented JSON of a payload.
pub record Writers : Type 0 where
  pub align : List (List Str) → Result Str Str
  pub encode : Payload → Result Str Str

-- `formatFlagValue`, as %v prints it
unfoldable pub format_flag_value : Value → Str
format_flag_value (list_value vs) = join (codes ",") vs
format_flag_value (bool_value b) = sprint (bool_value b)
format_flag_value (string_value s) = s

abbrev names_of : FlagSet → List Str
names_of [] = []
names_of ((name, value) ∷ flags) = name ∷ names_of flags

-- The values at the names, one after another.
unfoldable pub entries_at : List Str → FlagSet → List (Str × FlagValue)
entries_at [] flags = []
entries_at (name ∷ names) flags =
    let rest = entries_at names flags in
    elim (lookup name flags) [ none ↦ rest | some value ↦ (name, value) ∷ rest ]

unfoldable pub sorted_entries : FlagSet → List (Str × FlagValue)
sorted_entries flags = entries_at (sort_strings (names_of flags)) flags

abbrev row_of : Str × FlagValue → List Str
row_of (name, value) = name ∷ format_flag_value value.value ∷ source_text value.source ∷ []

abbrev listed_row : Str → List Str → List (List Str)
listed_row label [] = []
listed_row label (v ∷ vs) = (label ∷ join (codes ", ") (v ∷ vs) ∷ []) ∷ []

unfoldable pub summary_rows : ResolvedInvocation → List (List Str)
summary_rows r =
    (codes "Command:" ∷ r.command_path ∷ [])
    ∷ ((if is_empty r.source_path then [] else (codes "Source:" ∷ r.source_path ∷ []) ∷ [])
        ++ (listed_row (codes "Profiles:") r.profiles
            ++ (listed_row (codes "Overrides:") r.overrides
                ++ (listed_row (codes "Warnings:") r.warnings
                    ++ ([]
                        ∷ (codes "Flag" ∷ codes "Value" ∷ codes "Source" ∷ [])
                        ∷ map row_of (sorted_entries r.flags))))))

abbrev unless_none : List Str → Option (List Str)
unless_none [] = none
unless_none (v ∷ vs) = some (v ∷ vs)

unfoldable pub summary_payload : ResolvedInvocation → Payload
summary_payload r = record {
  command_path = r.command_path;
  source_path = r.source_path;
  flags = sorted_entries r.flags;
  profiles = unless_none r.profiles;
  overrides = unless_none r.overrides;
  warnings = unless_none r.warnings;
}

abbrev flushed : Result Str Str → Result Error Str
flushed (ok text) = ok text
flushed (err text) = err (flush_failed text)

abbrev marshalled : Result Str Str → Result Error Str
marshalled (ok text) = ok text
marshalled (err text) = err (marshal_failed text)

unfoldable pub format_summary_text : Writers → ResolvedInvocation → Result Error Str
format_summary_text writers r = flushed (writers.align (summary_rows r))

unfoldable pub format_summary_json : Writers → ResolvedInvocation → Result Error Str
format_summary_json writers r = marshalled (writers.encode (summary_payload r))

unfoldable pub format_summary : Writers → Option ResolvedInvocation → Str → Result Error Str
format_summary writers none format = err invocation_missing
format_summary writers (some r) format =
    let wanted = to_lower format in
    if is_empty wanted || str_eq wanted (codes "text")
    then format_summary_text writers r
    else if str_eq wanted (codes "json")
    then format_summary_json writers r
    else err (unsupported_format format)
