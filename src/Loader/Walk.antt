-- ===== src/Loader/Walk.antt =====
-- internal/config/cobra_catalog.go: the walk over a tree of commands that fills the catalog. What
-- is read of a cobra command is its data here.
use chainctl.Prelude.{
  ◌≡◌, refl, Bool, true, false, ◌||◌, none, some, List, [], ◌∷◌, ◌++◌, arith, if◌then◌else◌,
}
use chainctl.Text.{Str, codes, str_eq, join}
use chainctl.Dict.{Dict, lookup, insert, lookup-insert}
use chainctl.Loader.{
  FlagType, flag_string, flag_bool, flag_string_slice, Catalog, is_command_supported,
}

-- The name of a flag and the type that its value names.
abbrev pub DeclaredFlag : Type 0
DeclaredFlag = Str × Str

-- Use, the inherited flags and the others, Hidden, and the commands below.
mutual
  pub data Command : Type 0 where
    command : Str → List DeclaredFlag → List DeclaredFlag → Bool → Commands → Command

  pub data Commands : Type 0 where
    no_commands : Commands
    and_command : Command → Commands → Commands

unfoldable pub flag_type_of : Str → FlagType
flag_type_of kind =
    if str_eq kind (codes "bool")
    then flag_bool
    else if str_eq kind (codes "stringSlice") || str_eq kind (codes "stringArray")
    then flag_string_slice
    else flag_string

-- One VisitAll.
unfoldable pub visit_flags : List DeclaredFlag → Dict FlagType → Dict FlagType
visit_flags [] flags = flags
visit_flags ((name, kind) ∷ rest) flags = visit_flags rest (insert name (flag_type_of kind) flags)

-- The first command that has a flag says what its type is.
unfoldable pub index_flags : Dict FlagType → Dict FlagType → Dict FlagType
index_flags [] index = index
index_flags ((name, type) ∷ rest) index =
    index_flags rest (elim (lookup name index) [ none ↦ insert name type index | some _ ↦ index ])

unfoldable pub enter_command : Str → Dict FlagType → Catalog → Catalog
enter_command path flags c = record {
  commands = insert path flags c.commands;
  index = index_flags flags c.index;
  order = c.order ++ path ∷ [];
}

abbrev is_hidden : Command → Bool
is_hidden (command use_line inherited own hidden children) = hidden

unfoldable mutual
  pub traverse_commands : Command → List Str → Catalog → Catalog
  traverse_commands (command use_line inherited own hidden children) parents c =
      traverse_children children (parents ++ use_line ∷ []) (
        enter_command (join (codes " ") (parents ++ use_line ∷ []))
          (visit_flags own (visit_flags inherited [])) c)

  pub traverse_children : Commands → List Str → Catalog → Catalog
  traverse_children no_commands path c = c
  traverse_children (and_command child rest) path c =
      let walked = traverse_commands child path c in
      traverse_children rest path (if is_hidden child then c else walked)

unfoldable pub new_cobra_catalog : Command → Catalog
new_cobra_catalog root =
    traverse_commands root [] (record { commands = []; index = []; order = [] })

unfoldable pub is_entered : Str → List Str → Bool
is_entered path [] = false
is_entered path (entered ∷ order) = str_eq entered path || is_entered path order

-- The supported commands are those in the order of the walk.
abbrev pub IsListed : Catalog → Type 0
IsListed c = (path : Str) → is_command_supported c path ≡ is_entered path c.order

is_entered_last :
    (path last : Str) (order : List Str)
    → is_entered path (order ++ last ∷ []) ≡ is_entered path order || str_eq last path
unfolding is_entered
is_entered_last path last [] = ground arith
is_entered_last path last (entered ∷ order) = ground (arith, is_entered_last path last order)

enter_command-IsListed :
    (path : Str) (flags : Dict FlagType) (c : Catalog)
    → IsListed c
    → IsListed (enter_command path flags c)
unfolding enter_command is_command_supported
enter_command-IsListed path flags c listed other = ground (
  arith,
  is_entered_last other path c.order,
  lookup-insert path other flags c.commands,
  listed other,
)

chosen-IsListed :
    (b : Bool) (c d : Catalog) → IsListed c → IsListed d → IsListed (if b then c else d)
chosen-IsListed true c d in_c in_d = in_c
chosen-IsListed false c d in_c in_d = in_d

nothing-IsListed : IsListed (record { commands = []; index = []; order = [] })
unfolding is_command_supported lookup is_entered
nothing-IsListed path = refl

mutual
  unfolding traverse_commands traverse_children

  traverse_commands-IsListed :
      (cmd : Command) (parents : List Str) (c : Catalog)
      → IsListed c
      → IsListed (traverse_commands cmd parents c)
  traverse_commands-IsListed (command use_line inherited own hidden children) parents c listed =
      traverse_children-IsListed children (parents ++ use_line ∷ []) _
        (enter_command-IsListed _ _ c listed)

  traverse_children-IsListed :
      (children : Commands) (path : List Str) (c : Catalog)
      → IsListed c
      → IsListed (traverse_children children path c)
  traverse_children-IsListed no_commands path c listed = listed
  traverse_children-IsListed (and_command child rest) path c listed =
      traverse_children-IsListed rest path _ (
        chosen-IsListed (is_hidden child) c _ listed
          (traverse_commands-IsListed child path c listed))

-- A command is supported exactly where the walk has entered its path.
pub new_cobra_catalog-IsListed : (root : Command) → IsListed (new_cobra_catalog root)
unfolding new_cobra_catalog
new_cobra_catalog-IsListed root =
    traverse_commands-IsListed root [] (record { commands = []; index = []; order = [] })
      nothing-IsListed
