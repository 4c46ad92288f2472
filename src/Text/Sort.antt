-- ===== src/Text/Sort.antt =====
-- sort.Strings: the order of strings is that of their bytes.
use chainctl.Prelude.{Bool, true, false, ◌&&◌, ◌||◌, List, [], ◌∷◌, ltb, ◌==◌, if◌then◌else◌}
use chainctl.Text.{Str}

-- s <= t
unfoldable pub str_leb : Str → Str → Bool
str_leb [] t = true
str_leb (a ∷ s) [] = false
str_leb (a ∷ s) (b ∷ t) = ltb a b || (a == b && str_leb s t)

unfoldable pub place : Str → List Str → List Str
unfolding str_leb
place s [] = s ∷ []
place s (t ∷ ts) = let rest = place s ts in if str_leb s t then s ∷ t ∷ ts else t ∷ rest

-- sort.Strings(names)
unfoldable pub sort_strings : List Str → List Str
unfolding place
sort_strings [] = []
sort_strings (s ∷ ss) = place s (sort_strings ss)
