-- ===== src/FilePath.antt =====
-- The functions of Go's path/filepath that the program calls, on Unix: `Clean`, `Join`, `IsAbs`,
-- `Abs`, `Dir` and `Rel`. A path is read as its segments between slashes.
pub mod Laws
use chainctl.Prelude.{
  Bool, true, false, not, ◌&&◌, ◌||◌, Option, none, some, List, [], ◌∷◌, ◌++◌, ◌==◌, if◌then◌else◌,
  is_empty,
}
use chainctl.Result.{Result, ok, err}
use chainctl.Text.{Str, codes, str_eq, split, join, cut_last}

abbrev pub dot : Str
dot = b'.' ∷ []

abbrev pub dot_dot : Str
dot_dot = b'.' ∷ b'.' ∷ []

-- filepath.IsAbs(path)
unfoldable pub is_abs : Str → Bool
is_abs [] = false
is_abs (c ∷ _) = c == b'/'

-- A `..` drops the segment before it. At the start it stays, in a path that is not rooted.
unfoldable pub up : Bool → List Str → List Str
up rooted [] = if rooted then [] else dot_dot ∷ []
up rooted (s ∷ done) = if str_eq s dot_dot then dot_dot ∷ s ∷ done else done

-- One segment, onto the segments that stand before it, the last one first.
unfoldable pub push_segment : Bool → Str → List Str → List Str
unfolding up
push_segment rooted s done =
    if is_empty s || str_eq s dot
    then done
    else if str_eq s dot_dot
    then up rooted done
    else s ∷ done

unfoldable pub normalise : Bool → List Str → List Str → List Str
normalise rooted done [] = done
normalise rooted done (s ∷ rest) = normalise rooted (push_segment rooted s done) rest

unfoldable pub rev_append : List Str → List Str → List Str
rev_append [] ys = ys
rev_append (x ∷ xs) ys = rev_append xs (x ∷ ys)

-- The segments of the cleaned path.
unfoldable pub parts : Str → List Str
unfolding normalise rev_append
parts path = rev_append (normalise (is_abs path) [] (split b'/' path)) []

unfoldable pub render : Bool → List Str → Str
render true segments = b'/' ∷ join (b'/' ∷ []) segments
render false [] = dot
render false (s ∷ segments) = join (b'/' ∷ []) (s ∷ segments)

-- filepath.Clean(path)
unfoldable pub clean : Str → Str
unfolding parts render
clean path = render (is_abs path) (parts path)

-- filepath.Join(a, b): an empty element is ignored.
unfoldable pub join_path : Str → Str → Str
join_path [] [] = []
join_path [] (c ∷ b) = clean (c ∷ b)
join_path (c ∷ a) [] = clean (c ∷ a)
join_path (c ∷ a) (d ∷ b) = clean (c ∷ a ++ b'/' ∷ d ∷ b)

-- filepath.Abs(path) where the working directory is `wd`, `none` if it cannot be read
unfoldable pub abs : Option Str → Str → Option Str
abs wd path =
    if is_abs path
    then some (clean path)
    else elim wd [ none ↦ none | some dir ↦ some (join_path dir path) ]

-- filepath.Dir(path)
unfoldable pub dir : Str → Str
dir path = elim (cut_last b'/' path) [ none ↦ dot | some (before, _) ↦ clean (before ++ b'/' ∷ []) ]

-- A `..` for each segment.
unfoldable pub climb : List Str → List Str → List Str
climb [] rest = rest
climb (_ ∷ base) rest = dot_dot ∷ climb base rest

-- The segments that lead from `base` to `target`, with the segments of `base` that they leave.
unfoldable pub rel_parts : List Str → List Str → List Str × List Str
rel_parts [] target = ([], target)
rel_parts (b ∷ base) [] = (b ∷ base, [])
rel_parts (b ∷ base) (t ∷ target) =
    let inner = rel_parts base target in if str_eq b t then inner else (b ∷ base, t ∷ target)

abbrev pub starts_up : List Str → Bool
starts_up [] = false
starts_up (s ∷ _) = str_eq s dot_dot

rel_text : List Str × List Str → Option Str
unfolding render climb
rel_text (left, rest) = if starts_up left then none else some (render false (climb left rest))

-- filepath.Rel(base, target), `none` for its error
unfoldable pub rel : Str → Str → Option Str
unfolding rel_text rel_parts
rel base target =
    if is_abs base && not (is_abs target) || not (is_abs base) && is_abs target
    then none
    else rel_text (rel_parts (parts base) (parts target))
