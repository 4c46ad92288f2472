-- ===== src/FilePath/Laws.antt =====
-- What `Rel` says of its two paths, and which segments a cleaned path can have.
use chainctl.Prelude.{
  ◌≡◌, refl, true, false, List, [], ◌∷◌, ◌++◌, arith, All, Bool, ◌||◌, some, Option, none,
}
use chainctl.Text.{Str, str_eq, has_prefix, split, join}
use chainctl.Text.Laws.{str_eq_iff}
use chainctl.FilePath.{
  rel_text, dot_dot, is_abs, push_segment, normalise, rev_append, parts, render, rel_parts, climb,
  rel, clean, join_path, abs,
}

-- No segment leads up.
abbrev pub NoUp : List Str → Type 0
NoUp = All (λ s. str_eq s dot_dot ≡ false)

push_segment-NoUp : (s : Str) (done : List Str) → NoUp done → NoUp (push_segment true s done)
unfolding push_segment
push_segment-NoUp s [] h = ground arith
push_segment-NoUp s (d ∷ done) h = ground arith

normalise-NoUp : (done rest : List Str) → NoUp done → NoUp (normalise true done rest)
unfolding normalise
normalise-NoUp done [] h = h
normalise-NoUp done (s ∷ rest) h =
    normalise-NoUp (push_segment true s done) rest (push_segment-NoUp s done h)

rev_append-NoUp : (xs ys : List Str) → NoUp xs → NoUp ys → NoUp (rev_append xs ys)
unfolding rev_append
rev_append-NoUp [] ys h k = k
rev_append-NoUp (x ∷ xs) ys h k = rev_append-NoUp xs (x ∷ ys) h.1 (h.0, k)

-- The segments of an absolute path have no `..`.
pub parts-NoUp : (path : Str) → is_abs path ≡ true → NoUp (parts path)
unfolding parts
parts-NoUp path h =
    let segments = split b'/' path in
    rw h (rev_append-NoUp (normalise true [] segments) [] (normalise-NoUp [] segments tt) tt)

pub is_abs-render : (segments : List Str) → is_abs (render true segments) ≡ true
unfolding is_abs render
is_abs-render segments = refl

-- Where nothing of the base is left, the target goes on from the base.
pub rel_parts-prefix :
    (base target : List Str)
    → (rel_parts base target).0 ≡ []
    → target ≡ base ++ (rel_parts base target).1
unfolding rel_parts
rel_parts-prefix [] target h = refl
rel_parts-prefix (b ∷ base) [] h = cc
rel_parts-prefix (b ∷ base) (t ∷ target) h =
    ground (arith, str_eq_iff b t, rel_parts-prefix base target)

-- A path that `Rel` gives and that leaves the base starts with `..`.
abbrev pub goes_up : Str → Bool
goes_up r = str_eq r dot_dot || has_prefix r (b'.' ∷ b'.' ∷ b'/' ∷ [])

render_up : (segments : List Str) → goes_up (render false (dot_dot ∷ segments)) ≡ true
unfolding render join str_eq has_prefix
render_up [] = refl
render_up (s ∷ segments) = refl

rel_text-nil :
    (left rest : List Str) (r : Str)
    → rel_text (left, rest) ≡ some r
    → goes_up r ≡ false
    → left ≡ []
unfolding rel_text
rel_text-nil [] rest r h stays = refl
rel_text-nil (b ∷ base) rest r h stays = absurd (ground (arith, render_up (climb base rest)))

-- A relative path that does not escape goes on from the base.
pub rel-inside :
    (base target r : Str)
    → rel base target ≡ some r
    → goes_up r ≡ false
    → parts target ≡ parts base ++ (rel_parts (parts base) (parts target)).1
unfolding rel
rel-inside base target r h stays = rel_parts-prefix (parts base) (parts target) (
    rel_text-nil (rel_parts (parts base) (parts target)).0 (rel_parts (parts base) (parts target)).1
      r (ground arith) stays)

-- The working directory, where it can be read, is an absolute path.
abbrev pub IsAbsWd : Option Str → Type 0
IsAbsWd none = Unit
IsAbsWd (some d) = is_abs d ≡ true

pub is_abs-clean : (path : Str) → is_abs path ≡ true → is_abs (clean path) ≡ true
unfolding clean is_abs
is_abs-clean path h = rw h refl

pub is_abs-join_path : (a b : Str) → is_abs a ≡ true → is_abs (join_path a b) ≡ true
unfolding join_path is_abs
is_abs-join_path [] b h = absurd (cc h)
is_abs-join_path (c ∷ a) [] h = is_abs-clean (c ∷ a) h
is_abs-join_path (c ∷ a) (d ∷ b) h = is_abs-clean (c ∷ a ++ b'/' ∷ d ∷ b) h

pub is_abs-abs :
    (wd : Option Str) (root base : Str) → IsAbsWd wd → abs wd root ≡ some base → is_abs base ≡ true
unfolding abs
is_abs-abs none root base w h = ground (arith, is_abs-clean root)
is_abs-abs (some d) root base w h = ground (arith, is_abs-clean root, is_abs-join_path d root)
