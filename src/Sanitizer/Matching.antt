-- ===== src/Sanitizer/Matching.antt =====
-- How `sensitivePattern` matches: the value it takes and the text behind a word.
use chainctl.Prelude.{
  ℕ, zero, suc, ◌+◌, ◌≤◌, ◌<◌, ◌&&◌, inl, inr, Bool-cases, ◌≡◌, refl, ap, true, false, List, [],
  ◌∷◌, ◌++◌, arith, length, take, drop, any, All,
}
use chainctl.Text.{Str, str_eq, has_prefix, lower, to_lower}
use chainctl.Text.Laws.{Without}
use native.Mathlib.Numerals.{add-one}
use chainctl.Sanitizer.{
  is_regexp_space, continues, starts_within, tail_within, rune_tail, value_length, replace_all,
}

-- A value that the pattern takes whole: no space in it.
abbrev pub NoSpace : Str → Type 0
NoSpace = All (λ c. is_regexp_space c ≡ false)

-- The text ends, or goes on with a space.
abbrev pub EndsValue : Str → Type 0
EndsValue [] = Unit
EndsValue (c ∷ _) = is_regexp_space c ≡ true

pub continues_inside :
    (n : ℕ) (s rest : Str) → EndsValue rest → continues n (s ++ rest) ≡ true → n ≤ length s
unfolding continues
continues_inside zero s rest e h = omega arith
continues_inside (suc n) [] [] e h = absurd (cc h)
continues_inside (suc n) [] (c ∷ rest) e h = absurd (ground (arith, e, h))
continues_inside (suc n) (c ∷ s) rest e h =
    omega (arith, continues_inside n s rest e (ground (arith, h)))

tail_inside :
    (n low high : ℕ) (s rest : Str) → EndsValue rest → tail_within n low high (s ++ rest) ≤ length s
unfolding tail_within
tail_inside n low high s rest e =
    elim (Bool-cases (starts_within low high (s ++ rest) && continues n (s ++ rest))) [
      | inl well ↦ rw well (continues_inside n s rest e (ground (arith, well)))
      | inr ill ↦ rw ill (omega arith)
    ]

-- A rune does not reach behind the value.
pub rune_inside : (c : ℕ) (s rest : Str) → EndsValue rest → rune_tail c (s ++ rest) ≤ length s
unfolding rune_tail
rune_inside c s rest e = ground (
  arith,
  tail_inside 1 128 191 s rest e,
  tail_inside 2 160 191 s rest e,
  tail_inside 2 128 159 s rest e,
  tail_inside 2 128 191 s rest e,
  tail_inside 3 144 191 s rest e,
  tail_inside 3 128 191 s rest e,
  tail_inside 3 128 143 s rest e,
)

pub drop_inside : (n : ℕ) (s rest : Str) → n ≤ length s → drop n (s ++ rest) ≡ drop n s ++ rest
drop_inside zero s rest h = refl
drop_inside (suc n) [] rest h = absurd (omega arith)
drop_inside (suc n) (c ∷ s) rest h = drop_inside n s rest (omega arith)

drop-NoSpace : (n : ℕ) (s : Str) → NoSpace s → NoSpace (drop n s)
drop-NoSpace zero s h = h
drop-NoSpace (suc n) [] h = tt
drop-NoSpace (suc n) (c ∷ s) h = drop-NoSpace n s h.1

pub length-drop_inside : (n : ℕ) (s : Str) → n ≤ length s → n + length (drop n s) ≡ length s
length-drop_inside zero s h = omega arith
length-drop_inside (suc n) [] h = absurd (omega arith)
length-drop_inside (suc n) (c ∷ s) h = omega (arith, length-drop_inside n s (omega arith))

pub value_length-append :
    (limit : ℕ) (value rest : Str)
    → NoSpace value
    → EndsValue rest
    → length value ≤ limit
    → value_length limit (value ++ rest) ≡ length value
unfolding value_length
value_length-append zero [] rest h e fits = refl
value_length-append (suc limit) [] [] h e fits = refl
value_length-append (suc limit) [] (c ∷ rest) h e fits = rw e refl
value_length-append zero (c ∷ value) rest h e fits = absurd (omega arith)
value_length-append (suc limit) (c ∷ value) rest h e fits =
    let n = rune_tail c (value ++ rest) in
    let inside = rune_inside c value rest e in
    let whole = length-drop_inside n value inside in
    rw
      (
        h.0,
        drop_inside n value rest inside,
        value_length-append limit (drop n value) rest (drop-NoSpace n value h.1) e
            (omega (arith, whole)),
      )
      (omega (arith, whole))

-- No space and no byte of a longer sequence.
abbrev pub IsAscii : Str → Type 0
IsAscii = All (λ c. (is_regexp_space c ≡ false) × (c < 128))

rune_tail-ascii : (c : ℕ) (s : Str) → c < 128 → rune_tail c s ≡ 0
unfolding rune_tail
rune_tail-ascii c s h = ground arith

pub value_length_limit :
    (limit : ℕ) (value rest : Str)
    → IsAscii value
    → length value ≡ limit
    → value_length limit (value ++ rest) ≡ limit
unfolding value_length
value_length_limit zero value rest h e = refl
value_length_limit (suc limit) [] rest h e = absurd (omega arith)
value_length_limit (suc limit) (c ∷ value) rest h e =
    rw (h.0.0, rune_tail-ascii c (value ++ rest) h.0.1)
      (omega (arith, value_length_limit limit value rest h.1 (omega arith)))

pub replace_all_skip : (s rest : Str) → replace_all (length s) (s ++ rest) ≡ replace_all 0 rest
unfolding replace_all
replace_all_skip [] rest = refl
replace_all_skip (c ∷ s) rest = replace_all_skip s rest

pub has_prefix_word :
    (w w' : Str) (s : Str)
    → Without b'=' w
    → Without b'=' w'
    → has_prefix (w ++ b'=' ∷ s) (w' ++ b'=' ∷ []) ≡ true
    → w' ≡ w
unfolding has_prefix
has_prefix_word [] [] s h k p = refl
has_prefix_word [] (b ∷ w') s h k p = ground (arith, k.0)
has_prefix_word (a ∷ w) [] s h k p = ground (arith, h.0)
has_prefix_word (a ∷ w) (b ∷ w') s h k p = ground (arith, has_prefix_word w w' s h.1 k.1)

pub has_prefix_cons : (w s : Str) → has_prefix (w ++ b'=' ∷ s) (w ++ b'=' ∷ []) ≡ true
unfolding has_prefix
has_prefix_cons [] [] = refl
has_prefix_cons [] (_ ∷ _) = refl
has_prefix_cons (a ∷ w) s = ground (arith, has_prefix_cons w s)

pub drop_past : (w : Str) (c : ℕ) (s : Str) → drop (length w + 1) (w ++ c ∷ s) ≡ s
drop_past [] c s = refl
drop_past (a ∷ w) c s = rw add-one (rw add-one at (drop_past w c s))

pub take_front : (w s : Str) → take (length w) (w ++ s) ≡ w
take_front [] s = refl
take_front (a ∷ w) s = ap (◌∷◌ a) (take_front w s)

pub length-to_lower : (s : Str) → length (to_lower s) ≡ length s
unfolding to_lower
length-to_lower [] = refl
length-to_lower (c ∷ s) = ap suc (length-to_lower s)

pub to_lower-assignment : (k s : Str) → to_lower (k ++ b'=' ∷ s) ≡ to_lower k ++ b'=' ∷ to_lower s
unfolding to_lower
to_lower-assignment [] s = refl
to_lower-assignment (c ∷ k) s = ap (◌∷◌ (lower c)) (to_lower-assignment k s)

-- The text starts with a word of the list in any case, a `=` and a value.
pub record IsAssignment (words : List Str) (k : Str) (width : ℕ) (s : Str) : Type 0 where
  pub known : any (str_eq (to_lower k)) words ≡ true
  pub plain : Without b'=' (to_lower k)
  pub plain_words : All (Without b'=') words
  pub width_is : value_length 128 s ≡ suc width
