-- ===== src/Sanitizer/Spaces.antt =====
-- No match of `sensitivePattern` goes over a space: the texts on its two sides are treated apart.
use chainctl.Prelude.{
  ℕ, zero, suc, ◌+◌, ◌≤◌, ◌≡◌, refl, sym, subst, ap, ◌∙◌, inl, inr, true, none, some, List, [], ◌∷◌,
  ◌++◌, append_assoc, arith, Bool-cases, Option-cases, length, length-append, take, drop, All,
}
use chainctl.Text.{Str, codes, has_prefix, to_lower}
use chainctl.Sanitizer.{
  is_regexp_space, continues, starts_within, tail_within, rune_tail, value_length, match_word,
  match_at, pattern_words, replace_all, sanitize_text, redaction_placeholder,
}
use chainctl.Sanitizer.Matching.{NoSpace, EndsValue, rune_inside, drop_inside, length-drop_inside}

continues_apart : (n : ℕ) (s rest : Str) → EndsValue rest → continues n (s ++ rest) ≡ continues n s
unfolding continues
continues_apart zero s rest e = refl
continues_apart (suc n) [] [] e = refl
continues_apart (suc n) [] (c ∷ rest) e = ground (arith, e)
continues_apart (suc n) (c ∷ s) rest e = ground (arith, continues_apart n s rest e)

starts_apart :
    (low high : ℕ) (s rest : Str)
    → 128 ≤ low
    → EndsValue rest
    → starts_within low high (s ++ rest) ≡ starts_within low high s
unfolding starts_within
starts_apart low high [] [] least e = refl
starts_apart low high [] (c ∷ rest) least e = ground (arith, e)
starts_apart low high (c ∷ s) rest least e = refl

tail_apart :
    (n low high : ℕ) (s rest : Str)
    → 128 ≤ low
    → EndsValue rest
    → tail_within n low high (s ++ rest) ≡ tail_within n low high s
unfolding tail_within
tail_apart n low high s rest least e =
    rw (starts_apart low high s rest least e, continues_apart n s rest e) refl

rune_apart : (c : ℕ) (s rest : Str) → EndsValue rest → rune_tail c (s ++ rest) ≡ rune_tail c s
unfolding rune_tail
rune_apart c s rest e =
    rw
      (
        tail_apart 1 128 191 s rest (omega arith) e,
        tail_apart 2 160 191 s rest (omega arith) e,
        tail_apart 2 128 159 s rest (omega arith) e,
        tail_apart 2 128 191 s rest (omega arith) e,
        tail_apart 3 144 191 s rest (omega arith) e,
        tail_apart 3 128 191 s rest (omega arith) e,
        tail_apart 3 128 143 s rest (omega arith) e,
      )
      refl

value_apart :
    (limit : ℕ) (s rest : Str)
    → EndsValue rest
    → value_length limit (s ++ rest) ≡ value_length limit s
unfolding value_length
value_apart zero s rest e = refl
value_apart (suc limit) [] [] e = refl
value_apart (suc limit) [] (c ∷ rest) e = rw e refl
value_apart (suc limit) (c ∷ s) rest e =
    let inside = rune_inside c s rest e in
    rw
      (
        drop_inside (rune_tail c (s ++ rest)) s rest inside,
        value_apart limit (drop (rune_tail c (s ++ rest)) s) rest e,
        rune_apart c s rest e,
      )
      refl

value_fits : (limit : ℕ) (s : Str) → value_length limit s ≤ length s
unfolding value_length
value_fits zero s = omega arith
value_fits (suc limit) [] = omega arith
value_fits (suc limit) (c ∷ s) =
    let n = rune_tail c s in
    let inside = subst (λ m. m ≤ length s) (rune_apart c s [] tt) (rune_inside c s [] tt) in
    elim (Bool-cases (is_regexp_space c)) [
      | inl space ↦ rw space (omega arith)
      | inr other ↦
          rw other (omega (arith, value_fits limit (drop n s), length-drop_inside n s inside))
    ]

prefix_apart :
    (s p rest : Str)
    → NoSpace p
    → EndsValue rest
    → has_prefix (to_lower (s ++ rest)) p ≡ has_prefix (to_lower s) p
unfolding has_prefix to_lower
prefix_apart s [] rest clean e = refl
prefix_apart [] (b ∷ p) [] clean e = refl
prefix_apart [] (b ∷ p) (c ∷ rest) clean e = ground (arith, e, clean.0)
prefix_apart (c ∷ s) (b ∷ p) rest clean e = ground (arith, prefix_apart s p rest clean.1 e)

prefix_fits : (s p : Str) → has_prefix (to_lower s) p ≡ true → length p ≤ length s
unfolding has_prefix to_lower
prefix_fits s [] h = omega arith
prefix_fits [] (b ∷ p) h = absurd (cc h)
prefix_fits (c ∷ s) (b ∷ p) h = omega (arith, prefix_fits s p (ground (arith, h)))

-- A word of the pattern with its `=`.
abbrev WordClean : Str → Type 0
WordClean w = NoSpace (w ++ b'=' ∷ [])

match_word_apart :
    (w s rest : Str) → WordClean w → EndsValue rest → match_word w (s ++ rest) ≡ match_word w s
unfolding match_word
match_word_apart w s rest clean e = elim (Bool-cases (has_prefix (to_lower s) (w ++ b'=' ∷ []))) [
  | inr other ↦ rw (prefix_apart s (w ++ b'=' ∷ []) rest clean e, other) refl
  | inl same ↦
      let fits : length w + 1 ≤ length s =
        omega (arith, prefix_fits s (w ++ b'=' ∷ []) same, length-append w (b'=' ∷ [])) in
      rw
        (
          prefix_apart s (w ++ b'=' ∷ []) rest clean e,
          drop_inside (length w + 1) s rest fits,
          value_apart 128 (drop (length w + 1) s) rest e,
        )
        refl
]

match_at_apart :
    (words : List Str) (s rest : Str)
    → All WordClean words
    → EndsValue rest
    → match_at words (s ++ rest) ≡ match_at words s
unfolding match_at
match_at_apart [] s rest clean e = refl
match_at_apart (w ∷ words) s rest clean e =
    rw (match_word_apart w s rest clean.0 e, match_at)
      (elim (Option-cases (match_word w s)) [
        | inl none_here ↦ rw (none_here, match_at) (match_at_apart words s rest clean.1 e)
        | inr (n, here) ↦ rw (here, match_at) refl
      ])

match_word_fits : (w s : Str) (n : ℕ) → match_word w s ≡ some n → n + 1 ≤ length s
unfolding match_word
match_word_fits w s n h = elim (Bool-cases (has_prefix (to_lower s) (w ++ b'=' ∷ []))) [
  | inr other ↦ absurd (cc (rw other at h))
  | inl same ↦
      let fits = prefix_fits s (w ++ b'=' ∷ []) same in
      let wide = length-append w (b'=' ∷ []) in ground (arith, fits, wide, h, same)
]

match_at_fits : (words : List Str) (s : Str) (n : ℕ) → match_at words s ≡ some n → n + 1 ≤ length s
unfolding match_at
match_at_fits [] s n h = absurd (cc h)
match_at_fits (w ∷ words) s n h = elim (Option-cases (match_word w s)) [
  | inl none_here ↦ match_at_fits words s n (rw (none_here, match_at) at h)
  | inr (m, here) ↦ match_word_fits w s n (here ∙ rw (here, match_at) at h)
]

words_clean : All WordClean pattern_words
unfolding pattern_words codes
words_clean = ground arith

take_inside : (n : ℕ) (s rest : Str) → n ≤ length s → take n (s ++ rest) ≡ take n s
take_inside zero s rest h = refl
take_inside (suc n) [] rest h = absurd (omega arith)
take_inside (suc n) (c ∷ s) rest h = ap (◌∷◌ c) (take_inside n s rest (omega arith))

no_empty_match : match_at pattern_words [] ≡ none
unfolding match_at match_word pattern_words codes has_prefix to_lower
no_empty_match = refl

replace_all_apart :
    (skip : ℕ) (s : Str) (space : ℕ) (rest : Str)
    → is_regexp_space space ≡ true
    → skip ≤ length s
    → replace_all skip (s ++ space ∷ rest) ≡ replace_all skip s ++ space ∷ replace_all 0 rest
unfolding replace_all
replace_all_apart (suc skip) [] space rest e fits = absurd (omega arith)
replace_all_apart (suc skip) (c ∷ s) space rest e fits =
    replace_all_apart skip s space rest e (omega arith)
replace_all_apart zero [] space rest e fits =
    rw (match_at_apart pattern_words [] (space ∷ rest) words_clean e, no_empty_match, replace_all)
      refl
replace_all_apart zero (c ∷ s) space rest e fits =
    elim (Option-cases (match_at pattern_words (c ∷ s))) [
      | inl none_here ↦
          rw
            (
              match_at_apart pattern_words (c ∷ s) (space ∷ rest) words_clean e,
              none_here,
              replace_all,
            )
            (ap (◌∷◌ c) (replace_all_apart 0 s space rest e (omega arith)))
      | inr (n, here) ↦
          let fits_word = match_at_fits pattern_words (c ∷ s) n here in
          let text = c ∷ s in
          let value = drop (n + 1) text in
          let fits_value = value_fits 128 value in
          let whole = length-drop_inside (n + 1) text fits_word in
          rw
            (
              match_at_apart pattern_words text (space ∷ rest) words_clean e,
              here,
              replace_all,
              take_inside n text (space ∷ rest) (omega (arith, fits_word)),
              drop_inside (n + 1) text (space ∷ rest) fits_word,
              value_apart 128 value (space ∷ rest) e,
              replace_all_apart (n + value_length 128 value) s space rest e
                  (omega (arith, fits_value, whole, fits_word)),
            )
            (sym (
              append_assoc (take n text)
                (b'=' ∷ (redaction_placeholder ++ replace_all (n + value_length 128 value) s))
                (space ∷ replace_all 0 rest)))
    ]

-- A text is treated on both sides of a space as if the other were not there.
pub sanitize_text_apart :
    (s : Str) (space : ℕ) (rest : Str)
    → is_regexp_space space ≡ true
    → sanitize_text (s ++ space ∷ rest) ≡ sanitize_text s ++ space ∷ sanitize_text rest
unfolding sanitize_text
sanitize_text_apart s space rest e = replace_all_apart 0 s space rest e (omega arith)
