-- ===== src/Sanitizer/Output.antt =====
-- What `SanitizeText` hides in free text.
use chainctl.Prelude.{
  ℕ, suc, ◌+◌, ◌<◌, ◌≡◌, refl, sym, ap, ◌∙◌, inl, inr, true, false, none, some, List, [], ◌∷◌, ◌++◌,
  append_assoc, arith, if◌then◌else◌, Bool-cases, length, length-append, any, All,
}
use chainctl.Text.{Str, str_eq, has_prefix, to_lower}
use chainctl.Text.Laws.{str_eq_iff, Without}
use chainctl.Sanitizer.{
  match_word, sanitize_text, redaction_placeholder, pattern_words, value_length, match_at,
  replace_all,
}
use chainctl.Sanitizer.Matching.{
  NoSpace, IsAscii, EndsValue, value_length-append, value_length_limit, replace_all_skip,
  has_prefix_word, has_prefix_cons, drop_past, take_front, length-to_lower, to_lower-assignment,
  IsAssignment,
}

pub match_word_assignment :
    (w k s : Str) (width : ℕ)
    → Without b'=' (to_lower k)
    → Without b'=' w
    → value_length 128 s ≡ suc width
    → match_word w (k ++ b'=' ∷ s) ≡ (if str_eq (to_lower k) w then some (length k) else none)
unfolding match_word
match_word_assignment w k s width plain plain_w e = elim (Bool-cases (str_eq (to_lower k) w)) [
  | inl same ↦
      let is_w = (str_eq_iff (to_lower k) w).0 same in
      rw (same, ← is_w, length-to_lower, drop_past, to_lower-assignment, has_prefix_cons, e)
        (ground arith)
  | inr other ↦ elim (Bool-cases (has_prefix (to_lower k ++ b'=' ∷ to_lower s) (w ++ b'=' ∷ []))) [
    | inl hit ↦ absurd (
        cc (
          other,
          (str_eq_iff (to_lower k) w).1
              (sym (has_prefix_word (to_lower k) w (to_lower s) plain plain_w hit)),
        ))
    | inr miss ↦ rw (other, to_lower-assignment, miss) refl
  ]
]

match_at_assignment :
    (words : List Str) (k s : Str) (width : ℕ)
    → IsAssignment words k width s
    → match_at words (k ++ b'=' ∷ s) ≡ some (length k)
unfolding match_at any
match_at_assignment [] k s width a = absurd (cc a.known)
match_at_assignment (w ∷ words) k s width a =
    rw (match_word_assignment w k s width a.plain a.plain_words.0 a.width_is, match_at)
      (elim (Bool-cases (str_eq (to_lower k) w)) [
        | inl same ↦ rw same refl
        | inr other ↦ rw other (
            match_at_assignment words k s width (record {
              known = rw other at a.known;
              plain = a.plain;
              plain_words = a.plain_words.1;
              width_is = a.width_is;
            }))
      ])

pub words_plain : All (Without b'=') pattern_words
unfolding pattern_words
words_plain = ground arith

-- A byte other than `=` in a text without matches.
any-Without :
    (words : List Str) (w : Str)
    → any (str_eq w) words ≡ true
    → All (Without b'=') words
    → Without b'=' w
unfolding any
any-Without [] w h p = absurd (cc h)
any-Without (x ∷ words) w h p = elim (Bool-cases (str_eq w x)) [
  | inl same ↦ rw ((str_eq_iff w x).0 same) p.0
  | inr other ↦ any-Without words w (rw other at h) p.1
]

skip_value :
    (n : ℕ) (k value rest : Str)
    → n ≡ length (k ++ b'=' ∷ value)
    → replace_all n (k ++ b'=' ∷ (value ++ rest)) ≡ replace_all 0 rest
skip_value n k value rest e =
    rw (e, ← append_assoc k (b'=' ∷ value) rest) (replace_all_skip (k ++ b'=' ∷ value) rest)

replace_assignment :
    (c : ℕ) (k value rest : Str) (width : ℕ)
    → any (str_eq (to_lower (c ∷ k))) pattern_words ≡ true
    → length value ≡ suc width
    → value_length 128 (value ++ rest) ≡ suc width
    → sanitize_text ((c ∷ k) ++ b'=' ∷ (value ++ rest))
      ≡ (c ∷ k) ++ b'=' ∷ (redaction_placeholder ++ sanitize_text rest)
unfolding sanitize_text replace_all
replace_assignment c k value rest width known len e =
    let a : IsAssignment pattern_words (c ∷ k) width (value ++ rest) = record {
      known = known;
      plain = any-Without pattern_words (to_lower (c ∷ k)) known words_plain;
      plain_words = words_plain;
      width_is = e;
    } in
    rw (match_at_assignment pattern_words (c ∷ k) (value ++ rest) width a, replace_all)
      (cc (
        take_front k (b'=' ∷ (value ++ rest)),
        drop_past (c ∷ k) b'=' (value ++ rest),
        e,
        skip_value (suc (length k) + suc width) k value rest
            (omega (arith, length-append {0} k (b'=' ∷ value), len)),
      ))

-- An assignment at the start of the text.
pub sanitize_assignment :
    (c v : ℕ) (k value rest : Str)
    → any (str_eq (to_lower (c ∷ k))) pattern_words ≡ true
    → NoSpace (v ∷ value)
    → EndsValue rest
    → length value < 128
    → sanitize_text ((c ∷ k) ++ b'=' ∷ ((v ∷ value) ++ rest))
      ≡ (c ∷ k) ++ b'=' ∷ (redaction_placeholder ++ sanitize_text rest)
sanitize_assignment c v k value rest known clean ends fits =
    replace_assignment c k (v ∷ value) rest (length value) known refl
      (value_length-append 128 (v ∷ value) rest clean ends fits)

has_prefix_assignment : (s w : Str) → Without b'=' s → has_prefix s (w ++ b'=' ∷ []) ≡ false
unfolding has_prefix
has_prefix_assignment [] [] h = refl
has_prefix_assignment [] (b ∷ w) h = refl
has_prefix_assignment (c ∷ s) [] h = ground (arith, h.0)
has_prefix_assignment (c ∷ s) (b ∷ w) h = ground (arith, has_prefix_assignment s w h.1)

pub to_lower-Without : (s : Str) → Without b'=' s → Without b'=' (to_lower s)
unfolding to_lower
to_lower-Without [] h = tt
to_lower-Without (c ∷ s) h = (ground (arith, h.0), to_lower-Without s h.1)

no_prefix-Without : (w s : Str) → Without b'=' s → has_prefix (to_lower s) (w ++ b'=' ∷ []) ≡ false
no_prefix-Without w s h = has_prefix_assignment (to_lower s) w (to_lower-Without s h)

no_word-Without :
    (words : List Str) (s : Str)
    → Without b'=' s
    → All (Without b'=') words
    → match_at words s ≡ none
unfolding match_at match_word
no_word-Without [] s plain p = refl
no_word-Without (w ∷ words) s plain p =
    ground (arith, no_prefix-Without w s plain, no_word-Without words s plain p.1)

-- A text without a `=` is logged as it is.
sanitize_text_plain : (s : Str) → Without b'=' s → sanitize_text s ≡ s
unfolding sanitize_text replace_all
sanitize_text_plain [] h = refl
sanitize_text_plain (c ∷ s) h =
    rw (no_word-Without pattern_words (c ∷ s) h words_plain, replace_all)
      (ap (◌∷◌ c) (sanitize_text_plain s h.1))

-- Behind a word of the pattern and a `=`, of a value whose first 128 bytes are ASCII and no spaces
-- only these are replaced: the rest of the secret, where it has no `=`, is logged as it is.
pub sanitize_text_leaks_long_value :
    (c : ℕ) (k front tail : Str)
    → any (str_eq (to_lower (c ∷ k))) pattern_words ≡ true
    → IsAscii front
    → length front ≡ 128
    → Without b'=' tail
    → sanitize_text ((c ∷ k) ++ b'=' ∷ (front ++ tail))
      ≡ (c ∷ k) ++ b'=' ∷ (redaction_placeholder ++ tail)
sanitize_text_leaks_long_value c k front tail known clean len plain =
    replace_assignment c k front tail 127 known len (value_length_limit 128 front tail clean len)
    ∙ rw (sanitize_text_plain tail plain) refl
