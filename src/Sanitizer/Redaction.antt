-- ===== src/Sanitizer/Redaction.antt =====
-- What `SanitizeText` hides, wherever in a text it stands.
use chainctl.Prelude.{
  ℕ, suc, ◌<◌, ◌≡◌, ◌≢◌, refl, sym, ap, ◌∙◌, subst, inl, inr, Bool, true, false, ◌||◌, none, List,
  [], ◌∷◌, ◌++◌, append_assoc, arith, Bool-cases, length, any, All, All-append,
}
use chainctl.Text.{Str, str_eq, to_lower, codes, lower}
use chainctl.Text.Laws.{str_eq_iff, Without}
use chainctl.Sanitizer.{
  match_at, value_length, replace_all, is_regexp_space, sanitize_text, redaction_placeholder,
  pattern_words,
}
use chainctl.Sanitizer.Matching.{NoSpace, EndsValue, value_length-append}
use chainctl.Sanitizer.Output.{
  match_word_assignment, words_plain, to_lower-Without, sanitize_assignment,
}
use chainctl.Sanitizer.Spaces.{sanitize_text_apart}

-- The word stands at the end of the other, and is not all of it.
unfoldable ends_with : Str → Str → Bool
unfolding str_eq
ends_with word [] = false
ends_with word (c ∷ s) = str_eq s word || ends_with word s

ends_with-append : (c : ℕ) (s word : Str) → ends_with word (c ∷ (s ++ word)) ≡ true
unfolding ends_with
ends_with-append c [] word = ground (arith, str_eq_iff word word)
ends_with-append c (d ∷ s) word = ground (arith, ends_with-append d s word)

-- No word of the pattern ends another.
words_apart : All (λ word. All (λ other. ends_with word other ≡ false) pattern_words) pattern_words
unfolding ends_with pattern_words codes
words_apart = ground arith

any-All :
    (P : Str → Type 0) (words : List Str) (w : Str)
    → any (str_eq w) words ≡ true
    → All P words
    → P w
unfolding any
any-All P [] w h p = absurd (cc h)
any-All P (x ∷ words) w h p = elim (Bool-cases (str_eq w x)) [
  | inl same ↦ subst P (sym ((str_eq_iff w x).0 same)) p.0
  | inr other ↦ any-All P words w (rw other at h) p.1
]

to_lower-append : (s t : Str) → to_lower (s ++ t) ≡ to_lower s ++ to_lower t
unfolding to_lower
to_lower-append [] t = refl
to_lower-append (c ∷ s) t = ap (◌∷◌ (lower c)) (to_lower-append s t)

to_lower-longer :
    (d : ℕ) (lead k : Str) → to_lower ((d ∷ lead) ++ k) ≡ lower d ∷ (to_lower lead ++ to_lower k)
unfolding to_lower
to_lower-longer d lead k = ap (◌∷◌ (lower d)) (to_lower-append lead k)

-- A word of the pattern with a text in front is no word of the pattern.
longer_word :
    (d : ℕ) (lead k w : Str)
    → any (str_eq (to_lower k)) pattern_words ≡ true
    → ends_with (to_lower k) w ≡ false
    → str_eq (to_lower ((d ∷ lead) ++ k)) w ≡ false
longer_word d lead k w known apart = elim (Bool-cases (str_eq (to_lower ((d ∷ lead) ++ k)) w)) [
  | inr other ↦ other
  | inl same ↦
      let is = (str_eq_iff (to_lower ((d ∷ lead) ++ k)) w).0 same in
      let longer = ap (ends_with (to_lower k)) (sym is ∙ to_lower-longer d lead k) in
      let whole = ends_with-append (lower d) (to_lower lead) (to_lower k) in
      absurd (cc (sym apart ∙ longer ∙ whole))
]

match_at_lead :
    (words : List Str) (d : ℕ) (lead k s : Str) (width : ℕ)
    → any (str_eq (to_lower k)) pattern_words ≡ true
    → All (λ other. ends_with (to_lower k) other ≡ false) words
    → All (Without b'=') words
    → Without b'=' (to_lower ((d ∷ lead) ++ k))
    → value_length 128 s ≡ suc width
    → match_at words (((d ∷ lead) ++ k) ++ b'=' ∷ s) ≡ none
unfolding match_at
match_at_lead [] d lead k s width known apart plain clear e = refl
match_at_lead (w ∷ words) d lead k s width known apart plain clear e =
    rw
      (
        match_word_assignment w ((d ∷ lead) ++ k) s width clear plain.0 e,
        longer_word d lead k w known apart.0,
        match_at,
      )
      (match_at_lead words d lead k s width known apart.1 plain.1 clear e)

known-Without :
    (k : Str) → any (str_eq (to_lower k)) pattern_words ≡ true → Without b'=' (to_lower k)
known-Without k known = any-All (Without b'=') pattern_words (to_lower k) known words_plain

sanitize_lead :
    (lead k s : Str) (width : ℕ)
    → any (str_eq (to_lower k)) pattern_words ≡ true
    → Without b'=' lead
    → value_length 128 s ≡ suc width
    → sanitize_text (lead ++ (k ++ b'=' ∷ s)) ≡ lead ++ sanitize_text (k ++ b'=' ∷ s)
unfolding sanitize_text replace_all
sanitize_lead [] k s width known plain e = refl
sanitize_lead (d ∷ lead) k s width known plain e =
    let apart =
      any-All (λ word. All (λ other. ends_with word other ≡ false) pattern_words) pattern_words
        (to_lower k) known words_apart in
    let clear = subst (Without b'=') (sym (to_lower-append (d ∷ lead) k)) (
      All-append (λ c. c ≢ b'=') (to_lower (d ∷ lead)) (to_lower k)
        (to_lower-Without (d ∷ lead) plain) (known-Without k known)) in
    let missed = match_at_lead pattern_words d lead k s width known apart words_plain clear e in
    let missed_here =
      subst (λ text. match_at pattern_words text ≡ none) (append_assoc (d ∷ lead) k (b'=' ∷ s))
        missed in
    rw (missed_here, replace_all) (ap (◌∷◌ d) (sanitize_lead lead k s width known plain.1 e))

abbrev pub assigned : ℕ → Str → Str → Str
assigned c k value = (c ∷ k) ++ b'=' ∷ value

-- Behind any text without a `=`, and at the start or behind any text and a space: after any of the
-- words of the pattern in any case and a `=`, a value of 1 to 128 bytes without a space, up to a space
-- or the end of the text, is replaced by the placeholder. What is in front up to the space is treated
-- as if it stood alone, and so is what is behind the value.
pub sanitize_text_redacts :
    (before lead : Str) (space c v : ℕ) (k value rest : Str)
    → is_regexp_space space ≡ true
    → Without b'=' lead
    → any (str_eq (to_lower (c ∷ k))) pattern_words ≡ true
    → NoSpace (v ∷ value)
    → EndsValue rest
    → length value < 128
    → let text = lead ++ assigned c k ((v ∷ value) ++ rest) in
      let logged = lead ++ assigned c k (redaction_placeholder ++ sanitize_text rest) in
      (sanitize_text text ≡ logged)
      × (sanitize_text (before ++ space ∷ text) ≡ sanitize_text before ++ space ∷ logged)
sanitize_text_redacts before lead space c v k value rest is_space plain known clean ends fits =
    let taken = value_length-append 128 (v ∷ value) rest clean ends fits in
    let logged =
      sanitize_lead lead (c ∷ k) ((v ∷ value) ++ rest) (length value) known plain taken
      ∙ ap (λ t. lead ++ t) (sanitize_assignment c v k value rest known clean ends fits) in
    (
      logged,
      sanitize_text_apart before space (lead ++ assigned c k ((v ∷ value) ++ rest)) is_space
          ∙ ap (λ t. sanitize_text before ++ space ∷ t) logged,
    )
