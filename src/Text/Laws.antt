-- ===== src/Text/Laws.antt =====
-- The laws of the text functions that the components use.
use chainctl.Prelude.{
  ℕ, ◌≡◌, ◌≢◌, ◌↔◌, refl, true, [], ◌∷◌, ◌++◌, arith, some, All, List, is_empty, sym, ◌∙◌, false,
}
use chainctl.Text.{Str, str_eq, has_prefix, contains, split, cut}

str_eq_sound : (s t : Str) → str_eq s t ≡ true → s ≡ t
unfolding str_eq
str_eq_sound [] [] h = refl
str_eq_sound [] (b ∷ t) h = cc
str_eq_sound (a ∷ s) [] h = cc
str_eq_sound (a ∷ s) (b ∷ t) h = ground (arith, str_eq_sound s t)

pub str_eq_refl : (s : Str) → str_eq s s ≡ true
unfolding str_eq
str_eq_refl [] = refl
str_eq_refl (a ∷ s) = ground (arith, str_eq_refl s)

pub str_eq_iff : (s t : Str) → (str_eq s t ≡ true) ↔ (s ≡ t)
str_eq_iff s t = (str_eq_sound s t, λ e. rw e (str_eq_refl t))

pub str_eq_comm : (s t : Str) → str_eq s t ≡ str_eq t s
str_eq_comm s t = ground (arith, str_eq_iff s t, str_eq_iff t s)

-- No byte of the text is `sep`.
abbrev pub Without : ℕ → Str → Type 0
Without sep = All (λ c. c ≢ sep)

pub split-Without : (sep : ℕ) (s : Str) → Without sep s → split sep s ≡ s ∷ []
unfolding split
split-Without sep [] h = refl
split-Without sep (c ∷ s) h = ground (arith, split-Without sep s h.1)

-- A text splits at its first separator.
pub split-append :
    (sep : ℕ) (s t : Str) → Without sep s → split sep (s ++ sep ∷ t) ≡ s ∷ split sep t
unfolding split
split-append sep [] t h = ground arith
split-append sep (c ∷ s) t h = ground (arith, split-append sep s t h.1)

pub cut-append : (sep : ℕ) (s t : Str) → Without sep s → cut sep (s ++ sep ∷ t) ≡ some (s, t)
unfolding cut
cut-append sep [] t h = ground arith
cut-append sep (c ∷ s) t h = ground (arith, cut-append sep s t h.1)

pub has_prefix-append : (s t : Str) → has_prefix (s ++ t) s ≡ true
unfolding has_prefix
has_prefix-append [] t = elim t as (λ t. has_prefix t [] ≡ true) [ [] ↦ refl | _ ∷ _ ↦ refl ]
has_prefix-append (a ∷ s) t = ground (arith, has_prefix-append s t)

pub contains-append : (l s r : Str) → contains (l ++ s ++ r) s ≡ true
unfolding contains
contains-append [] [] [] = refl
contains-append [] [] (a ∷ r) = refl
contains-append [] (a ∷ s) r = ground (arith, has_prefix-append (a ∷ s) r)
contains-append (a ∷ l) s r = ground (arith, contains-append l s r)

pub is_empty-eq-nil {ℓ} : {A : Type ℓ} (s : List A) → is_empty s ≡ true → s ≡ []
is_empty-eq-nil [] h = refl
is_empty-eq-nil (c ∷ s) h = cc

pub str_eq_apart : (s t : Str) → str_eq s t ≡ false → s ≢ t
str_eq_apart s t apart e = absurd (cc (sym apart ∙ (str_eq_iff s t).1 e))
