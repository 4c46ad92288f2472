-- ===== src/Exec.antt =====
-- Code that changes a state and may fail. What was changed before a failure stays changed, so the
-- state comes back beside the error too.
use chainctl.Prelude.{◌≡◌, refl, Bool, true, false, if◌then◌else◌, ap}
use chainctl.Result.{Result, ok, err}

abbrev pub Exec {ℓ} : Type ℓ → Type ℓ → Type ℓ → Type ℓ
Exec E S A = S → Result E A × S

module _ {ℓ} {E S A : Type ℓ} where
  unfoldable pub pure : A → Exec E S A
  pure a s = (ok a, s)

  unfoldable pub raise : E → Exec E S A
  raise e s = (err e, s)

  unfoldable pub lift : Result E A → Exec E S A
  lift r s = (r, s)

  unfoldable pub gets : (S → A) → Exec E S A
  gets f s = (ok (f s), s)

unfoldable pub modify {ℓ} : {E S : Type ℓ} → (S → S) → Exec E S (Unit {ℓ})
modify f s = (ok tt, f s)

module _ {ℓ} {E S A B : Type ℓ} where
  abbrev pub continue : Result E A → (A → Exec E S B) → Exec E S B
  continue (ok a) f s = f a s
  continue (err e) f s = (err e, s)

  infixl 5 ◌>>=◌ ◌>>◌
  -- Opening this opens the actions above too.
  unfoldable pub ◌>>=◌ : Exec E S A → (A → Exec E S B) → Exec E S B
  unfolding pure raise lift gets modify
  ◌>>=◌ m f s = continue (m s).0 f (m s).1

  abbrev pub ◌>>◌ : Exec E S A → Exec E S B → Exec E S B
  m >> n = m >>= λ _. n

-- `m` keeps `P`, whether it returns or fails.
pub record Keeps {ℓ} {E S A : Type ℓ} (P : S → Type ℓ) (m : Exec E S A) : Type ℓ where
  pub at : (s : S) → P s → P (m s).1

module _ {ℓ} {E S A : Type ℓ} {P : S → Type ℓ} where
  pub Keeps-if :
      (b : Bool) (m n : Exec E S A) → Keeps P m → Keeps P n → Keeps P (if b then m else n)
  Keeps-if true m n km kn = km
  Keeps-if false m n km kn = kn

  pub Keeps-lift : (r : Result E A) → Keeps P (lift r)
  unfolding lift
  Keeps-lift r = record { at = λ s h. h }

  pub Keeps-pure : (a : A) → Keeps {E = E} P (pure a)
  unfolding pure
  Keeps-pure a = record { at = λ s h. h }

  pub Keeps-raise : (e : E) → Keeps {A = A} P (raise e)
  unfolding raise
  Keeps-raise e = record { at = λ s h. h }

module _ {ℓ} {E S A B : Type ℓ} {P : S → Type ℓ} where
  continue_keeps :
      (r : Result E A) (f : A → Exec E S B)
      → ((a : A) → r ≡ ok a → Keeps P (f a))
      → (s : S) → P s
      → P (continue r f s).1
  continue_keeps (ok a) f kf s h = (kf a refl).at s h
  continue_keeps (err e) f kf s h = h

  pub Keeps-bind :
      (m : Exec E S A) (f : A → Exec E S B)
      → Keeps P m
      → ((a : A) → Keeps P (f a))
      → Keeps P (m >>= f)
  unfolding ◌>>=◌
  Keeps-bind m f km kf = record {
    at = λ s h. continue_keeps (m s).0 f (λ a _. kf a) (m s).1 (km.at s h);
  }

  -- The rest may use what a pure step returned.
  pub Keeps-bind-lift :
      (r : Result E A) (f : A → Exec E S B)
      → ((a : A) → r ≡ ok a → Keeps P (f a))
      → Keeps P (lift r >>= f)
  unfolding ◌>>=◌
  Keeps-bind-lift r f kf = record { at = λ s h. continue_keeps r f kf s h }

pub ruleset keeps_rules = (Keeps-pure, Keeps-raise, Keeps-lift, Keeps-if, Keeps-bind)

continue-eq-ok {ℓ} :
    {E S A B : Type ℓ} (p : Result E A × S) (f : A → Exec E S B) {b : B} {s' : S}
    → continue p.0 f p.1 ≡ (ok b, s')
    → (a : A) × (mid : S) × (p ≡ (ok a, mid)) × (f a mid ≡ (ok b, s'))
continue-eq-ok (ok a, s) f h = (a, s, refl, h)
continue-eq-ok (err e, s) f h = absurd (cc (ap (λ q. q.0) h))

-- Inversion of a chain that returned.
pub exec-eq-ok {ℓ} :
    {E S A B : Type ℓ} (m : Exec E S A) (f : A → Exec E S B) (s : S) {b : B} {s' : S}
    → (m >>= f) s ≡ (ok b, s')
    → (a : A) × (mid : S) × (m s ≡ (ok a, mid)) × (f a mid ≡ (ok b, s'))
unfolding ◌>>=◌
exec-eq-ok m f s h = continue-eq-ok (m s) f h

module _ {ℓ} {E S A B : Type ℓ} (P : Result E B × S → Type ℓ) where
  continue-elim :
      (r : Result E A) (f : A → Exec E S B) (s : S)
      → ((a : A) → r ≡ ok a → P (f a s))
      → ((e : E) → r ≡ err e → P (err e, s))
      → P (continue r f s)
  continue-elim (ok a) f s returns fails = returns a refl
  continue-elim (err e) f s returns fails = fails e refl

  -- What holds of a chain if it holds where its first step returns and where that fails.
  pub bind-elim :
      (m : Exec E S A) (f : A → Exec E S B) (s : S)
      → ((a : A) (mid : S) → m s ≡ (ok a, mid) → P (f a mid))
      → ((e : E) (mid : S) → m s ≡ (err e, mid) → P (err e, mid))
      → P ((m >>= f) s)
  unfolding ◌>>=◌
  bind-elim m f s returns fails =
      continue-elim (m s).0 f (m s).1 (λ a h. returns a (m s).1 (cc h))
        (λ e h. fails e (m s).1 (cc h))

  -- The same where the first step changes nothing.
  pub bind_lift-elim :
      (r : Result E A) (f : A → Exec E S B) (s : S)
      → ((a : A) → r ≡ ok a → P (f a s))
      → ((e : E) → r ≡ err e → P (err e, s))
      → P ((lift r >>= f) s)
  unfolding ◌>>=◌
  bind_lift-elim r f s returns fails = continue-elim r f s returns fails

-- The same where the first step is a change of the state.
pub bind_modify-elim {ℓ} :
    {E S B : Type ℓ} (P : Result E B × S → Type ℓ) (change : S → S) (f : Unit {ℓ} → Exec E S B)
    (s : S)
    → P (f tt (change s))
    → P ((modify change >>= f) s)
unfolding ◌>>=◌
bind_modify-elim P change f s h = h
