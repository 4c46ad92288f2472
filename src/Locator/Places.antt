-- ===== src/Locator/Places.antt =====
-- internal/config/locator.go: what a candidate that is taken is, its path made absolute.
use chainctl.Prelude.{
  none, some, inl, inr, ◌≡◌, refl, ap, ◌∙◌, subst, ◌≢◌, Bool, true, false, if◌then◌else◌, drop,
  Bool-cases, Option-cases,
}
use chainctl.Result.{Result, ok, err, >>=-eq-ok}
use chainctl.Text.{Str, codes, has_prefix}
use chainctl.FilePath.{is_abs, abs, clean, join_path}
use chainctl.FilePath.Laws.{IsAbsWd, is_abs-abs}
use chainctl.Locator.{
  ConfigSource, LocationResult, Env, Located, to_absolute, found_at, resolve_candidate,
  config_not_found, under_home,
}

-- The absolute path of a given one, whose `~` at the start stands for the home directory.
pub data Denotes (env : Env) (path out : Str) : Type 0 where
  plainly : has_prefix path (codes "~") ≡ false → abs env.wd path ≡ some out → Denotes env path out
  from_home :
      (home : Str)
      → has_prefix path (codes "~") ≡ true
      → env.home ≡ some home
      → abs env.wd (join_path home (drop 1 path)) ≡ some out
      → Denotes env path out

-- A located file is there, its path is absolute and that of the given one, and its source is the
-- given one.
pub record IsAt (env : Env) (source : ConfigSource) (given : Str) (r : LocationResult)
    : Type 0 where
  pub there : env.exists r.path ≡ true
  pub absolute : is_abs r.path ≡ true
  pub of_given : Denotes env (clean given) r.path
  pub at_source : r.source ≡ source

pub ok_value : {A E : Type 0} {m : Result E A} {a b : A} → m ≡ ok a → m ≡ ok b → a ≡ b
ok_value h k = cc

some_value : {A : Type 0} {a b : A} → some a ≡ some b → a ≡ b
some_value h = cc

pub nothing_apart : {m : Located} (r : LocationResult) → m ≡ ok none → m ≡ ok (some r) → ⊥
nothing_apart r h k = absurd (cc (ok_value h k))

to_absolute-is_abs :
    (env : Env) (path out : Str)
    → IsAbsWd env.wd
    → to_absolute env path ≡ ok out
    → is_abs out ≡ true
unfolding to_absolute
to_absolute-is_abs env path out w h =
    let (expanded, _, made) =
      >>=-eq-ok (if has_prefix path (codes "~") then under_home env.home path else ok path) _ h in
    elim (Option-cases (abs env.wd expanded)) [
      | inl missing ↦ absurd (cc (rw missing at made))
      | inr (base, e) ↦ is_abs-abs env.wd expanded out w (e ∙ ap some (cc (rw e at made)))
    ]

expanded-Denotes :
    (env : Env) (path expanded out : Str)
    → (if has_prefix path (codes "~") then under_home env.home path else ok path) ≡ ok expanded
    → abs env.wd expanded ≡ some out
    → Denotes env path out
unfolding under_home
expanded-Denotes env path expanded out e made = elim (Bool-cases (has_prefix path (codes "~"))) [
  | inr plain ↦ plainly plain (cc (made, rw plain at e))
  | inl tilde ↦ elim (Option-cases env.home) [
    | inl missing ↦ absurd (cc (rw (tilde, missing, under_home) at e))
    | inr (home, known) ↦ from_home home tilde known (cc (made, rw (tilde, known, under_home) at e))
  ]
]

to_absolute-Denotes :
    (env : Env) (path out : Str) → to_absolute env path ≡ ok out → Denotes env path out
unfolding to_absolute
to_absolute-Denotes env path out h =
    let (expanded, e, made) =
      >>=-eq-ok (if has_prefix path (codes "~") then under_home env.home path else ok path) _ h in
    elim (Option-cases (abs env.wd expanded)) [
      | inl missing ↦ absurd (cc (rw missing at made))
      | inr (base, is) ↦
          expanded-Denotes env path expanded out e (is ∙ ap some (cc (rw is at made)))
    ]

found_at-IsAt :
    (env : Env) (source : ConfigSource) (need : Bool) (given path : Str) (r : LocationResult)
    → is_abs path ≡ true
    → Denotes env (clean given) path
    → found_at env source need path ≡ ok (some r)
    → IsAt env source given r
unfolding found_at
found_at-IsAt env source need given path r absolute denoted h =
    elim (Bool-cases (env.exists path)) [
      | inl there ↦
          let made : LocationResult = record { path = path; source = source } in
          subst (IsAt env source given) {x = made} (cc (rw there at h))
            (record { there = there; absolute = absolute; of_given = denoted; at_source = refl })
      | inr absent ↦ absurd (not_found need (rw absent at h))
    ]
  where
    not_found : (need : Bool) → (if need then err config_not_found else ok none) ≡ ok (some r) → ⊥
    not_found true e = absurd (cc e)
    not_found false e = absurd (cc e)

pub resolve_candidate-IsAt :
    (env : Env) (path : Str) (source : ConfigSource) (need : Bool) (r : LocationResult)
    → IsAbsWd env.wd
    → resolve_candidate env path source need ≡ ok (some r)
    → IsAt env source path r
unfolding resolve_candidate
resolve_candidate-IsAt env path source need r w h =
    let (at, e, found) = >>=-eq-ok (to_absolute env (clean path)) _ h in
    found_at-IsAt env source need path at r (to_absolute-is_abs env (clean path) at w e)
      (to_absolute-Denotes env (clean path) at e) found

-- A place that must have the file either has it or fails.
pub resolve_candidate-required :
    (env : Env) (path : Str) (source : ConfigSource)
    → resolve_candidate env path source true ≢ ok none
unfolding resolve_candidate found_at
resolve_candidate-required env path source h =
    let (at, _, found) = >>=-eq-ok (to_absolute env (clean path)) _ h in
    elim (Bool-cases (env.exists at)) [
      | inl there ↦ nothing_apart _ (rw there at found) refl
      | inr absent ↦ absurd (cc (rw absent at found))
    ]
