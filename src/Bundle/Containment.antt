-- ===== src/Bundle/Containment.antt =====
-- pkg/bundle/bundle.go: where `safeJoin` leads and the extraction loop writes.
use chainctl.Prelude.{
  ℕ, ◌≡◌, refl, ◌⊎◌, inl, inr, Bool, false, Option, none, some, List, [], ◌∷◌, ◌++◌, arith,
  Bool-cases, Option-cases,
}
use chainctl.Result.{ok}
use chainctl.Exec.{◌>>=◌, Keeps, Keeps-if, Keeps-bind, Keeps-bind-lift, keeps_rules}
use chainctl.Text.{Str, str_eq}
use chainctl.Text.Laws.{str_eq_iff}
use chainctl.Dict.{Dict, lookup, lookup-insert}
use chainctl.FilePath.{clean, parts, join_path, abs, dir, rel_parts, rel}
use chainctl.FilePath.Laws.{NoUp, parts-NoUp, rel-inside, IsAbsWd, is_abs-join_path, is_abs-abs}
use chainctl.Bundle.{
  Error, Entry, Host, Disk, Action, safe_join, make_dirs, write, extract_file, extract_entry,
  extract_entries, escapes, inside_base, create_parent_dir,
}

-- The path's segments are those of the absolute directory and then others, none of them `..`.
pub record IsInside (wd : Option Str) (root path : Str) : Type 0 where
  pub base : Str
  pub below : List Str
  pub is_base : abs wd root ≡ some base
  pub goes_on : parts path ≡ parts base ++ below
  pub no_up : NoUp below

NoUp-append_right : (xs ys : List Str) → NoUp (xs ++ ys) → NoUp ys
NoUp-append_right [] ys h = h
NoUp-append_right (x ∷ xs) ys h = NoUp-append_right xs ys h.1

inside_base-ok :
    (target : Str) (r : Option Str) {path : Str}
    → inside_base target r ≡ ok path
    → (q : Str) × (r ≡ some q) × (escapes q ≡ false) × (target ≡ path)
inside_base-ok target none h = absurd (cc h)
inside_base-ok target (some q) h = (q, refl, ground arith, ground arith)

safe_join-parts :
    (wd : Option Str) (root name base : Str) {path : Str}
    → abs wd root ≡ some base
    → safe_join wd root name ≡ ok path
    → inside_base (join_path base (clean name)) (rel base (join_path base (clean name))) ≡ ok path
unfolding safe_join
safe_join-parts wd root name base e h = ground (arith, e)

-- A path that `safeJoin` returns lies inside the absolute path of the root: its segments are the
-- root's and then others, none of them `..`.
pub safe_join-IsInside :
    (wd : Option Str) (root name path : Str)
    → IsAbsWd wd
    → safe_join wd root name ≡ ok path
    → IsInside wd root path
safe_join-IsInside wd root name path w h = elim (Option-cases (abs wd root)) [
  | inl none_ ↦ absurd (unfold safe_join in ground (arith, none_))
  | inr (base, e) ↦
      let target = join_path base (clean name) in
      let (q, is_rel, stays, same) =
        inside_base-ok target (rel base target) (safe_join-parts wd root name base e h) in
      let goes = rel-inside base target q is_rel stays in
      rw (← same) (record {
        base = base;
        below = (rel_parts (parts base) (parts target)).1;
        is_base = e;
        goes_on = goes;
        no_up = NoUp-append_right (parts base) (rel_parts (parts base) (parts target)).1 (
            rw goes at (
              parts-NoUp target
                (is_abs-join_path base (clean name) (is_abs-abs wd root base w e))));
      })
]

-- Every file on the disk is one of the old ones or lies inside the root.
pub record OnlyInside (wd : Option Str) (root : Str) (old : Dict Str) (d : Disk) : Type 0 where
  pub file :
      (p content : Str)
      → lookup p d.files ≡ some content
      → (lookup p old ≡ some content) ⊎ IsInside wd root p

module _ (host : Host) (root : Str) (old : Dict Str) (w : IsAbsWd host.wd) where
  abbrev Keeping : {A : Type 0} → Action A → Type 0
  Keeping m = Keeps (OnlyInside host.wd root old) m

  make_dirs-Keeping : (path : Str) (mode : ℕ) (e : Error) → Keeping (make_dirs host path mode e)
  unfolding make_dirs ◌>>=◌
  make_dirs-Keeping path mode e = record {
    at = λ d h. record { file = λ p c q. ground (arith, h.file p c) };
  }

  write-Keeping :
      (path content : Str) (mode : ℕ) (e : Error)
      → IsInside host.wd root path
      → Keeping (write host path content mode e)
  unfolding write ◌>>=◌
  write-Keeping path content mode e inside = record {
    at = λ d h. record {
      file = λ p c q. elim (Bool-cases (str_eq path p)) [
        | inl same ↦ inr (rw (← (str_eq_iff path p).0 same) inside)
        | inr other ↦ h.file p c (ground (arith, lookup-insert path p content d.files, other))
      ];
    };
  }

  extract_file-Keeping :
      (target : Str) (entry : Entry) (content bytes : Option Str)
      → IsInside host.wd root target
      → Keeping (extract_file host target entry content bytes)
  unfolding extract_file
  extract_file-Keeping target entry none bytes inside = search (keeps_rules)
  extract_file-Keeping target entry (some c) bytes inside = search (keeps_rules, write-Keeping)

  extract_entry-Keeping :
      (entry : Entry) (bytes : Option Str) → Keeping (extract_entry host entry root bytes)
  unfolding extract_entry
  extract_entry-Keeping entry bytes =
      Keeps-if entry.is_dir _ _
        (Keeps-bind-lift (safe_join host.wd root entry.name) _
          (λ target joined. search (keeps_rules, make_dirs-Keeping)))
        (Keeps-bind-lift (safe_join host.wd root entry.name) _ (λ target joined.
          Keeps-bind _ _ (make_dirs-Keeping (dir target) 493 (create_parent_dir entry.name)) (λ _.
            extract_file-Keeping target entry entry.content bytes
              (safe_join-IsInside host.wd root entry.name target w joined))))

  extract_entries-Keeping :
      (entries : List Entry) (broken : Bool) (bytes : Option Str)
      → Keeping (extract_entries host entries broken root bytes)
  unfolding extract_entries
  extract_entries-Keeping [] broken bytes = search (keeps_rules)
  extract_entries-Keeping (entry ∷ entries) broken bytes =
      Keeps-bind _ _ (extract_entry-Keeping entry bytes)
        (λ b. extract_entries-Keeping entries broken b)

-- Whatever the archive holds, and whether the extraction succeeds or fails on the way, every file
-- that is on the disk afterwards was there before with the same content or lies inside the
-- extraction directory, if the working directory, where it can be read, is absolute.
pub extract_entries_contained :
    (host : Host) (entries : List Entry) (broken : Bool) (root : Str) (bytes : Option Str)
    (d : Disk)
    → IsAbsWd host.wd
    → OnlyInside host.wd root d.files (extract_entries host entries broken root bytes d).1
extract_entries_contained host entries broken root bytes d w =
    (extract_entries-Keeping host root d.files w entries broken bytes).at d
      (record { file = λ p content h. inl h })
