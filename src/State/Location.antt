-- ===== src/State/Location.antt =====
-- Where the state file lies.
use chainctl.Prelude.{
  ◌≡◌, inl, inr, true, false, [], arith, if◌then◌else◌, Bool-cases, Option-cases, is_empty,
}
use chainctl.Result.{ok, >>=-eq-ok}
use chainctl.Text.{Str}
use chainctl.FilePath.{clean, is_abs, join_path, abs}
use chainctl.FilePath.Laws.{is_abs-clean, IsAbsWd, is_abs-join_path, is_abs-abs}
use chainctl.Text.Laws.{is_empty-eq-nil}
use chainctl.State.{
  Overrides, Env, default_file_name, invalid_file_name_test, absolute_directory, state_directory_of,
  resolve, file_in,
}

absolute_directory-is_abs :
    (env : Env) (d : Str) {a : Str}
    → IsAbsWd env.wd
    → absolute_directory env d ≡ ok a
    → is_abs a ≡ true
unfolding absolute_directory
absolute_directory-is_abs env d {a} w h = elim (Bool-cases (is_abs (clean d))) [
  | inl yes_ ↦ ground (arith, yes_)
  | inr no_ ↦ elim (Option-cases (abs env.wd (clean d))) [
    | inl missing ↦ absurd (ground (arith, no_, missing))
    | inr (b, found) ↦ ground (arith, no_, found, is_abs-abs env.wd (clean d) b w found)
  ]
]

file_in-ok :
    (d name : Str) {path : Str}
    → file_in d name ≡ ok path
    → (invalid_file_name_test name ≡ false) × (path ≡ join_path d name)
unfolding file_in
file_in-ok d name h = (ground arith, ground arith)

-- The path came from the directory and the file name.
record IsNamed (env : Env) (o : Overrides) (path : Str) : Type 0 where
  chosen : Str
  folder : Str
  picked : state_directory_of env o.state_directory ≡ ok chosen
  made_absolute : absolute_directory env chosen ≡ ok folder
  named :
      file_in folder (if is_empty o.state_file_name then default_file_name else o.state_file_name)
      ≡ ok path

resolve-IsNamed :
    (env : Env) (o : Overrides) {path : Str}
    → o.state_file_path ≡ []
    → resolve env o ≡ ok path
    → IsNamed env o path
unfolding resolve
resolve-IsNamed env o e h =
    let rest = rw (e, resolve) at h in
    let (chosen, e1, h1) = >>=-eq-ok (state_directory_of env o.state_directory) _ rest in
    let (folder, e2, h2) = >>=-eq-ok (absolute_directory env chosen) _ h1 in
    record { chosen = chosen; folder = folder; picked = e1; made_absolute = e2; named = h2 }

resolve_absolute_empty :
    (env : Env) (o : Overrides) {path : Str}
    → IsAbsWd env.wd
    → o.state_file_path ≡ []
    → resolve env o ≡ ok path
    → is_abs path ≡ true
resolve_absolute_empty env o w e h =
    let n = resolve-IsNamed env o e h in
    let (_, joined) = file_in-ok n.folder _ n.named in
    rw joined
      (is_abs-join_path n.folder _ (absolute_directory-is_abs env n.chosen w n.made_absolute))

-- Every path that `Resolve` returns is absolute, whatever the overrides and the environment, if the
-- working directory, where it can be read, is absolute.
pub resolve-is_abs :
    (env : Env) (o : Overrides) (path : Str)
    → IsAbsWd env.wd
    → resolve env o ≡ ok path
    → is_abs path ≡ true
resolve-is_abs env o path w h = elim (Bool-cases (is_empty o.state_file_path)) [
  | inl empty ↦ resolve_absolute_empty env o w (is_empty-eq-nil o.state_file_path empty) h
  | inr given ↦ unfold resolve in ground (arith, given, is_abs-clean o.state_file_path)
]
