-- ===== src/Preflight.antt =====
-- internal/validation/preflight.go: the checks of the host before an installation.
pub mod Requirements
use chainctl.Prelude.{
  ℕ, zero, suc, ◌+◌, ◌-◌, ◌*◌, ◌/◌, ◌%◌, ◌≤◌, ◌<◌, String, ◌≡◌, refl, sym, ap, ◌∙◌, subst, ◌≢◌, ◌↔◌,
  ◌⊎◌, inl, inr, Bool, true, false, not, ◌&&◌, ◌||◌, Option, none, some, List, [], ◌∷◌, ◌++◌, map,
  append-nil, append_assoc, arith, ltb, leb, ◌==◌, if◌then◌else◌, ==_iff, leb→le, Bool-cases,
  Option-cases, not-true, length, is_empty, take, drop, length-append, take_append, drop_append,
  any, all, All, All-append,
}
use chainctl.Text.{
  Str, codes, str_eq, has_prefix, contains, is_space, trim_left, trim_right, trim_space, is_blank,
  lower, upper, to_lower, to_upper, cons_head, split, cut, cut_last, join,
}

-- A minimum below 0 asks for nothing, and so does 0.
pub record HostConfig : Type 0 where
  pub require_sudo : Bool
  pub kernel_modules : List Str
  pub min_cpu : ℕ
  pub min_memory_gib : ℕ
  pub filesystem_paths : List Str

-- A `SystemInspector`, and whether os.Stat finds a path.
pub record Inspector : Type 0 where
  pub cpu_count : ℕ
  pub memory_gib : ℕ
  pub has_kernel_module : Str → Bool
  pub has_sudo_privileges : Bool
  pub finds : Str → Bool

pub data Issue : Type 0 where
  few_cores little_memory : ℕ → ℕ → Issue
  module_missing path_missing : Str → Issue
  sudo_required : Issue

pub record Outcome : Type 0 where
  pub passed : Bool
  pub issues : List Issue

-- An issue if the minimum is asked for and not met.
abbrev shortage : (ℕ → ℕ → Issue) → ℕ → ℕ → List Issue
shortage issue minimum found =
    if ltb 0 minimum then (if ltb found minimum then issue minimum found ∷ [] else []) else []

abbrev missing : (Str → Issue) → (Str → Bool) → List Str → List Issue
missing issue has [] = []
missing issue has (name ∷ names) =
    let rest = missing issue has names in if not (has name) then issue name ∷ rest else rest

-- The issues in the order of the checks.
unfoldable pub issues_of : HostConfig → Inspector → List Issue
issues_of cfg sys =
    shortage few_cores cfg.min_cpu sys.cpu_count
    ++ (shortage little_memory cfg.min_memory_gib sys.memory_gib
        ++ (missing module_missing sys.has_kernel_module cfg.kernel_modules
            ++ (missing path_missing sys.finds cfg.filesystem_paths
                ++ (if cfg.require_sudo && not sys.has_sudo_privileges
                    then sudo_required ∷ []
                    else []))))

unfoldable pub validate_host : HostConfig → Inspector → Outcome
unfolding issues_of
validate_host cfg sys =
    let issues = issues_of cfg sys in record { passed = is_empty issues; issues = issues }
