-- ===== src/Preflight/Requirements.antt =====
-- internal/validation/preflight.go: what a host that passes has.
use chainctl.Prelude.{
  ℕ, ◌≤◌, ◌≡◌, refl, ◌↔◌, Bool, true, false, not, ◌&&◌, List, [], ◌∷◌, ◌++◌, arith, if◌then◌else◌,
  is_empty, All,
}
use chainctl.Text.{Str}
use chainctl.Preflight.{
  HostConfig, Inspector, Issue, issues_of, validate_host, few_cores, little_memory, module_missing,
  path_missing, sudo_required, shortage, missing,
}

pub record MeetsRequirements (cfg : HostConfig) (sys : Inspector) : Type 0 where
  pub enough_cores : cfg.min_cpu ≤ sys.cpu_count
  pub enough_memory : cfg.min_memory_gib ≤ sys.memory_gib
  pub has_modules : All (λ name. sys.has_kernel_module name ≡ true) cfg.kernel_modules
  pub has_paths : All (λ path. sys.finds path ≡ true) cfg.filesystem_paths
  pub has_sudo : cfg.require_sudo ≡ true → sys.has_sudo_privileges ≡ true

empty-append :
    (xs ys : List Issue)
    → (is_empty (xs ++ ys) ≡ true) ↔ ((is_empty xs ≡ true) × (is_empty ys ≡ true))
empty-append [] ys = (λ h. (refl, h), λ h. h.1)
empty-append (x ∷ xs) ys = (λ h. absurd (cc h), λ h. h.0)

empty-shortage :
    (issue : ℕ → ℕ → Issue) (minimum found : ℕ)
    → (is_empty (shortage issue minimum found) ≡ true) ↔ (minimum ≤ found)
empty-shortage issue minimum found = (λ h. ground arith, λ h. ground arith)

empty-missing :
    (issue : Str → Issue) (has : Str → Bool) (names : List Str)
    → (is_empty (missing issue has names) ≡ true) ↔ All (λ name. has name ≡ true) names
empty-missing issue has [] = (λ h. tt, λ h. refl)
empty-missing issue has (name ∷ names) = (
  λ h. ground (arith, empty-missing issue has names),
  λ h. ground (arith, empty-missing issue has names),
)

empty-sudo :
    (needed has : Bool)
    → (is_empty (if needed && not has then sudo_required ∷ [] else []) ≡ true)
      ↔ (needed ≡ true → has ≡ true)
empty-sudo true true = (λ h n. refl, λ h. refl)
empty-sudo true false = (λ h. absurd (cc h), λ h. absurd (cc (h refl)))
empty-sudo false has = (λ h n. absurd (cc n), λ h. refl)

-- A host passes exactly if it has the cores, the memory, the kernel modules and the paths that are
-- asked for, and the privileges of sudo where they are required.
pub validate_host-passes_iff :
    (cfg : HostConfig) (sys : Inspector)
    → ((validate_host cfg sys).passed ≡ true) ↔ MeetsRequirements cfg sys
unfolding validate_host issues_of
validate_host-passes_iff cfg sys =
    let cpu = shortage few_cores cfg.min_cpu sys.cpu_count in
    let memory = shortage little_memory cfg.min_memory_gib sys.memory_gib in
    let modules = missing module_missing sys.has_kernel_module cfg.kernel_modules in
    let paths = missing path_missing sys.finds cfg.filesystem_paths in
    let sudo = if cfg.require_sudo && not sys.has_sudo_privileges then sudo_required ∷ [] else [] in
    let enough_cores = empty-shortage few_cores cfg.min_cpu sys.cpu_count in
    let enough_memory = empty-shortage little_memory cfg.min_memory_gib sys.memory_gib in
    let has_modules = empty-missing module_missing sys.has_kernel_module cfg.kernel_modules in
    let has_paths = empty-missing path_missing sys.finds cfg.filesystem_paths in
    let has_sudo = empty-sudo cfg.require_sudo sys.has_sudo_privileges in
    let with_memory = empty-append cpu (memory ++ (modules ++ (paths ++ sudo))) in
    let with_modules = empty-append memory (modules ++ (paths ++ sudo)) in
    let with_paths = empty-append modules (paths ++ sudo) in
    let with_sudo = empty-append paths sudo in
    (
      (λ h.
          let (c, h₁) = with_memory.0 h in
          let (m, h₂) = with_modules.0 h₁ in
          let (k, h₃) = with_paths.0 h₂ in
          let (f, s) = with_sudo.0 h₃ in
          record {
            enough_cores = enough_cores.0 c;
            enough_memory = enough_memory.0 m;
            has_modules = has_modules.0 k;
            has_paths = has_paths.0 f;
            has_sudo = has_sudo.0 s;
          }),
      λ r. with_memory.1 (
        enough_cores.1 r.enough_cores,
        with_modules.1 (
          enough_memory.1 r.enough_memory,
          with_paths.1 (
            has_modules.1 r.has_modules,
            with_sudo.1 (has_paths.1 r.has_paths, has_sudo.1 r.has_sudo),
          ),
        ),
      ),
    )
