-- ===== src/Tests/Hosts.antt =====
-- The checks of the host at a concrete input.
use chainctl.Prelude.{◌≡◌, refl, ◌↔◌, true, false, [], ◌∷◌}
use chainctl.Text.{codes}
use chainctl.Preflight.{HostConfig, Inspector, validate_host}
use chainctl.Preflight.Requirements.{MeetsRequirements, validate_host-passes_iff}

abbrev small_host : Inspector
small_host = record {
  cpu_count = 2;
  memory_gib = 4;
  has_kernel_module = λ name. true;
  has_sudo_privileges = false;
  finds = λ path. true;
}

abbrev requirements : HostConfig
requirements = record {
  require_sudo = true;
  kernel_modules = codes "br_netfilter" ∷ [];
  min_cpu = 2;
  min_memory_gib = 4;
  filesystem_paths = codes "/var" ∷ [];
}

validate_host-passes_iff_example :
    ((validate_host requirements small_host).passed ≡ true)
    ↔ MeetsRequirements requirements small_host
validate_host-passes_iff_example = validate_host-passes_iff requirements small_host

lacks_sudo : (validate_host requirements small_host).passed ≡ false
unfolding validate_host
lacks_sudo = refl
