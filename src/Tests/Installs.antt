-- ===== src/Tests/Installs.antt =====
-- A run of `cluster install` at a concrete input.
use chainctl.Prelude.{ℕ, true, false, none, some, []}
use chainctl.Result.{ok, err}
use chainctl.Text.{codes}
use chainctl.Preflight.{Inspector}
use chainctl.ClusterInstall.{InstallOptions}
use chainctl.ClusterInstall.World.{InstallDeps, Defaults, Host, World, other_bootstrapper}
use chainctl.ClusterInstall.Run.{run_install}
use chainctl.ClusterInstall.Guards.{Ends, run_install-Ends}

abbrev fit_host : Inspector
fit_host = record {
  cpu_count = 4;
  memory_gib = 8;
  has_kernel_module = λ m. true;
  has_sudo_privileges = true;
  finds = λ p. true;
}

abbrev install_defaults : Defaults ℕ
install_defaults = record {
  inspector = fit_host;
  load = λ path root. err [];
  emitter = ok (record { accepts = λ out line. true; has_logger = true });
  validate_cluster = λ cfg. none;
  load_cluster_config = λ p. ok (some 0);
}

abbrev install_deps : InstallDeps ℕ
install_deps = record {
  inspector = none;
  bundle_loader = none;
  bootstrapper = some (other_bootstrapper (λ p. some (codes "no route")));
  helm_installer = none;
  emitter = none;
  cluster_validator = none;
  cluster_config_loader = none;
}

abbrev fresh_install : InstallOptions
fresh_install = record {
  wants_bootstrap = true;
  cluster_endpoint = [];
  k3s_version = codes "v1";
  values_file = codes "/v";
  values_passphrase = codes "p";
  bundle_path = [];
  airgapped = false;
  dry_run = false;
  output = codes "text";
}

abbrev install_host : Host
install_host = record {
  text_of = λ e. codes "failed";
  now = [];
  encode_error = none;
  clock = record { duration = 1; text = [] };
  invocation = none;
}

abbrev empty_world : World
empty_world = record { lines = []; bootstraps = []; installs = []; printed = [] }

run_install-Ends_example :
    Ends install_host install_defaults install_deps fresh_install empty_world
      (run_install install_host install_defaults install_deps fresh_install empty_world)
run_install-Ends_example =
    run_install-Ends install_host install_defaults install_deps fresh_install empty_world
