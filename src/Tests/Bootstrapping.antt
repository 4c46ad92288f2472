-- ===== src/Tests/Bootstrapping.antt =====
-- The installation of k3s at concrete inputs.
use chainctl.Prelude.{ℕ, suc, ◌≡◌, ◌↔◌, ◌⊎◌, true, false, none, some, List, [], ◌∷◌, ◌++◌, is_empty}
use chainctl.Text.{Str, codes, contains}
use chainctl.Dict.{Dict}
use chainctl.Profile.{Profile, bootstrap, reuse}
use chainctl.Bootstrap.{
  Error, ExitCode, code, CommandResult, Host, Run, Wait, run_and_wait, bootstrap_cluster,
  run_logged, start_entry, complete_entry,
}
use chainctl.Bootstrap.Commands.{bootstrap_cluster-runs, run_logged-error_iff}

abbrev fresh_cluster : Profile
fresh_cluster = record {
  mode = bootstrap;
  cluster_endpoint = [];
  airgapped = false;
  bundle_path = [];
  encrypted_file = [];
  passphrase = [];
  k3s_version = codes "stable";
  helm_release = [];
  helm_namespace = [];
}

abbrev downloading : Host
downloading = record {
  install_sha256 = codes "abc";
  install_path = [];
  install_url = codes "https://get.k3s.io";
  exists = λ path. false;
}

-- The world is the number of commands run.
abbrev counting : Run ℕ
counting = λ command env n. (none, suc n)

abbrev ready : Wait ℕ
ready = λ n. (none, n)

bootstrap_cluster-runs_example :
    ((bootstrap_cluster downloading counting ready fresh_cluster 0 ≡ (none, 0))
      × (fresh_cluster.mode ≡ reuse))
    ⊎ (((e : Error) × (bootstrap_cluster downloading counting ready fresh_cluster 0 ≡ (some e, 0)))
        ⊎ ((script : Str) × (is_empty downloading.install_sha256 ≡ false)
            × (contains script downloading.install_sha256 ≡ true)
            × (bootstrap_cluster downloading counting ready fresh_cluster 0
                ≡ run_and_wait counting ready script fresh_cluster 0)))
bootstrap_cluster-runs_example = bootstrap_cluster-runs downloading counting ready fresh_cluster 0

abbrev failing : List Str → Dict Str → CommandResult
failing command env = record { exit_code = code 3; stderr = codes "token=abc"; failure = none }

abbrev no_digits : ExitCode → Str
no_digits c = []

run_logged-error_iff_example :
    let ran = run_logged no_digits 4096 failing [] [] [] in
    ((ran.0 ≡ none) ↔ (((failing [] []).failure ≡ none) × ((failing [] []).exit_code ≡ code 0)))
    × (ran.1 ≡ [] ++ start_entry [] [] ∷ complete_entry no_digits 4096 [] [] (failing [] []) ∷ [])
run_logged-error_iff_example = run_logged-error_iff no_digits 4096 failing [] [] []
