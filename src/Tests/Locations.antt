-- ===== src/Tests/Locations.antt =====
-- The location of the configuration at a concrete input.
use chainctl.Prelude.{true, none, some, []}
use chainctl.Text.{codes}
use chainctl.Locator.{LocationResult, Env, source_working_dir}

abbrev in_work : Env
in_work = record {
  config_variable = none;
  xdg_config_home = [];
  home = none;
  wd = some (codes "/w");
  exists = λ path. true;
}

abbrev work_file : LocationResult
work_file = record { path = codes "/w/chainctl.yaml"; source = source_working_dir }
