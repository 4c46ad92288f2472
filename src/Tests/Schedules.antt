-- ===== src/Tests/Schedules.antt =====
-- Upgrade plans over a server that holds one of them.
use chainctl.Prelude.{◌∷◌, true, Option, none, some, []}
use chainctl.Result.{Result, ok, err}
use chainctl.Text.{Str, codes}
use chainctl.Upgrade.{Plan, PlanObject, Api, ApiError, already_exists, other_error}
use chainctl.ClusterUpgrade.{UpgradeOptions, Host, World}

-- The version and the other parts of the plan of the program's name, if there is one.
abbrev Server : Type 0
Server = Option (Option Str × Str)

abbrev as_object : Option Str × Str → PlanObject
as_object (version, others) = record {
  namespace = codes "system-upgrade";
  name = codes "chainctl-upgrade";
  spec_version = version;
  others = others;
  system = [];
}

abbrev create_one : PlanObject → Server → Option ApiError × Server
create_one object none = (none, some (object.spec_version, object.others))
create_one object (some held) = (some already_exists, some held)

abbrev get_one : Str → Str → Server → Result ApiError PlanObject
get_one namespace name none = err (other_error [])
get_one namespace name (some held) = ok (as_object held)

abbrev one_plan : Api Server
one_plan = record {
  create_namespace = λ name s. (some already_exists, s);
  create_plan = create_one;
  get_plan = get_one;
  update_plan = λ object s. (none, some (object.spec_version, object.others));
}

abbrev held_plan : Server → Option PlanObject
held_plan none = none
held_plan (some held) = some (as_object held)

abbrev to_v2 : UpgradeOptions
to_v2 = record {
  cluster_endpoint = codes "c";
  k3s_version = 118 ∷ 50 ∷ [];
  controller_manifest = [];
  airgapped_bundle = [];
  output = codes "yaml";
}

abbrev v2 : Plan
v2 = record { k3s_version = 118 ∷ 50 ∷ []; controller_manifest = []; airgapped_bundle = [] }

abbrev upgrade_host : Host
upgrade_host = record {
  text_of = λ e. codes "failed";
  plan_text = λ e. codes "failed";
  now = [];
  encode_error = none;
  clock = record { duration = 1; text = [] };
  emitter = ok (record { accepts = λ out line. true; has_logger = true });
}

-- A plan of version 1 with a label.
abbrev v1_held : Server
v1_held = some (some (118 ∷ 49 ∷ []), 108 ∷ [])

abbrev old_world : World Server
old_world = record { lines = []; server = v1_held; printed = [] }
