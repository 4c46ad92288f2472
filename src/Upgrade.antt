-- ===== src/Upgrade.antt =====
-- pkg/upgrade/controller.go: the planner, and the client that creates the upgrade plan in the
-- cluster or updates it. The API server is code outside: its state and what its calls do to it are
-- parameters.
pub mod Plans
use chainctl.Prelude.{
  ℕ, zero, suc, ◌+◌, ◌-◌, ◌*◌, ◌/◌, ◌%◌, ◌≤◌, ◌<◌, String, ◌≡◌, refl, sym, ap, ◌∙◌, subst, ◌≢◌, ◌↔◌,
  ◌⊎◌, inl, inr, Bool, true, false, not, ◌&&◌, ◌||◌, Option, none, some, List, [], ◌∷◌, ◌++◌, map,
  append-nil, append_assoc, arith, ltb, leb, ◌==◌, if◌then◌else◌, ==_iff, leb→le, Bool-cases,
  Option-cases, not-true, length, is_empty, take, drop, length-append, take_append, drop_append,
  any, all, All, All-append,
}
use chainctl.Result.{Result, guard, map_err, of_error, >>=-eq-ok, Result-cases, ok, err}
use chainctl.Exec.{
  Keeps, Exec, pure, raise, lift, gets, modify, continue, ◌>>=◌, ◌>>◌, Keeps-if, Keeps-lift,
  Keeps-pure, Keeps-raise, Keeps-bind, Keeps-bind-lift, exec-eq-ok, bind-elim, bind_lift-elim,
  bind_modify-elim, keeps_rules,
}
use chainctl.Text.{
  Str, codes, str_eq, has_prefix, contains, is_space, trim_left, trim_right, trim_space, is_blank,
  lower, upper, to_lower, to_upper, cons_head, split, cut, cut_last, join,
}
use chainctl.Profile.{
  Profile, Mode, LoadOptions, mode_text, default_string, parse_mode, is_reuse, base_profile,
  validate, profile_string, bootstrap, reuse, unknown_mode, cluster_endpoint_required,
  encrypted_file_required, bundle_path_required,
}

pub record Plan : Type 0 where
  pub k3s_version : Str
  pub controller_manifest : Str
  pub airgapped_bundle : Str

pub data ApiError : Type 0 where
  already_exists : ApiError
  other_error : Str → ApiError

-- An object of the kind Plan: its name, the version in its spec, what else clients write of it, and
-- what the server writes, such as the version of the resource.
pub record PlanObject : Type 0 where
  pub namespace : Str
  pub name : Str
  pub spec_version : Option Str
  pub others : Str
  pub system : Str

pub data Error : Type 0 where
  version_required : Error
  api_failed : ApiError → Error

-- The calls of the controller-runtime client, on the state `S` of the server.
pub record Api (S : Type 0) : Type 0 where
  pub create_namespace : Str → S → Option ApiError × S
  pub create_plan : PlanObject → S → Option ApiError × S
  pub get_plan : Str → Str → S → Result ApiError PlanObject
  pub update_plan : PlanObject → S → Option ApiError × S

unfoldable pub plan_namespace : Str
unfolding codes
plan_namespace = codes "system-upgrade"

unfoldable pub plan_resource_name : Str
unfolding codes
plan_resource_name = codes "chainctl-upgrade"

-- An object without a name, and the one of this program.
unfoldable pub plan_object : PlanObject
plan_object = record { namespace = []; name = []; spec_version = none; others = []; system = [] }

unfoldable pub named_plan : PlanObject
named_plan = record plan_object { namespace = plan_namespace; name = plan_resource_name }

unfoldable pub spec_of : Plan → PlanObject → PlanObject
spec_of plan object = record object { spec_version = some plan.k3s_version }

abbrev api_result {ℓ} : {S : Type ℓ} → Option ApiError × S → Option Error × S
api_result (none, s) = (none, s)
api_result (some e, s) = (some (api_failed e), s)

-- An object that exists is no error of a creation.
abbrev unless_exists {ℓ} : {S : Type ℓ} → Option ApiError × S → Option Error × S
unless_exists (none, s) = (none, s)
unless_exists (some already_exists, s) = (none, s)
unless_exists (some (other_error text), s) = (some (api_failed (other_error text)), s)

-- The interface `Client` of the planner; `none` is the error nil.
pub record Client (S : Type 0) : Type 0 where
  pub ensure_controller : Profile → Str → S → Option Error × S
  pub submit : Profile → Plan → S → Option Error × S

unfoldable pub noop_client : {S : Type 0} → Client S
noop_client = record {
  ensure_controller = λ p manifest s. (none, s);
  submit = λ p plan s. (none, s);
}

module _ {S : Type 0} (api : Api S) where
  unfoldable pub ensure_controller : Profile → Str → S → Option Error × S
  ensure_controller p manifest s = unless_exists (api.create_namespace plan_namespace s)

  -- The update of the plan that there is, whose spec alone is replaced.
  update_existing : Plan → Result ApiError PlanObject → S → Option Error × S
  update_existing plan (err e) s = (some (api_failed e), s)
  update_existing plan (ok existing) s = api_result (api.update_plan (spec_of plan existing) s)

  after_create : Plan → Option ApiError × S → Option Error × S
  unfolding update_existing
  after_create plan (none, s) = (none, s)
  after_create plan (some already_exists, s) =
      update_existing plan (api.get_plan plan_namespace plan_resource_name s) s
  after_create plan (some (other_error text), s) = (some (api_failed (other_error text)), s)

  unfoldable pub submit_plan : Profile → Plan → S → Option Error × S
  unfolding after_create
  submit_plan p plan s = after_create plan (api.create_plan (spec_of plan named_plan) s)

  unfoldable pub controller_client : Client S
  controller_client = record { ensure_controller = ensure_controller; submit = submit_plan }

-- `NewPlanner`, `none` for a nil client.
unfoldable pub planner_client : {S : Type 0} → Option (Client S) → Client S
planner_client none = noop_client
planner_client (some client) = client

-- What follows the call that ensures the controller.
submit_ensured : {S : Type 0} → Client S → Profile → Plan → Option Error × S → Option Error × S
submit_ensured client p plan (some e, s) = (some e, s)
submit_ensured client p plan (none, s) = client.submit p plan s

unfoldable pub plan_upgrade : {S : Type 0} → Client S → Profile → Plan → S → Option Error × S
unfolding submit_ensured
plan_upgrade client p plan s =
    if is_empty plan.k3s_version
    then (some version_required, s)
    else submit_ensured client p plan (client.ensure_controller p plan.controller_manifest s)
