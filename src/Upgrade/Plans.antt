-- ===== src/Upgrade/Plans.antt =====
-- The planner over a server that keeps objects as the API promises: the plan that a run leaves.
use chainctl.Prelude.{
  ◌≡◌, refl, sym, ap, ◌∙◌, ◌≢◌, ◌⊎◌, inl, inr, Option, none, some, [], Bool-cases, Option-cases,
  is_empty,
}
use chainctl.Result.{Result, ok, err}
use chainctl.Text.{Str, codes}
use chainctl.Profile.{Profile}
use chainctl.Upgrade.{
  Plan, plan_object, ApiError, PlanObject, Error, Api, plan_namespace, plan_resource_name,
  named_plan, spec_of, ensure_controller, submit_plan, controller_client, plan_upgrade,
  already_exists, other_error, version_required, api_failed, unless_exists, update_existing,
  after_create, submit_ensured,
}

-- The object has the namespace and the name of the program's plan.
abbrev pub IsNamed : PlanObject → Type 0
IsNamed object =
    (object.namespace ≡ codes "system-upgrade") × (object.name ≡ codes "chainctl-upgrade")

-- What is held of an object that was sent: all that clients write.
pub record IsHeld (sent held : PlanObject) : Type 0 where
  pub same_namespace : held.namespace ≡ sent.namespace
  pub same_name : held.name ≡ sent.name
  pub same_version : held.spec_version ≡ sent.spec_version
  pub same_others : held.others ≡ sent.others

abbrev pub Holds : Option PlanObject → PlanObject → Type 0
Holds kept sent = (held : PlanObject) × (kept ≡ some held) × IsHeld sent held

-- What the API promises of the objects of one name, of which `stored` gives the one that there is: a
-- call that fails leaves it, one that returns stores what clients write, and a read returns it.
pub record IsServer {S : Type 0} (api : Api S) (stored : S → Option PlanObject) : Type 0 where
  pub namespace_apart : (name : Str) (s : S) → stored (api.create_namespace name s).1 ≡ stored s
  pub create_stores :
      (object : PlanObject) (s : S)
      → IsNamed object
      → (api.create_plan object s).0 ≡ none
      → (stored s ≡ none) × Holds (stored (api.create_plan object s).1) object
  pub create_fails :
      (object : PlanObject) (s : S) (e : ApiError)
      → (api.create_plan object s).0 ≡ some e
      → stored (api.create_plan object s).1 ≡ stored s
  pub get_reads :
      (s : S) (object : PlanObject)
      → api.get_plan (codes "system-upgrade") (codes "chainctl-upgrade") s ≡ ok object
      → (stored s ≡ some object) × IsNamed object
  pub update_stores :
      (object : PlanObject) (s : S)
      → IsNamed object
      → (api.update_plan object s).0 ≡ none
      → Holds (stored (api.update_plan object s).1) object
  pub update_fails :
      (object : PlanObject) (s : S) (e : ApiError)
      → (api.update_plan object s).0 ≡ some e
      → stored (api.update_plan object s).1 ≡ stored s

-- The plan whose spec is set: the stored one, and a new one where there is none.
abbrev pub base_plan : Option PlanObject → PlanObject
base_plan none = record {
  namespace = codes "system-upgrade";
  name = codes "chainctl-upgrade";
  spec_version = none;
  others = [];
  system = [];
}
base_plan (some held) = held

-- The plan has the version that is asked for, and else what clients wrote of it before.
abbrev pub HasVersion : Plan → Option PlanObject → Option PlanObject → Type 0
HasVersion plan before kept =
    Holds kept (record (base_plan before) { spec_version = some plan.k3s_version })

-- The plan is set, or a call failed and the stored plan is the old one.
abbrev pub Planned : {S : Type 0} → (S → Option PlanObject) → Plan → S → Option Error × S → Type 0
Planned stored plan s (result, after) =
    ((result ≡ none) × HasVersion plan (stored s) (stored after))
    ⊎ (((e : Error) × (result ≡ some e)) × (stored after ≡ stored s))

named_plan-IsNamed : (plan : Plan) → IsNamed (spec_of plan named_plan)
unfolding spec_of named_plan plan_namespace plan_resource_name
named_plan-IsNamed plan = (refl, refl)

module _ {S : Type 0} (api : Api S) (stored : S → Option PlanObject) (plan : Plan)
    (server : IsServer api stored) where
  update-Planned :
      (s : S) (found : Result ApiError PlanObject)
      → ((object : PlanObject) → found ≡ ok object → (stored s ≡ some object) × IsNamed object)
      → Planned stored plan s (update_existing api plan found s)
  unfolding update_existing spec_of
  update-Planned s (err e) reads = inr ((api_failed e, refl), refl)
  update-Planned s (ok held) reads =
      let object = spec_of plan held in
      let (read, named) = reads held refl in
      elim (Option-cases (api.update_plan object s).0) [
        | inl done ↦ rw (done, read) (inl (refl, server.update_stores object s named done))
        | inr (e, failed) ↦
            rw failed (inr ((api_failed e, refl), server.update_fails object s e failed))
      ]

  submit_plan-Planned : (p : Profile) (s : S) → Planned stored plan s (submit_plan api p plan s)
  unfolding submit_plan after_create spec_of named_plan plan_object plan_namespace
      plan_resource_name
  submit_plan-Planned p s =
      let object = spec_of plan named_plan in
      let found = api.get_plan plan_namespace plan_resource_name in
      let after = (api.create_plan object s).1 in
      elim (Option-cases (api.create_plan object s).0) [
        | inl created ↦
            let (absent, held) = server.create_stores object s (named_plan-IsNamed plan) created in
            rw (created, absent) (inl (refl, held))
        | inr (other_error text, failed) ↦
            rw failed
              (inr ((api_failed (other_error text), refl), server.create_fails object s _ failed))
        | inr (already_exists, failed) ↦
            rw (failed, sym (server.create_fails object s _ failed))
              (update-Planned after (found after) (server.get_reads after))
      ]

  ensure-Planned :
      (p : Profile) (s : S) (found : Option ApiError × S)
      → found ≡ api.create_namespace plan_namespace s
      → Planned stored plan s (submit_ensured (controller_client api) p plan (unless_exists found))
  unfolding submit_ensured controller_client
  ensure-Planned p s (none, after) eq =
      let apart = ap (λ x. stored x.1) eq ∙ server.namespace_apart plan_namespace s in
      rw (sym apart) (submit_plan-Planned p after)
  ensure-Planned p s (some already_exists, after) eq =
      let apart = ap (λ x. stored x.1) eq ∙ server.namespace_apart plan_namespace s in
      rw (sym apart) (submit_plan-Planned p after)
  ensure-Planned p s (some (other_error text), after) eq =
      let apart = ap (λ x. stored x.1) eq ∙ server.namespace_apart plan_namespace s in
      inr ((api_failed (other_error text), refl), apart)

-- Whatever plan is stored, a run of the planner that returns leaves the stored plan with the
-- version that was asked for and what else clients wrote of it as it was, or a new plan where there
-- was none. A run that fails leaves the stored plan as it was.
pub plan_upgrade-Planned :
    {S : Type 0} (api : Api S) (stored : S → Option PlanObject) (plan : Plan) (p : Profile) (s : S)
    → IsServer api stored
    → Planned stored plan s (plan_upgrade (controller_client api) p plan s)
unfolding plan_upgrade controller_client ensure_controller
plan_upgrade-Planned api stored plan p s server = elim (Bool-cases (is_empty plan.k3s_version)) [
  | inl missing ↦ rw missing (inr ((version_required, refl), refl))
  | inr given ↦ rw given (ensure-Planned api stored plan server p s _ refl)
]

-- A server that has no errors but that an object exists, and then reads the plan and takes its
-- update.
pub record IsObliging {S : Type 0} (api : Api S) : Type 0 where
  pub ensures :
      (name : Str) (s : S) (text : Str) → (api.create_namespace name s).0 ≢ some (other_error text)
  pub creates :
      (object : PlanObject) (s : S) (text : Str)
      → (api.create_plan object s).0 ≢ some (other_error text)
  pub gets :
      (object : PlanObject) (s : S)
      → IsNamed object
      → (api.create_plan object s).0 ≡ some already_exists
      → (held : PlanObject) × (api.get_plan object.namespace object.name
            (api.create_plan object s).1
          ≡ ok held)
  pub updates :
      (object held : PlanObject) (s : S)
      → api.get_plan (codes "system-upgrade") (codes "chainctl-upgrade") s ≡ ok held
      → object.system ≡ held.system
      → (api.update_plan object s).0 ≡ none
