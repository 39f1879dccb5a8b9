-- ===== src/Cdi/Cm/Checking.antt =====
-- Which devices `CheckResource` of the cluster manager's client finds well.
use composable_resource_oper.Common.{
  String, true, some, Option-cases, List, [], ◌∷◌, ◌≡◌, ◌⊎◌, inl, inr, arith, string_eq,
}
use composable_resource_oper.Api.{Result, ComposableResource}
use composable_resource_oper.Cdi.{answered, Health, health, annotated_machine_id}
use composable_resource_oper.Cdi.Cm.{Device, ResourceSpec, Env, is_spec_match, find_device}
use composable_resource_oper.Cdi.Cm.Client.{get_machine_info, check_specs, check_resource}

-- A device with the id is on the list, and its status begins with "0".
abbrev pub WellAmong : String → List Device → Type 0
WellAmong id [] = ⊥
WellAmong id (d ∷ ds) =
    ((d.device_uuid ≡ id) × (health d.resource_op_status ≡ Health.healthy)) ⊎ WellAmong id ds

-- It is on the list of a spec for the type and model of the resource.
abbrev pub WellListed : ComposableResource → List ResourceSpec → Type 0
WellListed r [] = ⊥
WellListed r (s ∷ ss) =
    ((is_spec_match r s ≡ true) × WellAmong r.status.device_id s.devices) ⊎ WellListed r ss

find_device-WellAmong :
    (id : String) (ds : List Device) (d : Device)
    → find_device id ds ≡ some d
    → health d.resource_op_status ≡ Health.healthy
    → WellAmong id ds
unfolding find_device
find_device-WellAmong id [] d h k = ground arith
find_device-WellAmong id (x ∷ ds) d h k = ground (arith, find_device-WellAmong id ds d)

module _ (env : Env) where
  check_specs-WellListed :
      (r : ComposableResource) (ss : List ResourceSpec)
      → check_specs env r ss ≡ answered tt
      → WellListed r ss
  unfolding check_specs
  check_specs-WellListed r [] h = ground arith
  check_specs-WellListed r (s ∷ ss) h =
      elim (Option-cases (find_device r.status.device_id s.devices)) [
        | inl n ↦ ground (arith, check_specs-WellListed r ss)
        | inr (d, f) ↦ ground (
          arith,
          find_device-WellAmong r.status.device_id s.devices d f,
          check_specs-WellListed r ss,
        )
      ]

  -- A device that `CheckResource` finds well on a machine that was read is listed there under a spec for
  -- the type and model of the resource, and its status begins with "0".
  pub check_resource-WellListed :
      (r : ComposableResource) (machine : String) (specs : List ResourceSpec)
      → annotated_machine_id env.cluster r.spec.target_node ≡ Result.ok machine
      → get_machine_info env machine ≡ Result.ok specs
      → check_resource env r ≡ answered tt
      → WellListed r specs
  unfolding check_resource
  check_resource-WellListed r machine specs m i h = check_specs-WellListed r specs (ground arith)
