-- ===== src/Cdi/Fm/Removal.antt =====
-- What the client of the fabric manager asks for, and what it answers.
use composable_resource_oper.Common.{
  String, true, Bool-cases, none, List, [], ◌∷◌, ◌≡◌, ◌⊎◌, ◌↔◌, inl, inr, refl, arith, ℕ, ◌++◌,
  string_eq, body,
}
use composable_resource_oper.Api.{Result, ComposableResource}
use composable_resource_oper.Cdi.{answered, Health, health}
use composable_resource_oper.Cdi.Fm.Bodies.{
  scale_down_body, ScaleDownBody, ScaleDownResourceSpecItem, ScaleDownResourceItem,
  ScaleDownMachineItem,
}
use composable_resource_oper.Cdi.Fm.{Machine, Call, scaled_down, Env, exists_in, check_machine}
use composable_resource_oper.Cdi.Fm.Client.{
  get_node_machine_id, get_machine_info, remove_resource, check_resource,
}

-- A resource of the type with the id is on the machine.
abbrev pub Listed : ComposableResource → Machine → Type 0
Listed r [] = ⊥
Listed r (d ∷ ds) =
    ((d.type ≡ r.spec.type) × (d.resource_uuid ≡ r.status.cdi_device_id)) ⊎ Listed r ds

exists_in-Listed : (r : ComposableResource) (m : Machine) → (exists_in r m ≡ true) ↔ Listed r m
unfolding exists_in
exists_in-Listed r [] = (λ h. ground arith, λ h. absurd h)
exists_in-Listed r (d ∷ ds) =
    let (to, from) = exists_in-Listed r ds in
    (λ h. ground (arith, to, h), λ h. ground (arith, from, h))

-- What a body asks to be removed: the machine, the type, the id and the number, item by item
abbrev pub removed_items : ScaleDownBody → List (String × String × String × ℕ)
removed_items b = of_machines b.tenants.machines
  where
    of_specs : String → List ScaleDownResourceSpecItem → List (String × String × String × ℕ)
    of_specs m [] = []
    of_specs m (s ∷ ss) = (m, s.type, s.resource_uuid, s.num) ∷ of_specs m ss

    of_resources : String → List ScaleDownResourceItem → List (String × String × String × ℕ)
    of_resources m [] = []
    of_resources m (r ∷ rs) = of_specs m r.resource_specs ++ of_resources m rs

    of_machines : List ScaleDownMachineItem → List (String × String × String × ℕ)
    of_machines [] = []
    of_machines (m ∷ ms) = of_resources m.machine_uuid m.resources ++ of_machines ms

module _ (env : Env) where
  -- The call asks the machine to remove one device of the tenant there, the resource's own.
  abbrev pub RemovesOwn : String → ComposableResource → Call → Type 0
  RemovesOwn machine r (scaled_down m b) =
      (m ≡ machine)
      × (b.tenants.tenant_uuid ≡ env.tenant_id)
      × (removed_items b ≡ (machine, r.spec.type, r.status.cdi_device_id, 1) ∷ [])
  RemovesOwn machine r _ = ⊥

  -- For a machine that was read, where a token and a request can be had: with the resource in the
  -- machine's list `RemoveResource` sends one request, which asks that machine to remove one device,
  -- the resource's own, for the tenant; without it the call succeeds at once, and sends none.
  pub remove_resource-Listed :
      (r : ComposableResource) (machine : String) (m : Machine) (ms : List Machine)
      → get_node_machine_id env r.spec.target_node ≡ Result.ok machine
      → get_machine_info env machine ≡ Result.ok (m ∷ ms)
      → env.get_token ≡ none
      → env.new_request machine ≡ none
      → (Listed r m
          → (c : Call) × ((body (remove_resource env r) []).1 ≡ c ∷ []) × RemovesOwn machine r c)
        × (¬ (Listed r m) → body (remove_resource env r) [] ≡ (answered tt, []))
  unfolding remove_resource
  remove_resource-Listed r machine m ms i g t q =
      let sent =
        scaled_down machine
          (scale_down_body env.tenant_id machine r.spec.type r.status.cdi_device_id) in
      elim (Bool-cases (exists_in r m)) [
        | inl e ↦ (
          λ l. (sent, ground (arith, e), (refl, refl, refl)),
          λ n. absurd (n ((exists_in-Listed r m).0 e)),
        )
        | inr e ↦
            (λ l. absurd (ground (arith, (exists_in-Listed r m).1 l, e)), λ n. ground (arith, e))
      ]

  -- A device that `CheckResource` finds well is on the machine under its serial number, and its status
  -- begins with "0".
  abbrev pub Well : ComposableResource → Machine → Type 0
  Well r [] = ⊥
  Well r (d ∷ ds) =
      ((d.type ≡ r.spec.type)
        × (d.serial_num ≡ r.status.device_id)
        × (health d.option_status ≡ Health.healthy))
      ⊎ Well r ds

  check_machine-Well :
      (r : ComposableResource) (m : Machine) → check_machine r m ≡ answered tt → Well r m
  unfolding check_machine
  check_machine-Well r [] h = ground arith
  check_machine-Well r (d ∷ ds) h = ground (arith, check_machine-Well r ds)

  pub check_resource-Well :
      (r : ComposableResource) (machine : String) (m : Machine) (ms : List Machine)
      → get_node_machine_id env r.spec.target_node ≡ Result.ok machine
      → get_machine_info env machine ≡ Result.ok (m ∷ ms)
      → (body (check_resource env r) []).0 ≡ answered tt
      → Well r m
  unfolding check_resource
  check_resource-Well r machine m ms i g h = check_machine-Well r m (ground arith)
