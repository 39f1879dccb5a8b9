-- ===== src/Cdi/Cm/Ownership.antt =====
-- Which devices the client of the cluster manager gives out, and which it takes back.
use composable_resource_oper.Common.{
  ◌==◌, ◌&&◌, ◌||◌, ◌↔◌, if◌then◌else◌, Option-cases, String, Bool, true, false, Option, none, some,
  List, [], ◌∷◌, map, All, ◌≡◌, ◌≢◌, ◌⊎◌, inl, inr, arith, refl, contains, string_eq, body,
}
use composable_resource_oper.Api.{Error, Result, Result-cases, ComposableResource}
use composable_resource_oper.Cdi.{Condition, asks_for_model, ℤ, pos, annotated_machine_id}
use composable_resource_oper.Cdi.Cm.{
  Device, ResourceSpec, World, Env, find_available_device, Adding, take_unused, resize_spec,
  check_adding_resources, find_device, check_removing_resources,
}
use composable_resource_oper.Cdi.Cm.Client.{
  get_machine_info, send_resize, held_ids, add_resource, remove_resource, with_id, add, remove,
}

find_available_device-free :
    (existing : List String) (ds : List Device) (d : Device)
    → find_available_device existing ds ≡ some d
    → contains existing d.device_uuid ≡ false
unfolding find_available_device
find_available_device-free existing [] d h = ground arith
find_available_device-free existing (x ∷ ds) d h =
    ground (arith, find_available_device-free existing ds d)

check_adding_resources-free :
    (existing : List String) (r : ComposableResource) (ss : List ResourceSpec) (id cdi_id : String)
    (e : Option Error)
    → check_adding_resources existing r ss ≡ take_unused id cdi_id e
    → contains existing id ≡ false
unfolding check_adding_resources
check_adding_resources-free existing r [] id cdi_id e h = ground arith
check_adding_resources-free existing r (s ∷ ss) id cdi_id e h =
    elim (Option-cases (find_available_device existing s.devices)) [
      | inl n ↦ ground (arith, check_adding_resources-free existing r ss id cdi_id e)
      | inr (d, f) ↦ ground (
        arith,
        find_available_device-free existing s.devices d,
        check_adding_resources-free existing r ss id cdi_id e,
      )
    ]

module _ (env : Env) where
  with_id-free :
      (existing : List String) (a : Adding) (machine : String) (w : World)
      → ((id cdi_id : String) (e : Option Error)
          → a ≡ take_unused id cdi_id e
          → contains existing id ≡ false)
      → w.log ≡ []
      → (body (add env machine (with_id a)) w).0.device_id ≢ ""
      → (contains existing (body (add env machine (with_id a)) w).0.device_id ≡ false)
        × ((body (add env machine (with_id a)) w).1.log ≡ [])
  unfolding send_resize
  with_id-free existing (take_unused id cdi_id e) machine w h l g =
      ground (arith, h id cdi_id e refl)
  with_id-free existing (resize_spec id n) machine w h l g = absurd (ground arith)

  with_id_given :
      (a : Adding) (machine : String) (w : World)
      → (body (add env machine (with_id a)) w).0.error ≡ none
      → (body (add env machine (with_id a)) w).0.device_id ≢ ""
  unfolding send_resize
  with_id_given (take_unused id cdi_id e) machine w h = ground arith
  with_id_given (resize_spec id n) machine w h = ground arith

  -- Without an error, `AddResource` gives out an id, and could list the resources.
  pub add_resource_given :
      (r : ComposableResource)
      → (body (add_resource env) (record { resource = r; log = [] })).0.error ≡ none
      → (resources : List ComposableResource) × (env.list_resources ≡ Result.ok resources)
        × ((body (add_resource env) (record { resource = r; log = [] })).0.device_id ≢ "")
  unfolding add_resource
  add_resource_given r g =
      elim (Result-cases (annotated_machine_id env.cluster r.spec.target_node)) [
        | inr (x, e) ↦ absurd (ground arith)
        | inl (machine, e) ↦ elim (Result-cases (get_machine_info env machine)) [
          | inr (x, e') ↦ absurd (ground arith)
          | inl (specs, e') ↦ elim (Result-cases env.list_resources) [
            | inr (x, l) ↦ absurd (ground arith)
            | inl (resources, l) ↦
                let a = check_adding_resources (held_ids resources) r specs in
                (
                  resources,
                  l,
                  ground (arith, with_id_given a machine (record { resource = r; log = [] })),
                )
          ]
        ]
      ]

  -- A device that `AddResource` gives out is in use by no ComposableResource, and nothing was resized
  -- to get it.
  pub add_resource-free :
      (r : ComposableResource) (resources : List ComposableResource)
      → env.list_resources ≡ Result.ok resources
      → (body (add_resource env) (record { resource = r; log = [] })).0.device_id ≢ ""
      → (contains
            (held_ids resources)
            (body (add_resource env) (record { resource = r; log = [] })).0.device_id
          ≡ false)
        × ((body (add_resource env) (record { resource = r; log = [] })).1.log ≡ [])
  unfolding add_resource
  add_resource-free r resources h g =
      elim (Result-cases (annotated_machine_id env.cluster r.spec.target_node)) [
        | inr (x, e) ↦ absurd (ground arith)
        | inl (machine, e) ↦ elim (Result-cases (get_machine_info env machine)) [
          | inr (x, e') ↦ absurd (ground arith)
          | inl (specs, e') ↦
              let a = check_adding_resources (held_ids resources) r specs in
              ground (
                arith,
                with_id-free (held_ids resources) a machine (record { resource = r; log = [] })
                    (check_adding_resources-free (held_ids resources) r specs) refl,
              )
        ]
      ]

-- Some condition of a spec says that the model is this one.
abbrev pub names_model : String → List Condition → Bool
names_model model [] = false
names_model model (c ∷ cs) =
    (c.column == "model" && (c.operator == "eq" && c.value == model)) || names_model model cs

-- The first spec of the machine for the type and model of the resource lists its device.
abbrev pub lists : ComposableResource → List ResourceSpec → Bool
lists r [] = false
lists r (s ∷ ss) =
    if s.type == r.spec.type && names_model r.spec.model s.conditions
    then contains (map (λ d. d.device_uuid) s.devices) r.status.device_id
    else lists r ss

asks_for_model_lem :
    (model : String) (cs : List Condition) → asks_for_model model cs ≡ names_model model cs
unfolding asks_for_model
asks_for_model_lem model [] = refl
asks_for_model_lem model (c ∷ cs) = ground (arith, asks_for_model_lem model cs)

find_device-none :
    (id : String) (ds : List Device)
    → find_device id ds ≡ none
    → contains (map (λ d. d.device_uuid) ds) id ≡ false
unfolding find_device
find_device-none id [] h = refl
find_device-none id (d ∷ ds) h = ground (arith, find_device-none id ds)

find_device-some :
    (id : String) (ds : List Device) (d : Device)
    → find_device id ds ≡ some d
    → contains (map (λ d. d.device_uuid) ds) id ≡ true
unfolding find_device
find_device-some id [] d h = ground arith
find_device-some id (x ∷ ds) d h = ground (arith, find_device-some id ds d)

-- What `checkRemovingResources` gives back goes by whether the device is listed.
check_removing_resources-lists :
    (r : ComposableResource) (ss : List ResourceSpec)
    → All (λ s. s.spec_uuid ≢ "") ss
    → ((lists r ss ≡ true) × ((check_removing_resources r ss).0 ≢ ""))
      ⊎ ((lists r ss ≡ false) × (check_removing_resources r ss ≡ ("", pos 0, none)))
unfolding check_removing_resources
check_removing_resources-lists r [] a = inr (refl, refl)
check_removing_resources-lists r (s ∷ ss) (n, a) =
    elim (Option-cases (find_device r.status.device_id s.devices)) [
      | inl f ↦ ground (
        arith,
        n,
        find_device-none r.status.device_id s.devices f,
        asks_for_model_lem r.spec.model s.conditions,
        check_removing_resources-lists r ss a,
      )
      | inr (d, f) ↦ ground (
        arith,
        n,
        find_device-some r.status.device_id s.devices d f,
        asks_for_model_lem r.spec.model s.conditions,
        check_removing_resources-lists r ss a,
      )
    ]

module _ (env : Env) where
  remove-some :
      (machine : String) (u : String) (n : ℤ) (e : Option Error) (w : World)
      → u ≢ ""
      → (body (remove env machine (u, n, e)) w).0 ≢ none
  unfolding send_resize
  remove-some machine u n none w h g = ground arith
  remove-some machine u n (some e) w h g = ground arith

  -- For a machine that was read and whose specs have ids, `RemoveResource` succeeds exactly where the
  -- first spec for the type and model of the resource does not list the device, or there is no such
  -- spec, whatever the other specs list; it then makes no request.
  pub remove_resource-none :
      (r : ComposableResource) (machine : String) (specs : List ResourceSpec)
      → annotated_machine_id env.cluster r.spec.target_node ≡ Result.ok machine
      → get_machine_info env machine ≡ Result.ok specs
      → All (λ s. s.spec_uuid ≢ "") specs
      → (((body (remove_resource env) (record { resource = r; log = [] })).0 ≡ none)
          ↔ (lists r specs ≡ false))
        × (lists r specs ≡ false
            → (body (remove_resource env) (record { resource = r; log = [] })).1.log ≡ [])
  unfolding remove_resource
  remove_resource-none r machine specs m i a =
      let w : World = record { resource = r; log = [] } in
      let c = check_removing_resources r specs in
      elim (check_removing_resources-lists r specs a) [
        | inl (l, n) ↦ (
          (
            λ h. absurd (ground (arith, remove-some machine c.0 c.1 c.2 w n)),
            λ h. absurd (ground arith),
          ),
          λ h. absurd (ground arith),
        )
        | inr (l, n) ↦ ((λ h. l, λ h. ground arith), λ h. ground arith)
      ]
