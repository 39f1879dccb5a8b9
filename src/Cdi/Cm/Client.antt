-- ===== src/Cdi/Cm/Client.antt =====
-- The four operations of internal/cdi/fti/cm/client.go, and the reading of a machine.
use composable_resource_oper.Common.{
  String, ◌<>◌, Option, none, some, List, [], ◌∷◌, ◌++◌, map, ◌==◌, ◌!=◌, string_eq, nat_eq,
  if◌then◌else◌, Action, pure, return, skip, get, modify, ◌>>=◌, ◌>>◌,
}
use composable_resource_oper.Cdi.{
  DeviceInfo, Response, Answer, answered, failed, panicked, annotated_machine_id, pos, sucℤ, predℤ,
  Health, health,
}
use composable_resource_oper.Api.{Error, ErrorKind, Result, ComposableResource}
use composable_resource_oper.Nodes.{errorf}
use composable_resource_oper.Cdi.Cm.{
  Device, ResourceSpec, Resize, scale_up, scale_down, Call, resized, updated_status, World, Env,
  is_spec_match, Adding, resize_spec, take_unused, check_adding_resources, Removing, find_device,
  check_removing_resources,
}

-- The three results of `AddResource`
pub record Added : Type 0 where
  pub device_id : String
  pub cdi_device_id : String
  pub error : Option Error

abbrev pub not_added : Error → Added
not_added e = record { device_id = ""; cdi_device_id = ""; error = some e }

abbrev pub waiting_attaching : Error
waiting_attaching = record {
  kind = ErrorKind.waiting_device_attaching;
  message = "device is attaching to the cluster";
}

abbrev pub waiting_detaching : Error
waiting_detaching = record {
  kind = ErrorKind.waiting_device_detaching;
  message = "device is detaching from the cluster";
}

module _ {R : Type 0} (fail : Error → R) where
  -- `if err != nil { return … }`
  abbrev ok_or : {A : Type 0} → Result A → Action World R A
  ok_or (Result.ok a) = pure a
  ok_or (Result.err e) = return (fail e)

  abbrev fine_or : Option Error → Action World R (Unit {0})
  fine_or none = skip
  fine_or (some e) = return (fail e)

abbrev log_call : {R : Type 0} → Call → Action World R (Unit {0})
log_call c = modify (λ w. record w { log = c ∷ w.log })

abbrev pub held_ids : List ComposableResource → List String
held_ids rs = map (λ r. r.status.device_id) rs

-- Lines 133 to 136: an unused device without an id is no unused device.
abbrev pub with_id : Adding → Adding
with_id (take_unused device_uuid resource_uuid e) =
    if device_uuid != "" then take_unused device_uuid resource_uuid e else resize_spec "" (pos 0)
with_id (resize_spec spec_uuid device_count) = resize_spec spec_uuid device_count

module _ (env : Env) where
  abbrev bad_status : {A : Type 0} → String → Response → Result A
  bad_status what p = elim (env.read_error p.body) [
    | none ↦
        Result.err
          (errorf ("failed to unmarshal CM " <> (what <> " error response body into errBody")))
    | some b ↦ Result.err (
        errorf (
          "failed to process CM "
          <> (what
              <> (" request. http returned status: '"
                  <> (env.decimal b.status
                      <> ("', cm return code: '"
                          <> (b.code <> ("', error message: '" <> (b.message <> "'")))))))))
  ]

  abbrev read_page : Response → Result (List ResourceSpec)
  read_page p =
      if p.status_code != 200 then bad_status "get" p else (elim (env.read_machine p.body) [
        | none ↦
            Result.err (errorf "failed to unmarshal CM get machine response body into machineData")
        | some specs ↦ Result.ok specs
      ])

  unfoldable pub get_machine_info : String → Result (List ResourceSpec)
  get_machine_info machine = elim env.get_token [
    | some e ↦ Result.err e
    | none ↦ elim (env.new_request machine) [
      | some e ↦ Result.err e
      | none ↦ elim (env.get_machine_page machine) [
        | Result.err e ↦ Result.err e
        | Result.ok p ↦ read_page p
      ]
    ]
  ]

  -- The request to resize, from its making to the reading of its response; then its status
  unfoldable pub send_resize :
      {R : Type 0} → (Error → R) → String → Resize → String → Action World R (Unit {0})
  send_resize fail machine request what = do
    fine_or fail (env.new_request machine)
    fine_or fail env.get_token
    log_call (resized machine request)
    p ← ok_or fail (env.resize machine request)
    if p.status_code != 200 then (ok_or fail (bad_status what p)) else skip

  abbrev pub add : String → Adding → Action World Added Added
  add machine (take_unused device_uuid resource_uuid e) =
      pure (record { device_id = device_uuid; cdi_device_id = resource_uuid; error = e })
  add machine (resize_spec spec_uuid device_count) = do
    send_resize not_added machine (scale_up spec_uuid (sucℤ device_count)) "scaleup"
    pure (not_added waiting_attaching)

  unfoldable pub add_resource : Action World Added Added
  unfolding check_adding_resources
  add_resource = do
    w ← get
    machine ← ok_or not_added (annotated_machine_id env.cluster w.resource.spec.target_node)
    specs ← ok_or not_added (get_machine_info machine)
    resources ← ok_or not_added env.list_resources
    add machine (with_id (check_adding_resources (held_ids resources) w.resource specs))

  -- The failed removal is told in the status of the resource.
  abbrev tell : Option Error → Action World (Option Error) (Unit {0})
  tell none = skip
  tell (some e) = do
    modify (λ w. record w {
      resource = record w.resource { status = record w.resource.status { error = e.message } };
    })
    w ← get
    log_call (updated_status w.resource (env.update_status w.resource))
    fine_or some (env.update_status w.resource)

  abbrev pub remove : String → Removing → Action World (Option Error) (Option Error)
  remove machine (spec_uuid, device_count, e) = do
    tell e
    if spec_uuid == "" then pure none else (do
      w ← get
      send_resize some machine
          (scale_down spec_uuid (predℤ device_count) (w.resource.status.device_id ∷ [])) "scaledown"
      pure (some waiting_detaching))

  unfoldable pub remove_resource : Action World (Option Error) (Option Error)
  unfolding check_removing_resources
  remove_resource = do
    w ← get
    machine ← ok_or some (annotated_machine_id env.cluster w.resource.spec.target_node)
    specs ← ok_or some (get_machine_info machine)
    remove machine (check_removing_resources w.resource specs)

  abbrev judge : String → String → Health → Answer (Unit {0})
  judge id status Health.healthy = answered tt
  judge id status Health.warning =
      failed (errorf ("the target gpu '" <> (id <> "' is showing a Warning status in CM")))
  judge id status Health.critical =
      failed (errorf ("the target gpu '" <> (id <> "' is showing a Critical status in CM")))
  judge id status Health.unknown =
      failed
        (errorf ("the target gpu '" <> (id <> ("' has unknown status '" <> (status <> "' in CM")))))
  judge id status Health.out_of_range = panicked

  -- The loops over the specs; a spec whose conditions ask twice for the model is searched twice, with
  -- one result.
  unfoldable pub check_specs : ComposableResource → List ResourceSpec → Answer (Unit {0})
  unfolding find_device health
  check_specs r [] =
      failed (
        errorf ("the target device '" <> (r.status.device_id <> "' cannot be found in CDI system")))
  check_specs r (s ∷ ss) =
      if is_spec_match r s
      then (elim (find_device r.status.device_id s.devices) [
        | some d ↦ judge r.status.device_id d.resource_op_status (health d.resource_op_status)
        | none ↦ check_specs r ss
      ])
      else check_specs r ss

  unfoldable pub check_resource : ComposableResource → Answer (Unit {0})
  unfolding check_specs
  check_resource r = elim (annotated_machine_id env.cluster r.spec.target_node) [
    | Result.err e ↦ failed e
    | Result.ok machine ↦ elim (get_machine_info machine) [
      | Result.err e ↦ failed e
      | Result.ok specs ↦ check_specs r specs
    ]
  ]

  abbrev device_info : String → String → ResourceSpec → Device → DeviceInfo
  device_info node machine s d = record {
    node_name = node;
    machine_uuid = machine;
    device_type = s.type;
    model = "";
    device_id = d.device_uuid;
    cdi_device_id = d.resource_uuid;
  }

  unfoldable pub infos_of : String → String → List ResourceSpec → List DeviceInfo
  infos_of node machine [] = []
  infos_of node machine (s ∷ ss) =
      let rest = infos_of node machine ss in
      if s.type != "gpu" then rest else map (device_info node machine s) s.devices ++ rest

  unfoldable pub resources_of : List String → Result (List DeviceInfo)
  unfolding infos_of
  resources_of [] = Result.ok []
  resources_of (node ∷ nodes) = elim (annotated_machine_id env.cluster node) [
    | Result.err e ↦ Result.err e
    | Result.ok machine ↦ elim (get_machine_info machine) [
      | Result.err e ↦ Result.err e
      | Result.ok specs ↦ elim (resources_of nodes) [
        | Result.err e ↦ Result.err e
        | Result.ok rest ↦ Result.ok (infos_of node machine specs ++ rest)
      ]
    ]
  ]

  unfoldable pub get_resources : Result (List DeviceInfo)
  unfolding resources_of
  get_resources = elim env.list_nodes [
    | Result.err e ↦ Result.err e
    | Result.ok nodes ↦ resources_of nodes
  ]
