-- ===== src/Cdi/Fm/Client.antt =====
-- The four operations of internal/cdi/fti/fm/client.go, and the reading of a machine.
use composable_resource_oper.Common.{
  String, ◌<>◌, none, some, List, [], ◌∷◌, ◌++◌, ◌==◌, ◌!=◌, ◌&&◌, string_eq, nat_eq, if◌then◌else◌,
  trim_space, Action, pure, return, skip, modify, ◌>>=◌, ◌>>◌,
}
use composable_resource_oper.Cdi.{
  DeviceInfo, Response, Answer, answered, annotated_machine_id, health,
}
use composable_resource_oper.Common.{Action, pure, return, skip, modify, ◌>>=◌, ◌>>◌}
use composable_resource_oper.Api.{Result, ComposableResource}
use composable_resource_oper.Nodes.{errorf}
use composable_resource_oper.Cdi.Fm.Bodies.{scale_up_body, scale_down_body}
use composable_resource_oper.Cdi.Fm.{
  Machine, Call, scaled_up, scaled_down, ErrorDetail, Env, cut_prefix, Act, ok_or, fine_or, first,
  take_added, exists_in, check_machine, infos_of, infos_of_first,
}

module _ (env : Env) where
  unfoldable pub get_node_machine_id : String → Result String
  unfolding cut_prefix
  get_node_machine_id name =
      if env.cluster_id != ""
      then annotated_machine_id env.cluster name
      else (elim (env.get_provider_id name) [
        | Result.err e ↦ Result.err e
        | Result.ok id ↦ elim (cut_prefix id "fsas-cdi://") [
          | none ↦ Result.err (
              errorf ("invalid format: expected 'fsas-cdi://machineUUID', now is '" <> (id <> "'")))
          | some machine ↦ Result.ok machine
        ]
      ])

  -- `formatFMErrorDetail`
  abbrev format_error_detail : ErrorDetail → String
  format_error_detail d =
      "code: '" <> (d.code <> ("', error message: '" <> (text d.message <> "'")))
    where
      text : String → String
      text m = if m == "" then "" else elim (env.read_text m) [ some t ↦ t | none ↦ trim_space m ]

  abbrev bad_status : {A : Type 0} → String → Response → Result A
  bad_status what p = elim (env.read_error p.body) [
    | none ↦
        Result.err
          (errorf ("failed to unmarshal FM " <> (what <> " error response body into errBody")))
    | some d ↦ Result.err (
        errorf (
          "failed to process FM " <> (what <> (" request. FM returned " <> format_error_detail d))))
  ]

  abbrev read_page : String → Response → Result (List Machine)
  read_page what p = elim (env.read_machines p.body) [
    | none ↦ Result.err (errorf ("failed to unmarshal FM " <> (what <> " response body")))
    | some machines ↦ Result.ok machines
  ]

  unfoldable pub get_machine_info : String → Result (List Machine)
  get_machine_info machine = elim (env.new_request machine) [
    | some e ↦ Result.err e
    | none ↦ elim env.get_token [
      | some e ↦ Result.err e
      | none ↦ elim (env.get_machine_page machine) [
        | Result.err e ↦ Result.err e
        | Result.ok p ↦
            if p.status_code != 200 then bad_status "get" p else read_page "get machine" p
      ]
    ]
  ]

  -- A request that changes the machine, logged once it is sent
  abbrev send : {R : Type 0} → Call → Action (List Call) (Answer R) Response
  send c = modify (λ log. c ∷ log) >> ok_or (env.change c)

  unfoldable pub add_resource : ComposableResource → Act (String × String)
  unfolding health
  add_resource r = do
    machine ← ok_or (get_node_machine_id r.spec.target_node)
    fine_or env.get_token
    fine_or (env.new_request machine)
    p ← send (scaled_up machine (scale_up_body env.tenant_id machine r.spec.type r.spec.model))
    machines ←
        ok_or (if p.status_code != 200 then bad_status "scaleup" p else read_page "scaleup" p)
    take_added r machines

  unfoldable pub remove_resource : ComposableResource → Act (Unit {0})
  unfolding exists_in
  remove_resource r = do
    machine ← ok_or (get_node_machine_id r.spec.target_node)
    machines ← ok_or (get_machine_info machine)
    m ← first machines
    if exists_in r m then skip else return (answered tt)
    fine_or env.get_token
    fine_or (env.new_request machine)
    p ← send (
        scaled_down machine
          (scale_down_body env.tenant_id machine r.spec.type r.status.cdi_device_id))
    if p.status_code != 200 && p.status_code != 204
        then (ok_or (bad_status "scaledown" p))
        else skip
    pure (answered tt)

  unfoldable pub check_resource : ComposableResource → Act (Unit {0})
  unfolding check_machine
  check_resource r = do
    machine ← ok_or (get_node_machine_id r.spec.target_node)
    machines ← ok_or (get_machine_info machine)
    m ← first machines
    pure (check_machine r m)

  -- A node whose machine cannot be read is left out.
  abbrev infos_of_node : String → List DeviceInfo
  infos_of_node node = elim (get_node_machine_id node) [
    | Result.err e ↦ []
    | Result.ok machine ↦ elim (get_machine_info machine) [
      | Result.err e ↦ []
      | Result.ok machines ↦ infos_of_first node machine machines
    ]
  ]

  unfoldable pub resources_of : List String → List DeviceInfo
  unfolding infos_of
  resources_of [] = []
  resources_of (node ∷ nodes) = infos_of_node node ++ resources_of nodes

  unfoldable pub get_resources : Result (List DeviceInfo)
  unfolding resources_of
  get_resources = elim env.list_nodes [
    | Result.err e ↦ Result.err e
    | Result.ok nodes ↦ Result.ok (resources_of nodes)
  ]
