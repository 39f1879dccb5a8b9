-- ===== src/Gpu/Info.antt =====
-- internal/utils/gpus.go: what nvidia-smi and /proc tell of the GPUs of a node.
pub mod RoundTrip
pub mod Visible
use composable_resource_oper.Common.{
  String, ◌<>◌, Bool, true, false, Option, none, some, List, [], ◌∷◌, ◌==◌, string_eq,
  if◌then◌else◌, split, trim_space, call, pure, ◌>>=◌,
}
use composable_resource_oper.Common.Dict.{Dict, insert, lookup}
use composable_resource_oper.Api.{Result, ComposableResource}
use composable_resource_oper.Nodes.{errorf}
use composable_resource_oper.Cdi.{Answer, answered, failed, panicked}
use composable_resource_oper.Gpu.{Output, SliceDevice, ResourceSlice, no_devices, is_failed}
use composable_resource_oper.Gpu.Pods.{
  Pod, Tool, Command, query_gpu, scan_proc, in_pod, on_host, Env, Act, ok_or, answer_or,
  is_container_driver_enabled, run, get_nvidia_driver_daemonset_pod, get_cro_node_agent_pod,
}

-- A GPU: the fields that were asked for
abbrev pub Info : Type 0
Info = Dict String

-- `gpuInfo[name]`
abbrev pub field : String → Info → String
field name info = elim (lookup name info) [ none ↦ "" | some v ↦ v ]

-- The loop over the field names; `none` is an index out of range.
unfoldable pub read_fields : List String → List String → Info → Option Info
read_fields [] parts info = some info
read_fields (name ∷ names) [] info = none
read_fields (name ∷ names) (part ∷ parts) info =
    read_fields names parts (insert name (trim_space part) info)

unfoldable pub parse_infos : List String → List String → Option (List Info)
unfolding read_fields
parse_infos names [] = some []
parse_infos names (line ∷ lines) =
    let rest = parse_infos names lines in
    if line == "" then rest else (elim (read_fields names (split 44 line) []) [
      | none ↦ none
      | some info ↦ elim rest [ none ↦ none | some infos ↦ some (info ∷ infos) ]
    ])

unfoldable pub read_infos : List String → Output → Answer (List Info)
unfolding parse_infos
read_infos names o =
    if no_devices o
    then answered []
    else if is_failed o
    then failed (errorf "get gpu info command failed")
    else (elim (parse_infos names (split 10 (trim_space o.stdout))) [
      | none ↦ panicked
      | some infos ↦ answered infos
    ])

-- The loop over the field names of a line that was read from /proc
unfoldable pub select_fields : List String → Info → Info → Result Info
select_fields [] values info = Result.ok info
select_fields (name ∷ names) values info = elim (lookup (trim_space name) values) [
  | none ↦
      Result.err (errorf ("unsupported field '" <> (trim_space name <> "' requested in queryArgs")))
  | some v ↦ select_fields names values (insert (trim_space name) v info)
]

abbrev pub values_of : String → String → String → Info
values_of minor uuid bus =
    ("device_minor", trim_space minor)
    ∷ ("gpu_uuid", trim_space uuid)
    ∷ ("pci.bus_id", trim_space bus)
    ∷ []

abbrev pub read_line : List String → String → List String → Result Info
read_line names line (minor ∷ uuid ∷ bus ∷ rest) = select_fields names (values_of minor uuid bus) []
read_line names line _ =
    Result.err (errorf ("unexpected GPU information format: '" <> (line <> "'")))

unfoldable pub parse_proc : List String → List String → Result (List Info)
unfolding select_fields
parse_proc names [] = Result.ok []
parse_proc names (line ∷ lines) =
    let rest = parse_proc names lines in
    if line == "" then rest else (elim (read_line names line (split 44 line)) [
      | Result.err e ↦ Result.err e
      | Result.ok info ↦ elim rest [
        | Result.err e ↦ Result.err e
        | Result.ok infos ↦ Result.ok (info ∷ infos)
      ]
    ])

unfoldable pub read_proc : List String → Output → Result (List Info)
unfolding parse_proc
read_proc names o =
    if is_failed o
    then Result.err (errorf "get gpu info command failed")
    else if trim_space o.stdout == ""
    then Result.ok []
    else parse_proc names (split 10 (trim_space o.stdout))

module _ (env : Env) where
  -- The query in the pod that was found
  abbrev pub query_in :
      (Tool → Command) → String → Result Pod → Act (Answer (List Info)) (Answer (List Info))
  query_in place args found = do
    pod ← ok_or found
    o ← run env pod (place (query_gpu args))
    pure (read_infos (split 44 args) o)

  unfoldable pub get_gpu_info_from_nvidia_pod :
      {R : Type 0} → String → String → Act R (Answer (List Info))
  unfolding read_infos get_nvidia_driver_daemonset_pod
  get_gpu_info_from_nvidia_pod node args =
      get_nvidia_driver_daemonset_pod env node >>= λ found. call (query_in in_pod args found)

  unfoldable pub get_gpu_info_from_cro_node_agent_pod :
      {R : Type 0} → String → String → Act R (Answer (List Info))
  unfolding read_infos get_cro_node_agent_pod
  get_gpu_info_from_cro_node_agent_pod node args =
      get_cro_node_agent_pod env node >>= λ found. call (query_in on_host args found)

  unfoldable pub get_gpu_info_from_proc : {R : Type 0} → Pod → String → Act R (Result (List Info))
  unfolding read_proc
  get_gpu_info_from_proc pod args =
      run env pod (on_host scan_proc) >>= λ o. pure (read_proc (split 44 args) o)

  abbrev query_uuids : {R : Type 0} → String → Bool → Act R (Answer (List Info))
  query_uuids node true = get_gpu_info_from_nvidia_pod node "gpu_uuid"
  query_uuids node false = get_gpu_info_from_cro_node_agent_pod node "gpu_uuid"

  unfoldable pub run_nvidia_smi : String → Act (Answer (Unit {0})) (Answer (Unit {0}))
  unfolding is_container_driver_enabled get_gpu_info_from_nvidia_pod
      get_gpu_info_from_cro_node_agent_pod
  run_nvidia_smi node = do
    enabled ← ok_or (is_container_driver_enabled env)
    infos ← query_uuids node enabled
    ignored ← answer_or infos
    pure (answered tt)

-- The attributes of a device: a value that is no text is dereferenced all the same.
unfoldable pub carries : String → Dict (Option String) → Answer Bool
carries uuid [] = answered false
carries uuid ((key, v) ∷ d) =
    let rest = carries uuid d in
    if key == "uuid"
    then (elim v [ none ↦ panicked | some s ↦ if s == uuid then answered true else rest ])
    else rest

unfoldable pub in_devices : String → List SliceDevice → Answer Bool → Answer Bool
unfolding carries
in_devices uuid [] after = after
in_devices uuid (d ∷ ds) after = elim (carries uuid d.attributes) [
  | answered true ↦ answered true
  | answered false ↦ in_devices uuid ds after
  | failed e ↦ failed e
  | panicked ↦ panicked
]

unfoldable pub in_slices : String → List ResourceSlice → Answer Bool
unfolding in_devices
in_slices uuid [] = answered false
in_slices uuid (s ∷ ss) = in_devices uuid s.devices (in_slices uuid ss)

unfoldable pub is_listed : String → List Info → Bool
is_listed uuid [] = false
is_listed uuid (i ∷ is) = if field "gpu_uuid" i == uuid then true else is_listed uuid is

module _ (env : Env) where
  unfoldable pub check_gpu_visible : String → ComposableResource → Act (Answer Bool) (Answer Bool)
  unfolding in_slices is_listed get_gpu_info_from_nvidia_pod
  check_gpu_visible kind r =
      if kind == "DRA"
      then (do slices ← ok_or env.list_slices; pure (in_slices r.status.device_id slices))
      else (do
        answer ← get_gpu_info_from_nvidia_pod env r.spec.target_node "gpu_uuid"
        infos ← answer_or answer
        pure (answered (is_listed r.status.device_id infos)))
