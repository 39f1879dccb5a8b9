-- ===== src/Gpu.antt =====
-- internal/utils/gpus.go: the check for loads on a node's GPUs, and the taints of devices.
pub mod Loads
pub mod Taints
pub mod Pods
pub mod Info
pub mod Reading
pub mod Drain
use composable_resource_oper.Common.{
  String, ◌<>◌, ℕ, Bool, true, false, Option, none, some, List, [], ◌∷◌, ◌==◌, ◌!=◌, ◌||◌,
  string_eq, contains, if◌then◌else◌, split, trim_space,
}
use composable_resource_oper.Common.{Action, pure, return, skip, get, modify, ◌>>=◌, ◌>>◌}
use composable_resource_oper.Common.Dict.{Dict}
use composable_resource_oper.Api.{Error, Result, ComposableResource}
use composable_resource_oper.Nodes.{errorf}
use composable_resource_oper.Resource.Handlers.{is_not_found}
use composable_resource_oper.Cdi.{Answer, answered, failed, panicked}

pub record AccountedAppInfo : Type 0 where
  pub gpu_uuid : String
  pub process_name : String

-- What a command in a pod gives back
pub record Output : Type 0 where
  pub stdout : String
  pub stderr : String
  pub error : Option Error

-- The pods are given by their names. `proc_gpus` is `getGPUInfoFromProcInCroNodeAgentPod` for the
-- UUIDs, and `query_apps` runs nvidia-smi in a pod, below /host-root or not.
pub record Env : Type 0 where
  pub driver_enabled : Result Bool
  pub agent_pod : String → Result String
  pub driver_pod : String → Result String
  pub proc_gpus : String → Result (List String)
  pub query_apps : (pod : String) (below_host_root : Bool) → Output

-- The apps of the lines, each with two fields at least; `none` is an index out of range.
abbrev app_of : List String → Option AccountedAppInfo
app_of (a ∷ b ∷ rest) = some (record { gpu_uuid = trim_space a; process_name = trim_space b })
app_of _ = none

unfoldable pub parse_apps : List String → Option (List AccountedAppInfo)
parse_apps [] = some []
parse_apps (line ∷ lines) =
    let rest = parse_apps lines in
    if line == "" then rest else (elim (app_of (split 44 line)) [
      | none ↦ none
      | some app ↦ elim rest [ none ↦ none | some apps ↦ some (app ∷ apps) ]
    ])

unfoldable pub runs_on : String → List AccountedAppInfo → Bool
runs_on gpu [] = false
runs_on gpu (app ∷ apps) = app.gpu_uuid == gpu || runs_on gpu apps

abbrev pub no_devices : Output → Bool
no_devices o = trim_space o.stdout == "No devices were found"

abbrev pub is_failed : Output → Bool
is_failed o = o.stderr != "" || elim o.error [ none ↦ false | some _ ↦ true ]

-- The apps of the output, and what is then made of them
abbrev read_apps : Output → (List AccountedAppInfo → Answer (Unit {0})) → Answer (Unit {0})
read_apps o judge =
    if no_devices o
    then answered tt
    else if is_failed o
    then failed (errorf "run nvidia-smi in pod to check gpu loads failed")
    else (elim (parse_apps (split 10 (trim_space o.stdout))) [
      | none ↦ panicked
      | some apps ↦ judge apps
    ])

abbrev pub no_apps : String → List AccountedAppInfo → Answer (Unit {0})
no_apps node [] = answered tt
no_apps node (app ∷ apps) = failed (errorf ("found gpu loads on node '" <> (node <> "'")))

abbrev pub none_on : String → List AccountedAppInfo → Answer (Unit {0})
none_on gpu apps =
    if runs_on gpu apps
    then failed (errorf ("found gpu load on gpu '" <> (gpu <> "'")))
    else answered tt

module _ (env : Env) where
  -- Without the driver's container, for the pod that was found. A GPU that is not given is
  -- dereferenced all the same.
  unfoldable pub check_in_agent : String → Option String → Answer (Unit {0})
  unfolding parse_apps runs_on
  check_in_agent pod gpu = elim (env.proc_gpus pod) [
    | Result.err e ↦ failed e
    | Result.ok gpus ↦ elim gpu [
      | none ↦ panicked
      | some g ↦
          if contains gpus g then read_apps (env.query_apps pod true) (none_on g) else answered tt
    ]
  ]

  -- `CheckNoGPULoads`
  unfoldable pub check_no_gpu_loads : String → Option String → Answer (Unit {0})
  unfolding parse_apps check_in_agent
  check_no_gpu_loads node gpu = elim env.driver_enabled [
    | Result.err e ↦ failed e
    | Result.ok false ↦ elim (env.agent_pod node) [
      | Result.err e ↦ failed e
      | Result.ok pod ↦ check_in_agent pod gpu
    ]
    | Result.ok true ↦ elim (env.driver_pod node) [
      | Result.err e ↦ answered tt
      | Result.ok pod ↦ read_apps (env.query_apps pod false) (no_apps node)
    ]
  ]

-- Devices of the cluster: `StringValue` of an attribute may be nil.
pub record SliceDevice : Type 0 where
  pub name : String
  pub attributes : Dict (Option String)

pub record ResourceSlice : Type 0 where
  pub driver : String
  pub pool : String
  pub devices : List SliceDevice

pub record DeviceTaintRule : Type 0 where
  pub name : String
  pub driver : String
  pub pool : String
  pub device : String
  pub value : String

pub data TaintCall : Type 0 where
  created : DeviceTaintRule → Option Error → TaintCall
  deleted : String → Option Error → TaintCall

pub record TaintEnv : Type 0 where
  pub get_rule : String → Option Error
  pub list_slices : Result (List ResourceSlice)
  pub create : DeviceTaintRule → Option Error
  pub delete : String → Option Error

abbrev pub taint_name : ComposableResource → String
taint_name r = r.meta.name <> "-taint"

abbrev has_uuid : String → Dict (Option String) → Bool
has_uuid uuid [] = false
has_uuid uuid ((key, none) ∷ d) = has_uuid uuid d
has_uuid uuid ((key, some v) ∷ d) =
    if key == "uuid" then (if v == uuid then true else has_uuid uuid d) else has_uuid uuid d

-- The loops over the slices: driver, pool and device
abbrev pub Place : Type 0
Place = String × String × String

unfoldable pub find_in_slice : String → ResourceSlice → List SliceDevice → Option Place
find_in_slice uuid s [] = none
find_in_slice uuid s (d ∷ ds) =
    if has_uuid uuid d.attributes then some (s.driver, s.pool, d.name) else find_in_slice uuid s ds

unfoldable pub find_place : String → List ResourceSlice → Option Place
unfolding find_in_slice
find_place uuid [] = none
find_place uuid (s ∷ ss) = elim (find_in_slice uuid s s.devices) [
  | none ↦ find_place uuid ss
  | some p ↦ some p
]

abbrev pub TaintAct : Type 0 → Type 0
TaintAct A = Action (List TaintCall) A A

abbrev failure : String → String → Error → Error
failure what name e = record e {
  message = "failed to " <> (what <> (" DeviceTaintRule " <> (name <> (": " <> e.message))));
}

module _ (env : TaintEnv) where
  abbrev create_rule : DeviceTaintRule → TaintAct (Option Error)
  create_rule rule = do
    modify (λ log. created rule (env.create rule) ∷ log)
    pure (elim (env.create rule) [ none ↦ none | some e ↦ some (failure "create" rule.name e) ])

  -- A device without a name is taken for none.
  abbrev pub create_at : ComposableResource → Option Place → TaintAct (Option Error)
  create_at r none = pure none
  create_at r (some (driver, pool, device)) =
      if device == ""
      then pure none
      else create_rule (record {
        name = taint_name r;
        driver = driver;
        pool = pool;
        device = device;
        value = r.status.device_id;
      })

  unfoldable pub create_device_taint : ComposableResource → TaintAct (Option Error)
  unfolding find_place
  create_device_taint r = elim (env.get_rule (taint_name r)) [
    | none ↦ pure none
    | some e ↦
        if is_not_found e
        then (elim env.list_slices [
          | Result.err x ↦ pure (some x)
          | Result.ok slices ↦ create_at r (find_place r.status.device_id slices)
        ])
        else pure (some e)
  ]

  unfoldable pub delete_device_taint : ComposableResource → TaintAct (Option Error)
  delete_device_taint r = elim (env.get_rule (taint_name r)) [
    | some e ↦ if is_not_found e then pure none else pure (some (failure "get" (taint_name r) e))
    | none ↦ (do
      modify (λ log. deleted (taint_name r) (env.delete (taint_name r)) ∷ log)
      pure (elim (env.delete (taint_name r)) [
        | none ↦ none
        | some e ↦ some (failure "delete" (taint_name r) e)
      ]))
  ]

  unfoldable pub has_device_taint : ComposableResource → Result Bool
  has_device_taint r = elim (env.get_rule (taint_name r)) [
    | none ↦ Result.ok true
    | some e ↦
        if is_not_found e then Result.ok false else Result.err (failure "get" (taint_name r) e)
  ]
