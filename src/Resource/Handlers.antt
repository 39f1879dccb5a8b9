-- ===== src/Resource/Handlers.antt =====
-- The handlers of internal/controller/composableresource_controller.go, one for each state. A
-- block of a longer handler is a definition of its own; each names the lines it follows.
use composable_resource_oper.Common.{String, Bool, true, false, Option, none, some}
use composable_resource_oper.Common.{if◌then◌else◌, ◌==◌, ◌!=◌, string_eq}
use composable_resource_oper.Common.{pure, return, skip, get, ◌>>=◌, ◌>>◌}
use composable_resource_oper.Common.Dict.{lookup}
use composable_resource_oper.Api.{Error, ErrorKind, Result, Outcome, ResourceState}
use composable_resource_oper.Api.{ComposableResource}
use composable_resource_oper.Resource.Effects.{
  Env, Act, ask, edit, set_state, set_error, done, after, try, try_ok, update, delete,
  update_status, finish_with_status, added_resource, checked_resource, checked_gpu_loads,
  checked_gpu_visible, ran_nvidia_smi, restarted_daemonset,
}

abbrev pub is_not_found : Error → Bool
is_not_found e = elim e.kind [ ErrorKind.not_found ↦ true | _ ↦ false ]

abbrev is_waiting_attaching : Error → Bool
is_waiting_attaching e = elim e.kind [ ErrorKind.waiting_device_attaching ↦ true | _ ↦ false ]

abbrev pub is_waiting_detaching : Error → Bool
is_waiting_detaching e = elim e.kind [ ErrorKind.waiting_device_detaching ↦ true | _ ↦ false ]

-- `err != nil && !k8serrors.IsNotFound(err)`
abbrev pub unless_not_found : Option Error → Option Error
unless_not_found none = none
unless_not_found (some e) = if is_not_found e then none else some e

-- `labels[key]`, which is "" for a missing key
abbrev pub label : String → ComposableResource → String
label key r = elim (lookup key r.meta.labels) [ none ↦ "" | some v ↦ v ]

abbrev pub device_label : String
device_label = "cohdi.io/ready-to-detach-device-id"

abbrev pub cdi_device_label : String
cdi_device_label = "cohdi.io/ready-to-detach-cdi-device-id"

abbrev add_finalizer : ComposableResource → ComposableResource
add_finalizer r = record r { meta = record r.meta { has_finalizer = true } }

abbrev pub remove_finalizer : ComposableResource → ComposableResource
remove_finalizer r = record r { meta = record r.meta { has_finalizer = false } }

abbrev pub set_device : String → String → ComposableResource → ComposableResource
set_device d c r = record r { status = record r.status { device_id = d; cdi_device_id = c } }

-- Lines 186 to 193.
unfoldable pub adopt_labels : ComposableResource → ComposableResource
adopt_labels r =
    let d = label device_label r in
    let c = label cdi_device_label r in
    if d == "" then r else set_device d (if c == "" then r.status.cdi_device_id else c) r

module _ (env : Env) where
  unfoldable pub handle_none_state : Act Outcome
  unfolding adopt_labels try finish_with_status
  handle_none_state = do
    w ← get
    if w.resource.meta.has_finalizer
        then skip
        else (edit add_finalizer >> (update env >>= λ e. try env e))
    edit adopt_labels
    edit (set_state ResourceState.attaching)
    edit (set_error "")
    finish_with_status env

  abbrev move_to : ResourceState → Act (Unit {0})
  move_to s = edit (set_state s) >> (finish_with_status env >>= λ o. return o)

  -- Lines 203 to 213.
  unfoldable pub leave_attaching : Act (Unit {0})
  unfolding finish_with_status
  leave_attaching = do
    w ← get
    elim w.resource.meta.deletion_timestamp [
      | none ↦ skip
      | some _ ↦
          if w.resource.status.device_id == ""
          then move_to ResourceState.deleting
          else if w.resource.status.error != ""
          then move_to ResourceState.detaching
          else skip
    ]

  abbrev attached : Result (String × String) → Act (Unit {0})
  attached (Result.ok (d, c)) =
      edit (set_error "") >> (edit (set_device d c) >> (update_status env >>= λ e. try env e))
  attached (Result.err e) = if is_waiting_attaching e then return (after 30) else try env (some e)

  -- Lines 217 to 237.
  unfoldable pub attach_device : Act (Unit {0})
  unfolding try
  attach_device = do
    w ← get
    if w.resource.status.device_id == ""
        then (ask env.add_resource added_resource >>= λ a. attached a)
        else skip

  unfoldable pub restart : String → String → Act (Option Error)
  restart namespace name =
      ask (λ log r. env.restart_daemonset log namespace name)
        (λ r e. restarted_daemonset namespace name e)

  -- A failure that is only noted in the status.
  note : Option Error → Act (Unit {0})
  unfolding try
  note none = skip
  note (some e) = edit (set_error e.message) >> (update_status env >>= λ x. try env x)

  unfoldable pub check_loads : Option String → Act (Option Error)
  check_loads gpu =
      ask (λ log r. env.check_no_gpu_loads log r.spec.target_node gpu)
        (λ r e. checked_gpu_loads r.spec.target_node gpu e)

  -- Lines 239 to 273.
  unfoldable pub refresh_plugins : String → Act (Unit {0})
  unfolding restart note check_loads
  refresh_plugins kind =
      if kind == "DEVICE_PLUGIN"
      then (do
        ignored ← check_loads none
        e ← restart "nvidia-gpu-operator" "nvidia-device-plugin-daemonset"
        note e
        f ← restart "nvidia-gpu-operator" "nvidia-dcgm"
        note f)
      else if kind == "DRA"
      then (do
        e ←
            ask (λ log r. env.run_nvidia_smi log r.spec.target_node)
              (λ r e. ran_nvidia_smi r.spec.target_node e)
        note e
        f ← restart "nvidia-dra-driver-gpu" "nvidia-dra-driver-gpu-kubelet-plugin"
        note f)
      else skip

  -- Lines 275 to 286.
  unfoldable pub go_online : Act Outcome
  unfolding try_ok finish_with_status
  go_online = do
    v ← ask env.check_gpu_visible checked_gpu_visible
    visible ← try_ok env v
    if visible
        then (edit (set_state ResourceState.online)
            >> (edit (set_error "") >> finish_with_status env))
        else pure (after 30)

  unfoldable pub handle_attaching_state : Act Outcome
  handle_attaching_state = do
    leave_attaching
    attach_device
    refresh_plugins (env.getenv "DEVICE_RESOURCE_TYPE")
    go_online

  abbrev error_text : Option Error → String
  error_text none = ""
  error_text (some e) = e.message

  -- Lines 297 to 317.
  check_online : Act Outcome
  unfolding try
  check_online = do
    w ← get
    if label device_label w.resource != ""
        then (do e ← delete env; try env (unless_not_found e); pure done)
        else (do
          e ← ask env.check_resource checked_resource
          edit (set_error (error_text e))
          x ← update_status env
          try env x
          pure (after 30))

  unfoldable pub handle_online_state : Act Outcome
  unfolding check_online finish_with_status
  handle_online_state = do
    w ← get
    elim w.resource.meta.deletion_timestamp [
      | none ↦ check_online
      | some _ ↦ edit (set_state ResourceState.detaching) >> finish_with_status env
    ]
