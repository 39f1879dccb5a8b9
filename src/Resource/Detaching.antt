-- ===== src/Resource/Detaching.antt =====
-- The handlers for the states Detaching and Deleting of
-- internal/controller/composableresource_controller.go, block by block.
use composable_resource_oper.Common.{String, Option, none, some}
use composable_resource_oper.Common.{if◌then◌else◌, ◌==◌, ◌!=◌, string_eq}
use composable_resource_oper.Common.{pure, return, skip, get, ◌>>=◌, ◌>>◌}
use composable_resource_oper.Api.{Error, Outcome, ResourceState}
use composable_resource_oper.Resource.Effects.{
  Env, Act, ask, edit, set_state, set_error, done, after, try, try_ok, update, update_status,
  finish_with_status, removed_resource, checked_gpu_visible, drained_gpu, created_taint,
  deleted_taint,
}
use composable_resource_oper.Resource.Handlers.{
  is_waiting_detaching, restart, check_loads, remove_finalizer, set_device,
}

abbrev pub env_kind : Env → String
env_kind env = env.getenv "DEVICE_RESOURCE_TYPE"

module _ (env : Env) where
  -- Lines 326 to 340.
  unfoldable pub require_no_loads : Act (Unit {0})
  unfolding check_loads try
  require_no_loads = do
    w ← get
    if w.resource.spec.force_detach
        then skip
        else if env_kind env == "DEVICE_PLUGIN"
        then (check_loads env none >>= λ e. try env e)
        else (check_loads env (some w.resource.status.device_id) >>= λ e. try env e)

  -- Lines 342 to 347.
  unfoldable pub taint_device : Act (Unit {0})
  unfolding try
  taint_device =
      if env_kind env == "DRA"
      then (ask env.create_device_taint created_taint >>= λ e. try env e)
      else skip

  -- Lines 349 to 352.
  unfoldable pub drain_device : Act (Unit {0})
  unfolding try
  drain_device = do
    e ←
        ask (λ log r. env.drain_gpu log r.spec.target_node r.status.device_id)
          (λ r e. drained_gpu r.spec.target_node r.status.device_id e)
    try env e

  abbrev removed : Option Error → Act (Unit {0})
  removed none = skip
  removed (some e) = if is_waiting_detaching e then return (after 30) else try env (some e)

  -- Lines 354 to 362.
  unfoldable pub remove_device : Act (Unit {0})
  unfolding try
  remove_device = do
    (e, text) ← ask env.remove_resource (λ r a. removed_resource r a.0)
    edit (set_error text)
    removed e

  -- Lines 366 to 378.
  unfoldable pub restart_plugins : Act (Unit {0})
  unfolding restart try
  restart_plugins =
      if env_kind env == "DEVICE_PLUGIN"
      then (do
        e ← restart env "nvidia-gpu-operator" "nvidia-device-plugin-daemonset"
        try env e
        f ← restart env "nvidia-gpu-operator" "nvidia-dcgm"
        try env f)
      else (do
        e ← restart env "nvidia-dra-driver-gpu" "nvidia-dra-driver-gpu-kubelet-plugin"
        try env e)

  -- Lines 380 to 388.
  unfoldable pub require_invisible : Act (Unit {0})
  unfolding try_ok
  require_invisible = do
    v ← ask env.check_gpu_visible checked_gpu_visible
    visible ← try_ok env v
    if visible then return (after 3) else skip

  -- Lines 390 to 395.
  unfoldable pub untaint_device : Act (Unit {0})
  unfolding try
  untaint_device =
      if env_kind env == "DRA"
      then (ask env.delete_device_taint deleted_taint >>= λ e. try env e)
      else skip

  -- Lines 397 to 402.
  unfoldable pub forget_device : Act (Unit {0})
  unfolding try
  forget_device = do edit (set_error ""); edit (set_device "" ""); e ← update_status env; try env e

  -- Lines 325 to 403, for a resource that has a device.
  unfoldable pub detach_device : Act (Unit {0})
  detach_device = do
    require_no_loads
    taint_device
    drain_device
    remove_device
    restart_plugins
    require_invisible
    untaint_device
    forget_device

  unfoldable pub handle_detaching_state : Act Outcome
  unfolding finish_with_status
  handle_detaching_state = do
    w ← get
    if w.resource.status.device_id != "" then detach_device else skip
    edit (set_state ResourceState.deleting)
    finish_with_status env

  unfoldable pub handle_deleting_state : Act Outcome
  unfolding try
  handle_deleting_state = do edit remove_finalizer; e ← update env; try env e; pure done
