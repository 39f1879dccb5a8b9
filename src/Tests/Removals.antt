-- ===== src/Tests/Removals.antt =====
-- The controller of ComposableResources together with `DrainGPU`, at concrete inputs.
use composable_resource_oper.Common.{
  String, false, some, [], ◌≡◌, refl, Obeys, string_dec, if◌then◌else◌, ◌==◌, string_eq, Bool, true,
  List, ◌∷◌, ℕ_discrete, trim_space, to_upper, contains_text, to_lower, after_first, trim_dots,
}
use composable_resource_oper.Api.{ResourceState, ComposableResource}
use composable_resource_oper.Cdi.{answered}
use composable_resource_oper.Gpu.Pods.{is_container_driver_enabled}
use composable_resource_oper.Resource.Effects.{Env, Call, removed_resource}
use composable_resource_oper.Resource.Reconcile.{
  reconcile, reconcile_found, perform_garbage_collection, dispatch, handle,
}
use composable_resource_oper.Resource.Adapter.{new_adapter}
use composable_resource_oper.Gpu.Drain.Driver.{drain_gpu}
use composable_resource_oper.Resource.Detaching.{
  restart_plugins, require_invisible, untaint_device, forget_device, handle_detaching_state,
  detach_device, require_no_loads, taint_device, drain_device, remove_device,
}
use composable_resource_oper.Resource.Progress.{healthy}
use composable_resource_oper.Resource.Draining.{
  error_of, Nodes, on_nodes, drain_run, RemovesDrained, reconcile-RemovesDrained,
}
use composable_resource_oper.Tests.Fixtures.{gpu}
use composable_resource_oper.Tests.Drains.{cluster, drained}
use composable_resource_oper.Tests.Fixtures as Fixtures

abbrev dra : String → String
dra key = if key == "DEVICE_RESOURCE_TYPE" then "DRA" else Fixtures.getenv key

abbrev detaching : ComposableResource
detaching = gpu "gpu1" ResourceState.detaching "GPU-1" (some 9)

abbrev nodes : Nodes
nodes log = cluster false

abbrev env : Env
env = healthy "GPU-1" "c1" false dra detaching

drains : (drain_run env nodes detaching []).0 ≡ answered tt
unfolding string_dec
drains = drained

reconcile-RemovesDrained_example :
    Obeys
      (RemovesDrained env nodes)
      (reconcile (on_nodes env nodes) (record { resource = detaching; log = [] })).1.log
unfolding string_dec is_container_driver_enabled
reconcile-RemovesDrained_example =
    reconcile-RemovesDrained env nodes (record { resource = detaching; log = [] }) refl
      (λ log. refl) tt

abbrev has_removal : List Call → Bool
has_removal [] = false
has_removal (removed_resource r e ∷ log) = true
has_removal (c ∷ log) = has_removal log

-- In the run above the device is removed.
removal :
    has_removal (reconcile (on_nodes env nodes) (record { resource = detaching; log = [] })).1.log
    ≡ true
unfolding reconcile string_dec reconcile_found perform_garbage_collection dispatch new_adapter
    handle handle_detaching_state detach_device require_no_loads taint_device drain_device error_of
    drain_gpu ℕ_discrete trim_space to_upper contains_text to_lower after_first trim_dots
    remove_device restart_plugins require_invisible untaint_device forget_device
removal = refl
