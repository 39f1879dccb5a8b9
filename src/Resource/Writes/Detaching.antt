-- ===== src/Resource/Writes/Detaching.antt =====
-- The writes of `handleDetachingState` and `handleDeletingState`.
use composable_resource_oper.Common.{◌≡◌, arith}
use composable_resource_oper.Common.{Triple, then-Triple}
use composable_resource_oper.Api.{ResourceState, ComposableResource}
use composable_resource_oper.Resource.Effects.{Env, World}
use composable_resource_oper.Resource.Policy.{Removed, SeenGone}
use composable_resource_oper.Resource.Detaching.{
  require_no_loads, taint_device, drain_device, remove_device, restart_plugins, require_invisible,
  untaint_device, forget_device, detach_device, handle_detaching_state, handle_deleting_state,
}
use composable_resource_oper.Resource.Writes.Conditions.{Good, In}

module _ (old : ComposableResource) where
  abbrev Detaching : World → Type 0
  Detaching = In old ResourceState.detaching

  -- The provider has answered that the device is removed.
  abbrev AfterRemoval : World → Type 0
  AfterRemoval w = Detaching w × Removed w.log

  abbrev AfterGone : World → Type 0
  AfterGone w = Detaching w × SeenGone w.log

  abbrev Forgotten : World → Type 0
  Forgotten w = Detaching w × (w.resource.status.device_id ≡ "")

module _ (env : Env) (old : ComposableResource) where
  require_no_loads-Good : Triple (Detaching old) (require_no_loads env) (Detaching old) (Good old)
  unfolding require_no_loads
  require_no_loads-Good = record { apply = λ w h. ground arith }

  taint_device-Good : Triple (Detaching old) (taint_device env) (Detaching old) (Good old)
  unfolding taint_device
  taint_device-Good = record { apply = λ w h. ground arith }

  drain_device-Good : Triple (Detaching old) (drain_device env) (Detaching old) (Good old)
  unfolding drain_device
  drain_device-Good = record { apply = λ w h. ground arith }

  remove_device-Good : Triple (Detaching old) (remove_device env) (AfterRemoval old) (Good old)
  unfolding remove_device
  remove_device-Good = record { apply = λ w h. ground arith }

  restart_plugins-Good :
      Triple (AfterRemoval old) (restart_plugins env) (AfterRemoval old) (Good old)
  unfolding restart_plugins
  restart_plugins-Good = record { apply = λ w h. ground arith }

  require_invisible-Good :
      Triple (AfterRemoval old) (require_invisible env) (AfterGone old) (Good old)
  unfolding require_invisible
  require_invisible-Good = record { apply = λ w h. ground arith }

  untaint_device-Good : Triple (AfterGone old) (untaint_device env) (AfterGone old) (Good old)
  unfolding untaint_device
  untaint_device-Good = record { apply = λ w h. ground arith }

  forget_device-Good : Triple (AfterGone old) (forget_device env) (Forgotten old) (Good old)
  unfolding forget_device
  forget_device-Good = record { apply = λ w h. ground arith }

  detach_device-Good : Triple (Detaching old) (detach_device env) (Forgotten old) (Good old)
  unfolding detach_device
  detach_device-Good = then-Triple require_no_loads-Good (
      then-Triple taint_device-Good (
        then-Triple drain_device-Good (
          then-Triple remove_device-Good (
            then-Triple restart_plugins-Good (
              then-Triple require_invisible-Good
                (then-Triple untaint_device-Good forget_device-Good))))))

  pub handle_detaching_state-Good :
      Triple (Detaching old) (handle_detaching_state env) (Good old) (Good old)
  unfolding handle_detaching_state
  handle_detaching_state-Good = record { apply = λ w h. ground (arith, detach_device-Good.apply w) }

  pub handle_deleting-Good :
      Triple (In old ResourceState.deleting) (handle_deleting_state env) (Good old) (Good old)
  unfolding handle_deleting_state
  handle_deleting-Good = record { apply = λ w h. ground arith }
