-- ===== src/Resource/Devices.antt =====
-- Device safety of `Reconcile`: the policy `CarefulWithDevice`, block by block.
use composable_resource_oper.Common.{none, true, String, Bool, false}
use composable_resource_oper.Common.{
  ◌≡◌, ◌≢◌, ◌⊎◌, inl, inr, refl, arith, Triple, then-Triple, body,
}
use composable_resource_oper.Common.{body-Triple, Post}
use composable_resource_oper.Api.{Result, Outcome, ResourceState, ComposableResource, Result-cases}
use composable_resource_oper.Resource.Effects.{Env, World, checked_gpu_visible, requeue_on_err}
use composable_resource_oper.Resource.Policy.{Follows, CheckedLoads, JustDrained, CarefulWithDevice}
use composable_resource_oper.Common.{Obeys}
use composable_resource_oper.Resource.Handlers.{
  handle_none_state, leave_attaching, attach_device, refresh_plugins, go_online,
  handle_attaching_state, handle_online_state,
}
use composable_resource_oper.Resource.Detaching.{
  env_kind, require_no_loads, taint_device, drain_device, remove_device, restart_plugins,
  require_invisible, untaint_device, forget_device, detach_device, handle_detaching_state,
  handle_deleting_state,
}
use composable_resource_oper.Resource.Adapter.{new_adapter}
use composable_resource_oper.Resource.Reconcile.{
  collect, mark_deleting, request_deletion, perform_garbage_collection, handle, dispatch,
  reconcile_found, reconcile, reported, found, collected, fetch,
}

abbrev pub Careful : Env → World → Type 0
Careful env w = Obeys (CarefulWithDevice env) w.log

module _ (env : Env) where
  handle_none-Careful : Triple (Careful env) (handle_none_state env) (Careful env) (Careful env)
  unfolding handle_none_state
  handle_none-Careful = record { apply = λ w h. ground arith }

  abbrev Attaching : World → Type 0
  Attaching w = Careful env w × (w.resource.status.state ≡ ResourceState.attaching)

  -- What is known when the resource may get a device.
  abbrev MayAttach : World → Type 0
  MayAttach w =
      Careful env w
      × (w.resource.status.state ≡ ResourceState.attaching)
      × ((w.resource.meta.deletion_timestamp ≡ none) ⊎ (w.resource.status.device_id ≢ ""))

  leave_attaching-Careful : Triple Attaching (leave_attaching env) MayAttach (Careful env)
  unfolding leave_attaching
  leave_attaching-Careful = record { apply = λ w h. ground arith }

  attach_device-Careful : Triple MayAttach (attach_device env) (Careful env) (Careful env)
  unfolding attach_device
  attach_device-Careful = record { apply = λ w h. ground arith }

  refresh_plugins-Careful :
      (kind : String) → Triple (Careful env) (refresh_plugins env kind) (Careful env) (Careful env)
  unfolding refresh_plugins
  refresh_plugins-Careful kind = record { apply = λ w h. ground arith }

  go_online-Careful : Triple (Careful env) (go_online env) (Careful env) (Careful env)
  unfolding go_online
  go_online-Careful = record { apply = λ w h. ground arith }

  handle_attaching_state-Careful :
      Triple Attaching (handle_attaching_state env) (Careful env) (Careful env)
  unfolding handle_attaching_state
  handle_attaching_state-Careful = then-Triple leave_attaching-Careful (
      then-Triple attach_device-Careful
        (then-Triple (refresh_plugins-Careful (env_kind env)) go_online-Careful))

  handle_online-Careful : Triple (Careful env) (handle_online_state env) (Careful env) (Careful env)
  unfolding handle_online_state
  handle_online-Careful = record { apply = λ w h. ground arith }

  -- What is known of the resource while its device is being detached.
  abbrev Detaches : World → Type 0
  Detaches w =
      Careful env w
      × (w.resource.status.state ≡ ResourceState.detaching)
      × (w.resource.status.device_id ≢ "")

  abbrev Unloaded : World → Type 0
  Unloaded w = Detaches w × ((w.resource.spec.force_detach ≡ true) ⊎ CheckedLoads w.resource w.log)

  abbrev Drained : World → Type 0
  Drained w = Unloaded w × JustDrained env w.resource w.log

  abbrev Gone : World → Type 0
  Gone w = Careful env w × Follows (checked_gpu_visible w.resource (Result.ok false)) w.log

  require_no_loads-Careful : Triple Detaches (require_no_loads env) Unloaded (Careful env)
  unfolding require_no_loads
  require_no_loads-Careful = record { apply = λ w h. ground arith }

  taint_device-Careful : Triple Unloaded (taint_device env) Unloaded (Careful env)
  unfolding taint_device
  taint_device-Careful = record { apply = λ w h. ground arith }

  drain_device-Careful : Triple Unloaded (drain_device env) Drained (Careful env)
  unfolding drain_device
  drain_device-Careful = record { apply = λ w h. ground arith }

  remove_device-Careful : Triple Drained (remove_device env) (Careful env) (Careful env)
  unfolding remove_device
  remove_device-Careful = record { apply = λ w h. ground arith }

  restart_plugins-Careful : Triple (Careful env) (restart_plugins env) (Careful env) (Careful env)
  unfolding restart_plugins
  restart_plugins-Careful = record { apply = λ w h. ground arith }

  require_invisible-Careful : Triple (Careful env) (require_invisible env) Gone (Careful env)
  unfolding require_invisible
  require_invisible-Careful = record { apply = λ w h. ground arith }

  untaint_device-Careful : Triple Gone (untaint_device env) (Careful env) (Careful env)
  unfolding untaint_device
  untaint_device-Careful = record { apply = λ w h. ground arith }

  forget_device-Careful : Triple (Careful env) (forget_device env) (Careful env) (Careful env)
  unfolding forget_device
  forget_device-Careful = record { apply = λ w h. ground arith }

  detach_device-Careful : Triple Detaches (detach_device env) (Careful env) (Careful env)
  unfolding detach_device
  detach_device-Careful = then-Triple require_no_loads-Careful (
      then-Triple taint_device-Careful (
        then-Triple drain_device-Careful (
          then-Triple remove_device-Careful (
            then-Triple restart_plugins-Careful (
              then-Triple require_invisible-Careful
                (then-Triple untaint_device-Careful forget_device-Careful))))))

  abbrev Detaching : World → Type 0
  Detaching w = Careful env w × (w.resource.status.state ≡ ResourceState.detaching)

  handle_detaching_state-Careful :
      Triple Detaching (handle_detaching_state env) (Careful env) (Careful env)
  unfolding handle_detaching_state
  handle_detaching_state-Careful = record {
    apply = λ w h. ground (arith, detach_device-Careful.apply w);
  }

  handle_deleting-Careful :
      Triple (Careful env) (handle_deleting_state env) (Careful env) (Careful env)
  unfolding handle_deleting_state
  handle_deleting-Careful = record { apply = λ w h. ground arith }

  handle-Careful :
      (s : ResourceState)
      → Triple
          (λ w. Careful env w × (w.resource.status.state ≡ s))
          (handle env s)
          (Careful env)
          (Careful env)
  unfolding handle
  handle-Careful ResourceState.empty = record { apply = λ w h. handle_none-Careful.apply w h.0 }
  handle-Careful ResourceState.attaching = handle_attaching_state-Careful
  handle-Careful ResourceState.online = record { apply = λ w h. handle_online-Careful.apply w h.0 }
  handle-Careful ResourceState.detaching = handle_detaching_state-Careful
  handle-Careful ResourceState.deleting = record {
    apply = λ w h. handle_deleting-Careful.apply w h.0;
  }
  handle-Careful (ResourceState.other _) = record { apply = λ w h. h.0 }

  garbage-Careful :
      Triple (Careful env) (perform_garbage_collection env) (Careful env) (Careful env)
  unfolding perform_garbage_collection collect mark_deleting request_deletion
  garbage-Careful = record { apply = λ w h. ground arith }

  report-Careful :
      (x : Outcome × World)
      → Careful env x.1
      → Post (Careful env) (Careful env) (reported env x.0 x.1)
  unfolding requeue_on_err
  report-Careful (o, t) h = ground arith

  dispatch-Careful : Triple (Careful env) (dispatch env) (Careful env) (Careful env)
  unfolding dispatch requeue_on_err
  dispatch-Careful = record {
    apply = λ w h. elim (Result-cases (new_adapter env.getenv)) [
      | inl (p, e) ↦
          rw (e, dispatch)
            (report-Careful (body (handle env w.resource.status.state) w)
              (body-Triple (handle-Careful w.resource.status.state) w (h, refl)))
      | inr (x, e) ↦ rw (e, dispatch) (tt, h)
    ];
  }

  collected-Careful :
      (x : Result Bool × World)
      → Careful env x.1
      → Post (Careful env) (Careful env) (collected env x.0 x.1)
  unfolding requeue_on_err
  collected-Careful (Result.err e, t) h = (tt, h)
  collected-Careful (Result.ok true, t) h = h
  collected-Careful (Result.ok false, t) h = dispatch-Careful.apply t h

  reconcile_found-Careful : Triple (Careful env) (reconcile_found env) (Careful env) (Careful env)
  unfolding reconcile_found
  reconcile_found-Careful = record {
    apply = λ w h.
        collected-Careful (body (perform_garbage_collection env) w)
          (body-Triple garbage-Careful w h);
  }

  found-Careful :
      (a : Result ComposableResource)
      → Triple (Careful env) (found env a) (Careful env) (Careful env)
  found-Careful (Result.ok r) = record {
    apply = λ w h. reconcile_found-Careful.apply (record w { resource = r }) h;
  }
  found-Careful (Result.err e) = record { apply = λ w h. ground arith }

  fetch-Careful : Triple (Careful env) (fetch env) (Careful env) (Careful env)
  fetch-Careful = record { apply = λ w h. (found-Careful (env.get_resource w.log)).apply _ (tt, h) }

  -- In every reconciliation of a ComposableResource, whatever the API server, the CDI provider and
  -- the node answer: a device is attached only for a resource that is Attaching, has no device and
  -- is not being deleted. A device is removed only for a resource that is Detaching and has one,
  -- directly after `DrainGPU` reported success for that device on that node, and unless the
  -- resource forces its detachment, after a check that found no load there. A device taint is
  -- deleted only directly after the GPU was seen to be invisible, or directly after the taint
  -- itself was looked up.
  pub reconcile-Careful : (w : World) → Careful env w → Careful env (reconcile env w).1
  unfolding reconcile
  reconcile-Careful w h = body-Triple fetch-Careful w h
