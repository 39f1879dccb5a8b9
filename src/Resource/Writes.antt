-- ===== src/Resource/Writes.antt =====
-- What `Reconcile` writes to the API server: the policy `WritesWell`, block by block.
pub mod Conditions
pub mod Attaching
pub mod Detaching
pub mod Collecting
use composable_resource_oper.Common.{true, String, Bool, false}
use composable_resource_oper.Common.{◌≡◌, inl, inr, refl, arith, []}
use composable_resource_oper.Common.{
  Triple, then-Triple, body, Post, body-Triple, Spec, bind-Spec, body-Spec, pure, ◌||◌, ◌∷◌,
}
use composable_resource_oper.Api.{Result, Outcome, ResourceState, ComposableResource, Result-cases}
use composable_resource_oper.Resource.Effects.{
  Env, World, requeue_on_err, ask, looked_for_taint, got_node,
}
use composable_resource_oper.Resource.Policy.{WritesWell, Judged, Removed, SeenGone, NodeMissing}
use composable_resource_oper.Common.{Obeys}
use composable_resource_oper.Resource.Handlers.{
  handle_none_state, leave_attaching, attach_device, refresh_plugins, go_online,
  handle_attaching_state, handle_online_state,
}
use composable_resource_oper.Resource.Detaching.{
  env_kind, require_no_loads, taint_device, drain_device, remove_device, restart_plugins,
  require_invisible, untaint_device, forget_device, detach_device, handle_detaching_state,
  handle_deleting_state,
}
use composable_resource_oper.Resource.Adapter.{new_adapter}
use composable_resource_oper.Resource.Reconcile.{
  drop_taint, mark_deleting, request_deletion, collect, perform_garbage_collection, handle,
  dispatch, reported, collected, reconcile_found, fetch, reconcile,
}
use composable_resource_oper.Resource.Writes.Conditions.{
  Good, In, Start, Fresh, Start→In, Fresh→Good,
}
use composable_resource_oper.Resource.Writes.Attaching.{
  handle_none-Good, handle_attaching_state-Good, handle_online-Good,
}
use composable_resource_oper.Resource.Writes.Detaching.{
  handle_detaching_state-Good, handle_deleting-Good,
}
use composable_resource_oper.Resource.Writes.Collecting.{Swept, garbage-Swept}

module _ (env : Env) (old : ComposableResource) where
  handle-Good : (s : ResourceState) → Triple (Start old s) (handle env s) (Good old) (Good old)
  unfolding handle
  handle-Good ResourceState.empty = record {
    apply = λ w h. (handle_none-Good env old).apply w (Start→In old _ w h);
  }
  handle-Good ResourceState.attaching = record {
    apply = λ w h. (handle_attaching_state-Good env old).apply w (Start→In old _ w h);
  }
  handle-Good ResourceState.online = handle_online-Good env old
  handle-Good ResourceState.detaching = record {
    apply = λ w h. (handle_detaching_state-Good env old).apply w (Start→In old _ w h);
  }
  handle-Good ResourceState.deleting = record {
    apply = λ w h. (handle_deleting-Good env old).apply w (Start→In old _ w h);
  }
  handle-Good (ResourceState.other t) = record {
    apply = λ w h. (Start→In old (ResourceState.other t) w h).0;
  }

  report-Good :
      (x : Outcome × World) → Good old x.1 → Post (Good old) (Good old) (reported env x.0 x.1)
  unfolding requeue_on_err
  report-Good (o, t) h = ground arith

  dispatch-Good : Triple (Fresh old) (dispatch env) (Good old) (Good old)
  unfolding dispatch requeue_on_err
  dispatch-Good = record {
    apply = λ w h. elim (Result-cases (new_adapter env.getenv)) [
      | inl (p, e) ↦
          rw (e, dispatch)
            (report-Good (body (handle env w.resource.status.state) w)
              (body-Triple (handle-Good w.resource.status.state) w (h.0, h.1, ground arith, refl)))
      | inr (x, e) ↦ rw (e, dispatch) (ground (arith, Fresh→Good old _ w refl h))
    ];
  }

  collected-Good :
      (x : Result Bool × World)
      → Swept old x.0 x.1
      → Post (Good old) (Good old) (collected env x.0 x.1)
  unfolding requeue_on_err
  collected-Good (Result.err e, t) h = ground arith
  collected-Good (Result.ok true, t) h = h
  collected-Good (Result.ok false, t) h = dispatch-Good.apply t h

  reconcile_found-Good : Triple (Fresh old) (reconcile_found env) (Good old) (Good old)
  unfolding reconcile_found
  reconcile_found-Good = record {
    apply = λ w h.
        collected-Good (body (perform_garbage_collection env) w)
          (body-Spec (garbage-Swept env old) w h);
  }

-- In every reconciliation of a ComposableResource, whatever is answered to its calls: each object
-- that is written to the API server has the spec that was read; its state is the state read, or
-- follows it along an edge of the state machine (None to Attaching; Attaching to Online once the
-- GPU was seen, or when being deleted to Deleting without a device and to Detaching with one;
-- Online to Detaching when being deleted; Detaching to Deleting without a device), or is Deleting
-- where the node was found missing; and a device of a Detaching resource is forgotten only after
-- its removal was confirmed and its GPU seen to be gone. The finalizer is dropped only from a
-- resource that was read as Deleting. The deletion of the object is asked for only where the node
-- was found missing, or for an Online resource with a label for detachment.
pub reconcile-WritesWell :
    (env : Env) (old held : ComposableResource)
    → env.get_resource [] ≡ Result.ok old
    → Obeys (WritesWell old) (reconcile env (record { resource = held; log = [] })).1.log
unfolding reconcile
reconcile-WritesWell env old held e =
    rw (e, fetch) ((body-Triple (reconcile_found-Good env old) _ ((tt, tt), refl)).0)
