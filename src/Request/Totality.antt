-- ===== src/Request/Totality.antt =====
-- Every reconciliation of internal/controller/composabilityrequest_controller.go ends in a return.
pub mod Returning
pub mod Allocating
pub mod Updating
use composable_resource_oper.Common.{
  String, ℕ, Ends, ◌!=◌, Bool, true, false, Option, none, some, Option-cases, List, [], ◌≡◌, ◌≢◌,
  inl, inr, arith, body, ◌==◌, contains, string_eq, Spec, bind-Spec, then-Spec, body-Spec, if-Spec,
  refl, pure, skip, get, return, ◌>>=◌, ◌>>◌, ◌∷◌,
}
use composable_resource_oper.Common.Dict.{has}
use composable_resource_oper.Api.{
  Error, Result, Outcome, RequestState, ComposableResource, ComposabilityRequest, details_eq,
}
use composable_resource_oper.Resource.Handlers.{label, device_label}
use composable_resource_oper.Nodes.{Node}
use composable_resource_oper.Request.Effects.{
  Env, World, Act, Ending, returned, panicked, edit, set_state, set_error, set_resources,
  accept_spec, done, after, update, update_status, requeue_on_err, try, try_ok, finish_with_status,
  deleted, created,
}
use composable_resource_oper.Request.Allocation.{Resources, Keep, filtered, visit_all}
use composable_resource_oper.Request.Priority.{delete_surplus}
use composable_resource_oper.Request.Placement.{place, add_entries}
use composable_resource_oper.Request.Handlers.{
  start, handle_none_state, clean_when_deleted, start_updating, place_and_update, reallocate,
  handle_node_allocating_state, delete_redundant, create_missing, all_online, bring_up,
  handle_updating_state, handle_running_state, delete_all, clean, settle, delete_resource,
  create_resource, new_resource, add_finalizer, handle_cleaning_state, handle_deleting_state,
  remove_finalizer,
}
use composable_resource_oper.Request.Reconcile.{
  handle, reported, collected, perform_garbage_collection, handle_request_change,
  handle_resource_change, get_request, get_resource, try_get, reconcile, sync_entry,
}
use composable_resource_oper.Request.Counting.{visit_all-surplus}
use composable_resource_oper.Request.Surplus.{delete_surplus-total}
use composable_resource_oper.Request.Totality.Returning.{
  Quiet, Final, edit-Quiet, get-Quiet, skip-Quiet, pure-Quiet, pure-Final, after-Final, done-Final,
  update_status-Quiet, update-Quiet, requeue-Final, try-Quiet, try_ok-Quiet, finish-Final,
}
use composable_resource_oper.Request.Totality.Allocating.{
  handle_none_state-Final, clean_when_deleted-Quiet, handle_node_allocating_state-Final,
}
use composable_resource_oper.Request.Totality.Updating.{
  handle_updating_state-Final, handle_running_state-Final, handle_cleaning_state-Final,
  handle_deleting_state-Final,
}

module _ (env : Env) where
  handle-Final : (s : RequestState) → Final (handle env s)
  unfolding handle
  handle-Final RequestState.empty = handle_none_state-Final env
  handle-Final RequestState.node_allocating = handle_node_allocating_state-Final env
  handle-Final RequestState.updating = handle_updating_state-Final env
  handle-Final RequestState.running = handle_running_state-Final env
  handle-Final RequestState.cleaning = handle_cleaning_state-Final env
  handle-Final RequestState.deleting = handle_deleting_state-Final env
  handle-Final (RequestState.other s) = pure-Final _

  reported-Final : (o : Ending) → o ≢ panicked → Final (reported env o)
  reported-Final panicked h = absurd (h refl)
  reported-Final (returned o) h = elim (Option-cases o.error) [
    | inl n ↦ rw n (pure-Final o)
    | inr (e, h) ↦ rw h (requeue-Final env e)
  ]

  collected-Final : (g : Result Bool) → Final (collected env g)
  collected-Final (Result.err e) = (requeue-Final env) e
  collected-Final (Result.ok true) = done-Final
  collected-Final (Result.ok false) = record {
    apply = λ w _.
        let (o, t) = body (handle env w.request.status.state) w in
        (reported-Final o (body-Spec (handle-Final w.request.status.state) w tt)).apply t tt;
  }

  handle_request_change-Final : Final (handle_request_change env)
  unfolding handle_request_change
  handle_request_change-Final = record {
    apply = λ w _.
        let (g, t) = body (perform_garbage_collection env) w in (collected-Final g).apply t tt;
  }

  handle_resource_change-Final : (r : ComposableResource) → Final (handle_resource_change env r)
  unfolding handle_resource_change
  handle_resource_change-Final r = if-Spec (label device_label r != "") done-Final (
      bind-Spec (try_ok-Quiet env (env.get_request (label "app.kubernetes.io/managed-by" r))) (λ q.
        then-Spec (edit-Quiet (λ _. q)) (
          then-Spec
            (edit-Quiet (λ q. set_resources (sync_entry r.meta.name r.status q.status.resources) q))
            (finish-Final env))))

  get_resource-Final : (x : Result (Option ComposableResource)) → Final (get_resource env x)
  get_resource-Final (Result.err e) = (requeue-Final env) e
  get_resource-Final (Result.ok (some r)) = handle_resource_change-Final r
  get_resource-Final (Result.ok none) = done-Final

  get_request-Final :
      (name : String) (x : Result (Option ComposabilityRequest)) → Final (get_request env name x)
  get_request-Final name (Result.err e) = (requeue-Final env) e
  get_request-Final name (Result.ok (some q)) =
      then-Spec (edit-Quiet (λ _. q)) handle_request_change-Final
  get_request-Final name (Result.ok none) = get_resource-Final (try_get env (env.get_resource name))

  -- No reconciliation of the request controller panics: the loop that drops surplus resources
  -- never leaves its five lists, whatever the request and the lists read from the API server hold.
  pub reconcile-total : (name : String) (w : World) → (reconcile env name w).0 ≢ panicked
  unfolding reconcile
  reconcile-total name w =
      body-Spec (get_request-Final name (try_get env (env.get_request name))) w tt
