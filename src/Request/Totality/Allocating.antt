-- ===== src/Request/Totality/Allocating.antt =====
-- `handleNoneState` and `handleNodeAllocatingState` return.
use composable_resource_oper.Common.{
  String, ℕ, Ends, Option, none, some, List, ◌≡◌, ◌≢◌, arith, string_eq, bind-Spec, then-Spec,
  if-Spec, refl,
}
use composable_resource_oper.Api.{
  RequestState, ComposableResource, ComposabilityRequest, details_eq,
}
use composable_resource_oper.Nodes.{Node}
use composable_resource_oper.Request.Effects.{
  Env, World, panicked, set_state, set_error, set_resources, accept_spec,
}
use composable_resource_oper.Request.Allocation.{Resources, Keep, filtered, visit_all}
use composable_resource_oper.Request.Priority.{delete_surplus}
use composable_resource_oper.Request.Placement.{place, add_entries}
use composable_resource_oper.Request.Handlers.{
  start, handle_none_state, clean_when_deleted, start_updating, place_and_update, reallocate,
  handle_node_allocating_state, add_finalizer,
}
use composable_resource_oper.Request.Counting.{visit_all-surplus}
use composable_resource_oper.Request.Surplus.{delete_surplus-total}
use composable_resource_oper.Request.Totality.Returning.{
  Quiet, Final, edit-Quiet, get-Quiet, skip-Quiet, update-Quiet, try-Quiet, try_ok-Quiet,
  finish-Final,
}

module _ (env : Env) where
  pub handle_none_state-Final : Final (handle_none_state env)
  unfolding handle_none_state
  handle_none_state-Final = bind-Spec get-Quiet (λ w.
      then-Spec
        (if-Spec w.request.meta.has_finalizer skip-Quiet
          (then-Spec (edit-Quiet add_finalizer) (bind-Spec (update-Quiet env) (try-Quiet env))))
        (then-Spec (edit-Quiet (set_state RequestState.node_allocating)) (
          then-Spec (edit-Quiet (set_error ""))
            (then-Spec (edit-Quiet accept_spec) (finish-Final env)))))

  pub clean_when_deleted-Quiet : Quiet (clean_when_deleted env)
  unfolding clean_when_deleted
  clean_when_deleted-Quiet = record { apply = λ w _. go w w.request.meta.deletion_timestamp refl }
    where
      go :
          (w : World) (o : Option ℕ)
          → w.request.meta.deletion_timestamp ≡ o
          → Ends (λ _ _. Unit {0}) (λ o _. o ≢ panicked) (clean_when_deleted env w)
      go w none e = rw (e, clean_when_deleted) tt
      go w (some _) e = rw (e, clean_when_deleted) (ground arith)

  start_updating-Final : (nodes : List String) → Final (start_updating env nodes)
  unfolding start_updating
  start_updating-Final nodes =
      then-Spec
        (edit-Quiet (λ q.
          set_resources (add_entries (env.fresh_name q.resource.type) 0 nodes q.status.resources)
            q))
        (then-Spec (edit-Quiet (set_state RequestState.updating)) (
          then-Spec (edit-Quiet (set_error ""))
            (then-Spec (edit-Quiet accept_spec) (finish-Final env))))

  place_and_update-Final :
      (requests : List ComposabilityRequest) (nodes : List Node) (k : Keep) (d : Option Resources)
      → d ≢ none
      → Final (place_and_update env requests nodes k d)
  unfolding place_and_update
  place_and_update-Final requests nodes k none h = absurd (h refl)
  place_and_update-Final requests nodes k (some d) h = then-Spec (edit-Quiet (set_resources d)) (
      bind-Spec get-Quiet (λ w.
        bind-Spec
          (try_ok-Quiet env (
            place env.get_node w.request.resource w.request.meta.name requests nodes
              (record k { resources = d })))
          start_updating-Final))

  reallocate-Final :
      (items : List ComposableResource) (requests : List ComposabilityRequest) (nodes : List Node)
      → Final (reallocate env items requests nodes)
  unfolding reallocate
  reallocate-Final items requests nodes = bind-Spec get-Quiet (λ w.
      let (k, e) = visit_all env.get_node w.request.resource (start w.request) items in
      then-Spec (edit-Quiet (set_resources k.resources)) (
        then-Spec (try-Quiet env e) (
          place_and_update-Final requests nodes k
            (delete_surplus env.parse_time k.to_delete items k.resources)
            (delete_surplus-total env.parse_time k.to_delete items k.resources (
              omega (
                arith,
                visit_all-surplus env.get_node w.request.resource (start w.request) items,
              ))))))

  pub handle_node_allocating_state-Final : Final (handle_node_allocating_state env)
  unfolding handle_node_allocating_state
  handle_node_allocating_state-Final = then-Spec clean_when_deleted-Quiet (
      bind-Spec get-Quiet (λ w.
        bind-Spec (try_ok-Quiet env (env.managed_by w.request.meta.name)) (λ items.
          bind-Spec (try_ok-Quiet env env.requests) (λ requests.
            bind-Spec (try_ok-Quiet env env.nodes) (reallocate-Final (filtered items) requests)))))
