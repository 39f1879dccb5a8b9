-- ===== src/Request/Writes/Allocating.antt =====
-- The writes of `handleNodeAllocatingState`.
use composable_resource_oper.Common.{
  get, String, Option, none, some, List, ◌≡◌, arith, string_eq, Triple, then-Triple, bind-Triple,
  ◌>>=◌,
}
use composable_resource_oper.Api.{
  Error, Result, RequestState, ComposableResource, ComposabilityRequest, details_eq,
}
use composable_resource_oper.Nodes.{Node}
use composable_resource_oper.Request.Effects.{
  Env, World, Act, Ending, edit, set_resources, try, try_ok, requeue_on_err, finish_with_status,
}
use composable_resource_oper.Request.Allocation.{Resources, Keep, filtered, visit_all}
use composable_resource_oper.Request.Priority.{delete_surplus}
use composable_resource_oper.Request.Placement.{place}
use composable_resource_oper.Request.Handlers.{
  start, clean_when_deleted, start_updating, place_and_update, reallocate,
  handle_node_allocating_state,
}
use composable_resource_oper.Request.Policy.{Obeys, Permitted}
use composable_resource_oper.Request.Writes.Conditions.{Good, Start}

module _ (env : Env) (old : ComposabilityRequest) where
  -- Its spec and state as they were read
  abbrev In : RequestState → World → Type 0
  In s w =
      Obeys (Permitted env old) w.log
      × (w.request.resource ≡ old.resource)
      × (w.request.meta ≡ old.meta)
      × (old.status.state ≡ s)
      × (w.request.status.state ≡ s)

  clean_when_deleted-allocating :
      Triple
        (Start env old RequestState.node_allocating)
        (clean_when_deleted env)
        (In RequestState.node_allocating)
        (Good env old)
  unfolding clean_when_deleted finish_with_status
  clean_when_deleted-allocating = record { apply = λ w h. ground arith }

  try-allocating :
      (e : Option Error)
      → Triple
          (In RequestState.node_allocating)
          (try env e)
          (In RequestState.node_allocating)
          (Good env old)
  unfolding try requeue_on_err
  try-allocating none = record { apply = λ w h. h }
  try-allocating (some e) = record { apply = λ w h. ground arith }

  try_ok-allocating :
      {A : Type 0} (x : Result A)
      → Triple
          (In RequestState.node_allocating)
          (try_ok env x)
          (In RequestState.node_allocating)
          (Good env old)
  unfolding try_ok requeue_on_err
  try_ok-allocating (Result.ok a) = record { apply = λ w h. h }
  try_ok-allocating (Result.err e) = record { apply = λ w h. ground arith }

  set_resources-allocating :
      (d : Resources)
      → Triple
          (In RequestState.node_allocating)
          (edit {R = Ending} (set_resources d))
          (In RequestState.node_allocating)
          (Good env old)
  set_resources-allocating d = record { apply = λ w h. h }

  start_updating-Good :
      (nodes : List String)
      → Triple
          (In RequestState.node_allocating)
          (start_updating env nodes)
          (Good env old)
          (Good env old)
  unfolding start_updating finish_with_status
  start_updating-Good nodes = record { apply = λ w h. ground arith }

  get-allocating :
      {f : World → Act Ending}
      → ((v : World) → Triple (In RequestState.node_allocating) (f v) (Good env old) (Good env old))
      → Triple (In RequestState.node_allocating) (get >>= f) (Good env old) (Good env old)
  get-allocating h = record { apply = λ w p. (h w).apply w p }

  place_and_update-Good :
      (requests : List ComposabilityRequest) (nodes : List Node) (k : Keep) (d : Option Resources)
      → Triple
          (In RequestState.node_allocating)
          (place_and_update env requests nodes k d)
          (Good env old)
          (Good env old)
  unfolding place_and_update
  place_and_update-Good requests nodes k none = record { apply = λ w h. ground arith }
  place_and_update-Good requests nodes k (some d) = then-Triple (set_resources-allocating d) (
      get-allocating (λ w.
        bind-Triple
          (try_ok-allocating (
            place env.get_node w.request.resource w.request.meta.name requests nodes
              (record k { resources = d })))
          start_updating-Good))

  reallocate-Good :
      (items : List ComposableResource) (requests : List ComposabilityRequest) (nodes : List Node)
      → Triple
          (In RequestState.node_allocating)
          (reallocate env items requests nodes)
          (Good env old)
          (Good env old)
  unfolding reallocate
  reallocate-Good items requests nodes = get-allocating (λ w.
      let (k, e) = visit_all env.get_node w.request.resource (start w.request) items in
      then-Triple (set_resources-allocating k.resources) (
        then-Triple (try-allocating e) (
          place_and_update-Good requests nodes k
            (delete_surplus env.parse_time k.to_delete items k.resources))))

  pub handle_node_allocating-Good :
      Triple
        (Start env old RequestState.node_allocating)
        (handle_node_allocating_state env)
        (Good env old)
        (Good env old)
  unfolding handle_node_allocating_state
  handle_node_allocating-Good = then-Triple clean_when_deleted-allocating (
      get-allocating (λ w.
        bind-Triple (try_ok-allocating (env.managed_by w.request.meta.name)) (λ items.
          bind-Triple (try_ok-allocating env.requests) (λ requests.
            bind-Triple (try_ok-allocating env.nodes)
              (reallocate-Good (filtered items) requests)))))
