-- ===== src/Request/Reconcile.antt =====
-- `Reconcile`, `handleComposabilityRequestChange`, `performGarbageCollection`,
-- `handleComposableResourceChange` and the watch predicate of
-- internal/controller/composabilityrequest_controller.go.
use composable_resource_oper.Common.{
  String, ◌<>◌, Bool, true, false, not, Option, none, some, [], ◌∷◌, if◌then◌else◌, ◌==◌, ◌!=◌,
  string_eq, ◌&&◌,
}
use composable_resource_oper.Common.{Action, body, call, pure, get, ◌>>=◌, ◌>>◌}
use composable_resource_oper.Api.{
  Error, Result, ResourceState, RequestState, ComposableResource, ComposableResourceStatus,
  ComposabilityRequest, ScalarResourceStatus, resource_state_eq,
}
use composable_resource_oper.Nodes.{errorf, check_node_existed}
use composable_resource_oper.Resource.Handlers.{is_not_found, unless_not_found, label, device_label}
use composable_resource_oper.Request.Allocation.{Resources}
use composable_resource_oper.Request.Effects.{
  Env, World, Act, Ending, returned, panicked, ask, edit, set_resources, done, requeue_on_err,
  try_ok, finish_with_status, deleted_request,
}
use composable_resource_oper.Request.Handlers.{
  handle_none_state, handle_node_allocating_state, handle_updating_state, handle_running_state,
  handle_cleaning_state, handle_deleting_state,
}

-- Statements of `performGarbageCollection`, which returns a Bool and an error.
abbrev pub Collect : Type 0 → Type 0
Collect A = Action World (Result Bool) A

-- Lines 183 to 192: the entry of the resource takes over its status.
abbrev pub synced : ComposableResourceStatus → ScalarResourceStatus → ScalarResourceStatus
synced s v = record v {
  state = s.state;
  error = s.error;
  device_id = s.device_id;
  cdi_device_id = s.cdi_device_id;
}

unfoldable pub sync_entry : String → ComposableResourceStatus → Resources → Resources
sync_entry name s [] = []
sync_entry name s ((key, v) ∷ d) =
    if key == name then (key, synced s v) ∷ d else (key, v) ∷ sync_entry name s d

-- `resourceStatusUpdatePredicate` on an update of a ComposableResource
unfoldable pub status_changed : ComposableResource → ComposableResource → Bool
status_changed old new = not (
    same_state old.status.state new.status.state
    && (old.status.error == new.status.error
        && (old.status.device_id == new.status.device_id
            && old.status.cdi_device_id == new.status.cdi_device_id)))
  where
    same_state : ResourceState → ResourceState → Bool
    same_state s t = s == t

module _ (env : Env) where
  unfoldable pub delete_request : Collect (Result Bool)
  delete_request = do
    e ← ask env.delete_request deleted_request
    elim (unless_not_found e) [ some x ↦ pure (Result.err x) | none ↦ pure (Result.ok true) ]

  abbrev pub target_missing : Collect (Result Bool)
  target_missing = do
    w ← get
    elim w.request.meta.deletion_timestamp [
      | some _ ↦ pure (Result.ok false)
      | none ↦ delete_request
    ]

  abbrev pub target_answer : Option Error → Collect (Result Bool)
  target_answer none = pure (Result.ok false)
  target_answer (some e) = if is_not_found e then target_missing else pure (Result.err e)

  unfoldable pub perform_garbage_collection : Collect (Result Bool)
  unfolding delete_request
  perform_garbage_collection = do
    w ← get
    if w.request.resource.target_node == ""
        then pure (Result.ok false)
        else target_answer (check_node_existed env.get_node w.request.resource.target_node)

  -- The `switch` on the state.
  unfoldable pub handle : RequestState → Act Ending
  handle RequestState.empty = handle_none_state env
  handle RequestState.node_allocating = handle_node_allocating_state env
  handle RequestState.updating = handle_updating_state env
  handle RequestState.running = handle_running_state env
  handle RequestState.cleaning = handle_cleaning_state env
  handle RequestState.deleting = handle_deleting_state env
  handle (RequestState.other s) = pure (
      returned (record {
        requeue_after = none;
        error = some (errorf ("the composabilityRequest state '" <> s <> "' is invalid"));
      }))

  abbrev pub reported : Ending → Act Ending
  reported panicked = pure panicked
  reported (returned o) = elim o.error [ none ↦ pure (returned o) | some e ↦ requeue_on_err env e ]

  abbrev pub collected : Result Bool → Act Ending
  collected (Result.err e) = requeue_on_err env e
  collected (Result.ok true) = pure done
  collected (Result.ok false) = do w ← get; o ← call (handle w.request.status.state); reported o

  -- `handleComposabilityRequestChange`
  unfoldable pub handle_request_change : Act Ending
  handle_request_change w = let (g, t) = body perform_garbage_collection w in collected g t

  -- `handleComposableResourceChange`; the request that it reads takes the place of the held one.
  unfoldable pub handle_resource_change : ComposableResource → Act Ending
  unfolding sync_entry try_ok finish_with_status
  handle_resource_change r = if label device_label r != "" then pure done else (do
    q ← try_ok env (env.get_request (label "app.kubernetes.io/managed-by" r))
    edit (λ _. q)
    edit (λ q. set_resources (sync_entry r.meta.name r.status q.status.resources) q)
    finish_with_status env)

  -- `tryGet`: `none` for what is not there.
  abbrev pub try_get : {A : Type 0} → Result A → Result (Option A)
  try_get (Result.ok a) = Result.ok (some a)
  try_get (Result.err e) = if is_not_found e then Result.ok none else Result.err e

  abbrev pub get_resource : Result (Option ComposableResource) → Act Ending
  get_resource (Result.err e) = requeue_on_err env e
  get_resource (Result.ok (some r)) = handle_resource_change r
  get_resource (Result.ok none) = pure done

  abbrev pub get_request : String → Result (Option ComposabilityRequest) → Act Ending
  get_request name (Result.err e) = requeue_on_err env e
  get_request name (Result.ok (some q)) = edit (λ _. q) >> handle_request_change
  get_request name (Result.ok none) = get_resource (try_get (env.get_resource name))

  -- `Reconcile` for a name that is a request's or a resource's.
  unfoldable pub reconcile : String → World → Ending × World
  reconcile name = body (get_request name (try_get (env.get_request name)))
