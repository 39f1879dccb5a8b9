-- ===== src/Resource/Reconcile.antt =====
-- `Reconcile` and `performGarbageCollection` of
-- internal/controller/composableresource_controller.go.
use composable_resource_oper.Common.{◌<>◌, Bool, true, false, Option, none, some, ◌||◌}
use composable_resource_oper.Common.{if◌then◌else◌, ◌==◌, string_eq}
use composable_resource_oper.Common.{Action, body, call, pure, return, skip, get, ◌>>=◌, ◌>>◌}
use composable_resource_oper.Api.{Error, Result, Outcome, ResourceState, ComposableResource}
use composable_resource_oper.Api.{resource_state_eq}
use composable_resource_oper.Resource.Effects.{
  Env, World, Act, ask, edit, set_state, set_error, done, failed, requeue_on_err, update_status,
  delete, got_resource, got_node, looked_for_taint, deleted_taint,
}
use composable_resource_oper.Resource.Handlers.{
  is_not_found, unless_not_found, handle_none_state, handle_attaching_state, handle_online_state,
}
use composable_resource_oper.Resource.Detaching.{handle_detaching_state, handle_deleting_state}
use composable_resource_oper.Resource.Adapter.{new_adapter}

-- Statements of `performGarbageCollection`, which returns a Bool and an error.
abbrev pub Collect : Type 0 → Type 0
Collect A = Action World (Result Bool) A

-- `if err != nil { return false, err }`
abbrev give_up : Option Error → Collect (Unit {0})
give_up none = skip
give_up (some e) = return (Result.err e)

module _ (env : Env) where
  abbrev pub drop_taint : Result Bool → Collect (Unit {0})
  drop_taint (Result.err e) = return (Result.err e)
  drop_taint (Result.ok false) = skip
  drop_taint (Result.ok true) = ask env.delete_device_taint deleted_taint >>= λ e. give_up e

  -- Lines 148 to 155.
  unfoldable pub mark_deleting : Collect Bool
  mark_deleting = do
    w ← get
    let r = w.resource
    if r.status.state == ResourceState.deleting then pure false else (do
      edit (set_state ResourceState.deleting)
      edit (set_error ("target node " <> r.spec.target_node <> " not found"))
      e ← update_status env
      give_up (unless_not_found e)
      pure true)

  -- Lines 157 to 162.
  unfoldable pub request_deletion : Collect Bool
  request_deletion = do
    w ← get
    elim w.resource.meta.deletion_timestamp [
      | some _ ↦ pure false
      | none ↦ do e ← delete env; give_up (unless_not_found e); pure true
    ]

  -- Lines 137 to 168.
  unfoldable pub collect : Collect (Result Bool)
  collect = do
    t ← ask env.has_device_taint looked_for_taint
    drop_taint t
    marked ← mark_deleting
    deleted ← request_deletion
    pure (Result.ok (marked || deleted))

  abbrev node_answer : Option Error → Collect (Result Bool)
  node_answer none = pure (Result.ok false)
  node_answer (some e) = if is_not_found e then collect else pure (Result.err e)

  unfoldable pub perform_garbage_collection : Collect (Result Bool)
  perform_garbage_collection = do
    w ← get
    if w.resource.spec.target_node == "" then pure (Result.ok false) else (do
      e ← ask (λ log r. env.get_node log r.spec.target_node) (λ r e. got_node r.spec.target_node e)
      node_answer e)

  -- The `switch` of `Reconcile`, which has no default.
  unfoldable pub handle : ResourceState → Act Outcome
  handle ResourceState.empty = handle_none_state env
  handle ResourceState.attaching = handle_attaching_state env
  handle ResourceState.online = handle_online_state env
  handle ResourceState.detaching = handle_detaching_state env
  handle ResourceState.deleting = handle_deleting_state env
  handle (ResourceState.other _) = pure done

  abbrev pub reported : Outcome → Act Outcome
  reported o = elim o.error [ none ↦ pure o | some e ↦ requeue_on_err env e ]

  -- Lines 91 to 125: the adapter and the switch.
  unfoldable pub dispatch : Act Outcome
  dispatch = elim (new_adapter env.getenv) [
    | Result.err e ↦ requeue_on_err env e
    | Result.ok _ ↦ do w ← get; o ← call (handle w.resource.status.state); reported o
  ]

  abbrev pub collected : Result Bool → Act Outcome
  collected (Result.err e) = requeue_on_err env e
  collected (Result.ok true) = pure done
  collected (Result.ok false) = dispatch

  -- Lines 85 to 125, for the object that was found.
  unfoldable pub reconcile_found : Act Outcome
  reconcile_found w = let (g, t) = body perform_garbage_collection w in collected g t

  abbrev pub found : Result ComposableResource → Act Outcome
  found (Result.ok r) = edit (λ _. r) >> reconcile_found
  found (Result.err e) = if is_not_found e then pure done else pure (failed e)

  abbrev pub fetch : Act Outcome
  fetch = ask (λ log _. env.get_resource log) (λ _ a. got_resource a) >>= λ a. found a

  unfoldable pub reconcile : World → Outcome × World
  reconcile = body fetch
