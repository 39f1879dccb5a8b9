-- ===== src/Request/Writes.antt =====
-- What `handleComposabilityRequestChange` writes to the API server: the policy `Permitted`.
pub mod Conditions
pub mod Allocating
pub mod Updating
pub mod Cleaning
use composable_resource_oper.Common.{
  Bool-cases, Option-cases, get, sym, ap, String, Bool, true, false, Option, none, some, List, [],
  ◌∷◌, ◌≡◌, ◌≢◌, ◌⊎◌, inl, inr, refl, arith, contains, string_eq, ◌==◌, Triple, then-Triple,
  bind-Triple, get-Triple, if-Triple, body-Triple, body, pure, ◌>>=◌, ◌>>◌,
}
use composable_resource_oper.Common.Dict.{has}
use composable_resource_oper.Api.{
  ErrorKind, Error, Result, ok_inj, RequestState, ComposableResource, ComposabilityRequest,
  details_eq,
}
use composable_resource_oper.Nodes.{Node, check_node_existed}
use composable_resource_oper.Request.Effects.{
  Env, World, Act, Ending, returned, panicked, edit, set_state, set_error, accept_spec,
  set_resources, after, try, try_ok, requeue_on_err, finish_with_status, deleted, created,
}
use composable_resource_oper.Request.Allocation.{Resources, Keep, filtered, visit_all}
use composable_resource_oper.Request.Priority.{delete_surplus}
use composable_resource_oper.Request.Placement.{place}
use composable_resource_oper.Request.Handlers.{
  start, handle_none_state, clean_when_deleted, start_updating, place_and_update, reallocate,
  handle_node_allocating_state, delete_resource, delete_redundant, new_resource, create_resource,
  create_missing, all_online, bring_up, handle_updating_state, settle, handle_running_state,
  delete_all, clean, handle_cleaning_state, handle_deleting_state,
}
use composable_resource_oper.Request.Reconcile.{
  handle, reported, collected, target_answer, delete_request, perform_garbage_collection,
  handle_request_change, get_request, try_get, reconcile,
}
use composable_resource_oper.Request.Policy.{TargetMissing, Obeys, Judged, Permitted}
use composable_resource_oper.Request.Writes.Conditions.{Good, Start, Live}
use composable_resource_oper.Request.Writes.Allocating.{handle_node_allocating-Good}
use composable_resource_oper.Request.Writes.Updating.{handle_updating-Good, handle_running-Good}
use composable_resource_oper.Request.Writes.Cleaning.{
  handle_none-Good, handle_cleaning-Good, handle_deleting-Good,
}

module _ (env : Env) (old : ComposabilityRequest) where
  handle-Good :
      (s : RequestState) → Triple (Start env old s) (handle env s) (Good env old) (Good env old)
  unfolding handle
  handle-Good RequestState.empty = handle_none-Good env old
  handle-Good RequestState.node_allocating = handle_node_allocating-Good env old
  handle-Good RequestState.updating = handle_updating-Good env old
  handle-Good RequestState.running = handle_running-Good env old
  handle-Good RequestState.cleaning = handle_cleaning-Good env old
  handle-Good RequestState.deleting = handle_deleting-Good env old
  handle-Good (RequestState.other s) = record { apply = λ w h. ground arith }

  requeue-Good :
      (e : Error) → Triple (Good env old) (requeue_on_err env e) (Good env old) (Good env old)
  unfolding requeue_on_err
  requeue-Good e = record { apply = λ w h. ground arith }

  reported-Good :
      (o : Ending) → Triple (Good env old) (reported env o) (Good env old) (Good env old)
  reported-Good panicked = record { apply = λ w h. h }
  reported-Good (returned o) = elim (Option-cases o.error) [
    | inl n ↦ rw n (record { apply = λ w h. h })
    | inr (e, h) ↦ rw h (requeue-Good e)
  ]

  -- As it was read, in whatever state
  abbrev Read : World → Type 0
  Read w = Obeys (Permitted env old) w.log × (w.request ≡ old)

  Read-Good : (w : World) → Read w → (Good env old) w
  Read-Good w h = ground (h, arith)

  collected-Good : (g : Result Bool) → Triple Read (collected env g) (Good env old) (Good env old)
  collected-Good (Result.err e) = record { apply = λ w h. (requeue-Good e).apply w (Read-Good w h) }
  collected-Good (Result.ok true) = record { apply = λ w h. Read-Good w h }
  collected-Good (Result.ok false) = record {
    apply = λ w (log, same).
        let s = w.request.status.state in
        let (o, t) = body (handle env s) w in
        (reported-Good o).apply t
          (body-Triple (handle-Good s) w (log, same, λ i. (sym same i).status.state));
  }

  not_found-TargetMissing :
      (e : Error)
      → env.get_node old.resource.target_node ≡ Result.err e
      → e.kind ≡ ErrorKind.not_found
      → TargetMissing env old
  unfolding TargetMissing
  not_found-TargetMissing e h k = (e, h, k)

  target_answer-Read :
      (x : Result Node) (w : World)
      → Read w
      → env.get_node w.request.resource.target_node ≡ x
      → Read
          (body (target_answer env (elim x [ Result.err e ↦ some e | Result.ok node ↦ none ])) w).1
  unfolding delete_request
  target_answer-Read (Result.ok node) w h k = h
  target_answer-Read (Result.err e) w h k = ground (h, arith, not_found-TargetMissing e)

  perform_garbage_collection-Read :
      (w : World) → Read w → Read (body (perform_garbage_collection env) w).1
  unfolding perform_garbage_collection check_node_existed
  perform_garbage_collection-Read w h = elim (Bool-cases (w.request.resource.target_node == "")) [
    | inl e ↦ rw e h
    | inr e ↦ rw e (target_answer-Read (env.get_node w.request.resource.target_node) w h refl)
  ]

  handle_request_change-Good : Triple Read (handle_request_change env) (Good env old) (Good env old)
  unfolding handle_request_change
  handle_request_change-Good = record {
    apply = λ w h.
        let (g, t) = body (perform_garbage_collection env) w in
        (collected-Good g).apply t (perform_garbage_collection-Read w h);
  }

  get_request-Obeys :
      (name : String) (x : Result (Option ComposabilityRequest)) (w : World)
      → x ≡ Result.ok (some old)
      → w.log ≡ []
      → Obeys (Permitted env old) (body (get_request env name x) w).1.log
  get_request-Obeys name (Result.err e) w h l = absurd (ground arith)
  get_request-Obeys name (Result.ok none) w h l = absurd (ground arith)
  get_request-Obeys name (Result.ok (some q)) w h l =
      (body-Triple handle_request_change-Good (record w { request = q })
        (rw l tt, ap (λ o. elim o [ some a ↦ a | none ↦ q ]) (ok_inj h))).0

-- A reconciliation of a request, from its reading to its return, writes only what the policy
-- `Permitted` allows.
pub reconcile-Permitted :
    (env : Env) (name : String) (old held : ComposabilityRequest)
    → env.get_request name ≡ Result.ok old
    → Obeys (Permitted env old) (reconcile env name (record { request = held; log = [] })).1.log
unfolding reconcile
reconcile-Permitted env name old held h =
    get_request-Obeys env old name (try_get env (env.get_request name))
      (record { request = held; log = [] }) (ground arith) refl
