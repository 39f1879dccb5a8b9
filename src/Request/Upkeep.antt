-- ===== src/Request/Upkeep.antt =====
-- Which resources `handleUpdatingState` creates and deletes.
use composable_resource_oper.Common.{
  String, not, ◌&&◌, ◌||◌, none, List, [], ◌∷◌, ◌≡◌, arith, refl, string_eq, contains, body, next,
  if◌then◌else◌,
}
use composable_resource_oper.Common.Dict.{has}
use composable_resource_oper.Api.{Result, ComposableResource, ComposabilityRequest}
use composable_resource_oper.Request.Effects.{
  Env, World, Call, created, deleted, try, try_ok, finish_with_status,
}
use composable_resource_oper.Request.Allocation.{Resources}
use composable_resource_oper.Request.Counting.{names}
use composable_resource_oper.Request.Handlers.{
  delete_redundant, create_missing, new_resource, bring_up, handle_updating_state,
  clean_when_deleted,
}

-- The names of the resources that were created, or deleted.
abbrev pub created_names : List Call → List String
created_names [] = []
created_names (created r e ∷ log) = r.meta.name ∷ created_names log
created_names (c ∷ log) = created_names log

abbrev pub deleted_names : List Call → List String
deleted_names [] = []
deleted_names (deleted r e ∷ log) = r.meta.name ∷ deleted_names log
deleted_names (c ∷ log) = deleted_names log

module _ (env : Env)
    (deletes : (log : List Call) (r : ComposableResource) → env.delete log r ≡ none)
    (creates : (log : List Call) (r : ComposableResource) → env.create log r ≡ none) where
  -- The list of names that may stay, and the calls
  stay : Resources → List ComposableResource → List String
  stay d [] = []
  stay d (r ∷ rs) = if has r.meta.name d then r.meta.name ∷ stay d rs else stay d rs

  drop_log : Resources → List ComposableResource → List Call → List Call
  drop_log d [] log = log
  drop_log d (r ∷ rs) log =
      if has r.meta.name d then drop_log d rs log else drop_log d rs (deleted r none ∷ log)

  delete_redundant-runs :
      (d : Resources) (rs : List ComposableResource) (w : World)
      → delete_redundant env d rs w ≡ (next (stay d rs), record w { log = drop_log d rs w.log })
  unfolding delete_redundant try stay drop_log
  delete_redundant-runs d [] w = refl
  delete_redundant-runs d (r ∷ rs) w = ground (
    arith,
    deletes w.log r,
    delete_redundant-runs d rs w,
    delete_redundant-runs d rs (record w { log = deleted r none ∷ w.log }),
  )

  make_log : ComposabilityRequest → List String → Resources → List Call → List Call
  make_log q existed [] log = log
  make_log q existed ((name, v) ∷ d) log =
      if contains existed name
      then make_log q existed d log
      else make_log q existed d (created (new_resource env q name v) none ∷ log)

  create_missing-runs :
      (q : ComposabilityRequest) (existed : List String) (d : Resources) (w : World)
      → create_missing env q existed d w ≡ (next tt, record w { log = make_log q existed d w.log })
  unfolding create_missing try make_log
  create_missing-runs q existed [] w = refl
  create_missing-runs q existed ((name, v) ∷ d) w =
      let r = new_resource env q name v in
      ground (
        arith,
        creates w.log r,
        create_missing-runs q existed d w,
        create_missing-runs q existed d (record w { log = created r none ∷ w.log }),
      )

  drop_log-names :
      (d : Resources) (rs : List ComposableResource) (log : List Call) (x : String)
      → (contains (deleted_names (drop_log d rs log)) x
          ≡ ((contains (names rs) x && not (has x d)) || contains (deleted_names log) x))
        × (created_names (drop_log d rs log) ≡ created_names log)
  unfolding drop_log
  drop_log-names d [] log x = (ground arith, refl)
  drop_log-names d (r ∷ rs) log x =
      let (a, b) = drop_log-names d rs log x in
      let (a', b') = drop_log-names d rs (deleted r none ∷ log) x in
      (ground (arith, a, a'), ground (arith, b, b'))

  make_log-names :
      (q : ComposabilityRequest) (existed : List String) (d : Resources) (log : List Call)
      (x : String)
      → (contains (created_names (make_log q existed d log)) x
          ≡ ((has x d && not (contains existed x)) || contains (created_names log) x))
        × (deleted_names (make_log q existed d log) ≡ deleted_names log)
  unfolding make_log
  make_log-names q existed [] log x = (ground arith, refl)
  make_log-names q existed ((name, v) ∷ d) log x =
      let (a, b) = make_log-names q existed d log x in
      let (a', b') =
        make_log-names q existed d (created (new_resource env q name v) none ∷ log) x in
      (ground (arith, a, a'), ground (arith, b, b'))

  contains-stay :
      (d : Resources) (rs : List ComposableResource) (x : String)
      → contains (stay d rs) x ≡ (contains (names rs) x && has x d)
  unfolding stay
  contains-stay d [] x = refl
  contains-stay d (r ∷ rs) x = ground (arith, contains-stay d rs x)

  bring_up-exact :
      (w : World) (items : List ComposableResource) (x : String)
      → env.managed_by w.request.meta.name ≡ Result.ok items
      → w.log ≡ []
      → (contains (created_names (body (bring_up env) w).1.log) x
          ≡ (has x w.request.status.resources && not (contains (names items) x)))
        × (contains (deleted_names (body (bring_up env) w).1.log) x
            ≡ (contains (names items) x && not (has x w.request.status.resources)))
  unfolding bring_up try_ok finish_with_status
  bring_up-exact w items x h l =
      let d = w.request.status.resources in
      let w1 : World = record w { log = drop_log d items w.log } in
      ground (
        arith,
        delete_redundant-runs d items w,
        create_missing-runs w.request (stay d items) d w1,
        drop_log-names d items w.log x,
        make_log-names w.request (stay d items) d w1.log x,
        contains-stay d items x,
      )

  handle_updating_lem :
      (w : World)
      → w.request.meta.deletion_timestamp ≡ none
      → w.request.status.scalar_resource ≡ w.request.resource
      → handle_updating_state env w ≡ bring_up env w
  unfolding handle_updating_state clean_when_deleted
  handle_updating_lem w n e = ground (arith, n, e)

  -- Where no creation and no deletion fails and its resources can be listed, a request that is Updating,
  -- that is not being deleted and whose specification is the one that was accepted has each of its
  -- entries without a resource created, and each resource without an entry deleted, and no others.
  pub handle_updating_state-exact :
      (w : World) (items : List ComposableResource) (x : String)
      → w.request.meta.deletion_timestamp ≡ none
      → w.request.status.scalar_resource ≡ w.request.resource
      → env.managed_by w.request.meta.name ≡ Result.ok items
      → w.log ≡ []
      → (contains (created_names (body (handle_updating_state env) w).1.log) x
          ≡ (has x w.request.status.resources && not (contains (names items) x)))
        × (contains (deleted_names (body (handle_updating_state env) w).1.log) x
            ≡ (contains (names items) x && not (has x w.request.status.resources)))
  handle_updating_state-exact w items x n e h l =
      let (made, gone) = bring_up-exact w items x h l in
      let same = handle_updating_lem w n e in (rw (same, made), rw (same, gone))
