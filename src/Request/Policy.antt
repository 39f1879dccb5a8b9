-- ===== src/Request/Policy.antt =====
-- What a reconciliation of a ComposabilityRequest may write, call by call: each call is judged by the
-- request that was read, by what the API server holds, and by its arguments.
use composable_resource_oper.Common.{true, false, none, some, List, [], ◌∷◌, ◌≡◌, ◌≢◌, ◌⊎◌}
use composable_resource_oper.Common.Dict.{has, lookup}
use composable_resource_oper.Api.{Error, ErrorKind, Result, RequestState, ComposabilityRequest}
use composable_resource_oper.Request.Effects.{
  Env, Call, updated, updated_status, deleted_request, created, deleted,
}
use composable_resource_oper.Request.Handlers.{all_online}

abbrev pub Obeys : (Call → Type 0) → List Call → Type 0
Obeys P [] = Unit {0}
Obeys P (c ∷ log) = P c × Obeys P log

-- The target node of a request is not found.
unfoldable pub TargetMissing : Env → ComposabilityRequest → Type 0
TargetMissing env q =
    (x : Error) × (env.get_node q.resource.target_node ≡ Result.err x)
    × (x.kind ≡ ErrorKind.not_found)

module _ (env : Env) (old : ComposabilityRequest) where
  -- The state machine: from the state that was read to that of the request as it is written.
  abbrev pub Edge : RequestState → RequestState → ComposabilityRequest → Type 0
  Edge RequestState.empty RequestState.empty q = Unit {0}
  Edge RequestState.empty RequestState.node_allocating q = Unit {0}
  Edge RequestState.node_allocating RequestState.node_allocating q = Unit {0}
  Edge RequestState.node_allocating RequestState.updating q = q.status.scalar_resource ≡ q.resource
  Edge RequestState.node_allocating RequestState.cleaning q = old.meta.deletion_timestamp ≢ none
  Edge RequestState.updating RequestState.updating q = Unit {0}
  Edge RequestState.updating RequestState.running q =
      (all_online env q.status.resources ≡ true) × (old.status.scalar_resource ≡ old.resource)
  Edge RequestState.updating RequestState.node_allocating q =
      old.status.scalar_resource ≢ old.resource
  Edge RequestState.updating RequestState.cleaning q = old.meta.deletion_timestamp ≢ none
  Edge RequestState.running RequestState.running q = Unit {0}
  Edge RequestState.running RequestState.node_allocating q =
      old.status.scalar_resource ≢ old.resource
  Edge RequestState.running RequestState.cleaning q = old.meta.deletion_timestamp ≢ none
  Edge RequestState.cleaning RequestState.cleaning q = Unit {0}
  Edge RequestState.cleaning RequestState.deleting q = env.managed_by old.meta.name ≡ Result.ok []
  Edge RequestState.deleting RequestState.deleting q = Unit {0}
  Edge (RequestState.other s) (RequestState.other t) q = s ≡ t
  Edge _ _ q = ⊥

  -- The spec is as it was read, and the state was reached along an edge.
  abbrev pub Judged : ComposabilityRequest → Type 0
  Judged q =
      (q.resource ≡ old.resource)
      × (q.meta.name ≡ old.meta.name)
      × Edge old.status.state q.status.state q

  -- The finalizer goes only from a request that was Deleting. A resource is created only for an
  -- entry of a request that is Updating and not being deleted, with that entry's name, and is
  -- deleted where it has no entry, or where the request is Cleaning. The request itself is
  -- deleted only where its target node is not found.
  abbrev pub Permitted : Call → Type 0
  Permitted (updated_status q e) = Judged q
  Permitted (updated q e) =
      Judged q × ((q.meta.has_finalizer ≡ true) ⊎ (old.status.state ≡ RequestState.deleting))
  Permitted (created r e) =
      (old.status.state ≡ RequestState.updating)
      × (old.meta.deletion_timestamp ≡ none)
      × (old.status.scalar_resource ≡ old.resource)
      × (has r.meta.name old.status.resources ≡ true)
      × (lookup "app.kubernetes.io/managed-by" r.meta.labels ≡ some old.meta.name)
  Permitted (deleted r e) =
      ((old.status.state ≡ RequestState.updating) × (has r.meta.name old.status.resources ≡ false))
      ⊎ (old.status.state ≡ RequestState.cleaning)
  Permitted (deleted_request q e) =
      (q ≡ old) × (old.meta.deletion_timestamp ≡ none) × TargetMissing env old
