-- ===== src/Resource/Policy.antt =====
-- What a reconciliation of a ComposableResource may do, call by call: each call is judged by its
-- arguments and by the calls before it.
use composable_resource_oper.Common.{true, false, none, some, List, [], ◌∷◌}
use composable_resource_oper.Common.{◌≡◌, ◌≢◌, ◌⊎◌, string_eq}
use composable_resource_oper.Resource.Handlers.{label, device_label}
use composable_resource_oper.Api.{ErrorKind, Result, ResourceState, ComposableResource}
use composable_resource_oper.Resource.Effects.{
  Env, Call, got_node, updated, updated_status, deleted, added_resource, removed_resource,
  checked_gpu_loads, checked_gpu_visible, drained_gpu, looked_for_taint, deleted_taint,
}

-- The last call made is `c`.
abbrev pub Follows : Call → List Call → Type 0
Follows c [] = ⊥
Follows c (d ∷ log) = d ≡ c

-- A check that found no load on the node of `r`, or on its device.
abbrev pub FoundNoLoad : ComposableResource → Call → Type 0
FoundNoLoad r (checked_gpu_loads node gpu none) =
    (node ≡ r.spec.target_node) × ((gpu ≡ none) ⊎ (gpu ≡ some r.status.device_id))
FoundNoLoad r _ = ⊥

abbrev pub CheckedLoads : ComposableResource → List Call → Type 0
CheckedLoads r [] = ⊥
CheckedLoads r (c ∷ log) = FoundNoLoad r c ⊎ CheckedLoads r log

-- The last call was a drain of the device of `r` on its node, and `DrainGPU` reported success for
-- it there.
abbrev pub JustDrained : Env → ComposableResource → List Call → Type 0
JustDrained env r [] = ⊥
JustDrained env r (c ∷ log) =
    (c ≡ drained_gpu r.spec.target_node r.status.device_id none)
    × (env.drain_gpu log r.spec.target_node r.status.device_id ≡ none)

-- A device is attached only for a resource that has none and is not being deleted; the answer is
-- the provider's. It is removed
-- right after its GPU was drained, and unless detaching is forced, after no load was found. A
-- taint is deleted only once the GPU was seen to be gone, or where its node is gone.
abbrev pub CarefulWithDevice : Env → Call → List Call → Type 0
CarefulWithDevice env (added_resource r a) log =
    (a ≡ env.add_resource log r)
    × (r.status.state ≡ ResourceState.attaching)
    × (r.status.device_id ≡ "")
    × (r.meta.deletion_timestamp ≡ none)
CarefulWithDevice env (removed_resource r e) log =
    (r.status.state ≡ ResourceState.detaching)
    × (r.status.device_id ≢ "")
    × JustDrained env r log
    × ((r.spec.force_detach ≡ true) ⊎ CheckedLoads r log)
CarefulWithDevice env (deleted_taint r e) log =
    Follows (checked_gpu_visible r (Result.ok false)) log
    ⊎ Follows (looked_for_taint r (Result.ok true)) log
CarefulWithDevice env _ log = Unit {0}

-- The node was looked up and is not there.
abbrev pub NodeMissing : List Call → Type 0
NodeMissing [] = ⊥
NodeMissing (got_node n (some e) ∷ log) = (e.kind ≡ ErrorKind.not_found) ⊎ NodeMissing log
NodeMissing (c ∷ log) = NodeMissing log

-- The GPU was seen to be visible to the cluster.
abbrev pub SeenVisible : List Call → Type 0
SeenVisible [] = ⊥
SeenVisible (checked_gpu_visible r (Result.ok true) ∷ log) = Unit {0}
SeenVisible (c ∷ log) = SeenVisible log

-- The provider answered that the device is removed, and after that the GPU was seen to be gone.
abbrev pub Removed : List Call → Type 0
Removed [] = ⊥
Removed (removed_resource r none ∷ log) = Unit {0}
Removed (c ∷ log) = Removed log

abbrev pub SeenGone : List Call → Type 0
SeenGone [] = ⊥
SeenGone (checked_gpu_visible r (Result.ok false) ∷ log) = Removed log
SeenGone (c ∷ log) = SeenGone log

-- The state machine: from a state to a state, for the object written and the calls before.
abbrev pub Edge : ResourceState → ResourceState → ComposableResource → List Call → Type 0
Edge ResourceState.empty ResourceState.empty r log = Unit {0}
Edge ResourceState.empty ResourceState.attaching r log = Unit {0}
Edge ResourceState.attaching ResourceState.attaching r log = Unit {0}
Edge ResourceState.attaching ResourceState.online r log = SeenVisible log
Edge ResourceState.attaching ResourceState.deleting r log =
    (r.meta.deletion_timestamp ≢ none) × (r.status.device_id ≡ "")
Edge ResourceState.attaching ResourceState.detaching r log =
    (r.meta.deletion_timestamp ≢ none) × (r.status.device_id ≢ "")
Edge ResourceState.online ResourceState.online r log = Unit {0}
Edge ResourceState.online ResourceState.detaching r log = r.meta.deletion_timestamp ≢ none
Edge ResourceState.detaching ResourceState.detaching r log = Unit {0}
Edge ResourceState.detaching ResourceState.deleting r log = r.status.device_id ≡ ""
Edge ResourceState.deleting ResourceState.deleting r log = Unit {0}
Edge (ResourceState.other s) (ResourceState.other t) r log = s ≡ t
Edge _ _ r log = ⊥

-- What may stand in an object that was read as `old`: its spec is unchanged, its state was reached
-- along an edge, or its node is missing and it is Deleting, and the device of a resource that was
-- Detaching is forgotten only once it is gone.
abbrev pub Judged : ComposableResource → ComposableResource → List Call → Type 0
Judged old r log =
    (r.spec ≡ old.spec)
    × (Edge old.status.state r.status.state r log
        ⊎ (NodeMissing log × (r.status.state ≡ ResourceState.deleting)))
    × ((old.status.state ≢ ResourceState.detaching)
        ⊎ (r.status.device_id ≡ old.status.device_id)
        ⊎ SeenGone log)

-- Every write is judged. The finalizer goes only from a resource that was Deleting, and a deletion
-- is asked for only where the node is missing, or for an Online resource labelled for detachment.
abbrev pub WritesWell : ComposableResource → Call → List Call → Type 0
WritesWell old (updated_status r e) log = Judged old r log
WritesWell old (updated r e) log =
    Judged old r log × ((r.meta.has_finalizer ≡ true) ⊎ (old.status.state ≡ ResourceState.deleting))
WritesWell old (deleted r e) log =
    NodeMissing log ⊎ ((old.status.state ≡ ResourceState.online) × (label device_label old ≢ ""))
WritesWell old _ log = Unit {0}
