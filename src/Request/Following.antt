-- ===== src/Request/Following.antt =====
-- How a change of a ComposableResource reaches the status of its request.
use composable_resource_oper.Common.{
  String, Option, none, some, [], ◌∷◌, ◌≡◌, arith, refl, ◌==◌, string_eq, if◌then◌else◌,
}
use composable_resource_oper.Common.Dict.{keys, lookup}
use composable_resource_oper.Api.{ComposableResourceStatus, ScalarResourceStatus, resource_state_eq}
use composable_resource_oper.Request.Allocation.{Resources}
use composable_resource_oper.Request.Reconcile.{sync_entry}

-- What becomes of an entry: the state, the error and the two ids are those of the resource, and the
-- node stays.
abbrev pub follow :
    ComposableResourceStatus → Option ScalarResourceStatus → Option ScalarResourceStatus
follow s none = none
follow s (some v) = some (record {
  state = s.state;
  device_id = s.device_id;
  cdi_device_id = s.cdi_device_id;
  node_name = v.node_name;
  error = s.error;
})

-- The entry of the resource takes over its state, error and ids, and keeps its node; the other
-- entries, and the set of names, stay as they are.
pub sync_entry-lookup :
    (name : String) (s : ComposableResourceStatus) (d : Resources) (k : String)
    → (keys (sync_entry name s d) ≡ keys d)
      × (lookup k (sync_entry name s d)
          ≡ (if k == name then follow s (lookup name d) else lookup k d))
unfolding sync_entry
sync_entry-lookup name s [] k = (refl, ground arith)
sync_entry-lookup name s ((j, v) ∷ d) k =
    let (a, b) = sync_entry-lookup name s d k in (ground (arith, a), ground (arith, b))
