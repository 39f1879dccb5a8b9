-- ===== src/Tests/Attachments.antt =====
-- The controller of ComposableResources together with the client of the cluster manager, at
-- concrete inputs.
use composable_resource_oper.Common.{
  String, true, List, [], ◌∷◌, ◌≡◌, refl, Obeys, string_dec, ℕ_discrete,
}
use composable_resource_oper.Api.{Result}
use composable_resource_oper.Cdi.{annotated_machine_id, asks_for_model}
use composable_resource_oper.Cdi.Cm.{check_adding_resources, find_available_device}
use composable_resource_oper.Cdi.Cm.Client.{add_resource, get_machine_info}
use composable_resource_oper.Resource.Effects.{Env, Call, added_resource}
use composable_resource_oper.Resource.Handlers.{
  refresh_plugins, go_online, attach_device, leave_attaching, handle_attaching_state,
}
use composable_resource_oper.Resource.Adapter.{new_adapter}
use composable_resource_oper.Resource.Reconcile.{
  reconcile, reconcile_found, perform_garbage_collection, dispatch, handle,
}
use composable_resource_oper.Resource.Progress.{healthy}
use composable_resource_oper.Resource.Provider.{
  given, Services, on_cluster_manager, AttachesUnheld, reconcile-AttachesUnheld,
}
use composable_resource_oper.Tests.Fixtures.{getenv}
use composable_resource_oper.Tests.Clients.{cm, new}

abbrev services : Services
services log = cm

abbrev env : Env
env = healthy "none" "none" true getenv new

reconcile-AttachesUnheld_example :
    Obeys
      (AttachesUnheld env services)
      (reconcile (on_cluster_manager env services) (record { resource = new; log = [] })).1.log
reconcile-AttachesUnheld_example =
    reconcile-AttachesUnheld env services (record { resource = new; log = [] }) tt

abbrev attached_ids : List Call → List String
attached_ids [] = []
attached_ids (added_resource r (Result.ok (d, c)) ∷ log) = d ∷ attached_ids log
attached_ids (c ∷ log) = attached_ids log

-- The first device is held, and the second one is attached.
attached :
    attached_ids
      (reconcile (on_cluster_manager env services) (record { resource = new; log = [] })).1.log
    ≡ "d2" ∷ []
unfolding reconcile reconcile_found perform_garbage_collection dispatch new_adapter handle
    handle_attaching_state leave_attaching attach_device given add_resource check_adding_resources
    find_available_device asks_for_model annotated_machine_id get_machine_info string_dec ℕ_discrete
    refresh_plugins go_online
attached = refl
