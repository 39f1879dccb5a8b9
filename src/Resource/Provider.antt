-- ===== src/Resource/Provider.antt =====
-- The controller of ComposableResources together with the client of the cluster manager: which
-- devices are attached.
use composable_resource_oper.Common.{
  String, false, none, some, List, [], ◌≡◌, ◌≢◌, arith, body, contains, Obeys, Obeys-map, string_eq,
}
use composable_resource_oper.Api.{Result, ComposableResource}
use composable_resource_oper.Cdi.Cm.Client.{Added, held_ids, add_resource}
use composable_resource_oper.Cdi.Cm.Ownership.{add_resource-free, add_resource_given}
use composable_resource_oper.Cdi.Cm as Cm
use composable_resource_oper.Resource.Effects.{Env, World, Call, added_resource}
use composable_resource_oper.Resource.Policy.{CarefulWithDevice}
use composable_resource_oper.Resource.Reconcile.{reconcile}
use composable_resource_oper.Resource.Devices.{Careful, reconcile-Careful}

-- The three results, as the controller reads them
unfoldable pub given : Added → Result (String × String)
given a = elim a.error [ none ↦ Result.ok (a.device_id, a.cdi_device_id) | some e ↦ Result.err e ]

-- The cluster and the services as they are after the controller's calls
abbrev pub Services : Type 0
Services = List Call → Cm.Env

module _ (env : Env) (services : Services) where
  abbrev pub add_run : ComposableResource → List Call → Added × Cm.World
  add_run r log = body (add_resource (services log)) (record { resource = r; log = [] })

  -- The controller with this provider
  abbrev pub on_cluster_manager : Env
  on_cluster_manager = record env { add_resource = λ log r. given (add_run r log).0 }

  -- A device that was given out has an id, which no resource has that the client listed.
  unfoldable pub Unheld : String → List Call → Type 0
  Unheld d log =
      (resources : List ComposableResource) × ((services log).list_resources ≡ Result.ok resources)
      × (contains (held_ids resources) d ≡ false)
      × (d ≢ "")

  abbrev pub AttachesUnheld : Call → List Call → Type 0
  AttachesUnheld (added_resource r (Result.ok (d, c))) log = Unheld d log
  AttachesUnheld _ log = Unit {0}

  given-Unheld :
      (r : ComposableResource) (d c : String) (log : List Call)
      → Result.ok (d, c) ≡ given (add_run r log).0
      → Unheld d log
  unfolding given Unheld
  given-Unheld r d c log h =
      let (resources, l, n) = add_resource_given (services log) r (ground arith) in
      let (f, _) = add_resource-free (services log) r resources l n in
      (resources, l, ground arith, ground arith)

  Careful-Unheld :
      (c : Call) (log : List Call)
      → CarefulWithDevice on_cluster_manager c log
      → AttachesUnheld c log
  Careful-Unheld (added_resource r (Result.ok (d, c))) log (h, _, _, _) = given-Unheld r d c log h
  Careful-Unheld _ log h = tt

  -- Where the provider is the client of the cluster manager, whatever its services answer, each
  -- reconciliation attaches only a device that has an id and that no resource had among those that
  -- the client listed just before.
  pub reconcile-AttachesUnheld :
      (w : World)
      → Careful on_cluster_manager w
      → Obeys AttachesUnheld (reconcile on_cluster_manager w).1.log
  reconcile-AttachesUnheld w h =
      Obeys-map (CarefulWithDevice on_cluster_manager) AttachesUnheld Careful-Unheld
        (reconcile on_cluster_manager w).1.log (reconcile-Careful on_cluster_manager w h)
