-- ===== src/Tests/Resources.antt =====
-- The controller of ComposableResources, at concrete inputs.
use composable_resource_oper.Common.{
  string_dec, none, some, [], true, false, refl, arith, ◌≡◌, body,
}
use composable_resource_oper.Api.{Result, ResourceState, ComposableResource}
use composable_resource_oper.Resource.Effects.{Env}
use composable_resource_oper.Resource.Handlers.{label, device_label}
use composable_resource_oper.Resource.Policy.{WritesWell}
use composable_resource_oper.Common.{Obeys}
use composable_resource_oper.Resource.Adapter.{new_adapter, fti_cm}
use composable_resource_oper.Resource.Reconcile.{reconcile, reconcile_found}
use composable_resource_oper.Resource.Devices.{Careful, reconcile-Careful}
use composable_resource_oper.Resource.Writes.{reconcile-WritesWell}
use composable_resource_oper.Resource.Errors.{Reported, reconcile_found-Reported}
use composable_resource_oper.Resource.Progress.{
  healthy, round, new_resource_attaches, online_resource_goes,
}
use composable_resource_oper.Tests.Fixtures.{gpu, getenv}

abbrev detaching : ComposableResource
detaching = gpu "gpu1" ResourceState.detaching "d1" (some 9)

abbrev env : Env
env = healthy "d1" "c1" false getenv detaching

reconcile-Careful_example :
    Careful env (reconcile env (record { resource = detaching; log = [] })).1
reconcile-Careful_example = reconcile-Careful env (record { resource = detaching; log = [] }) tt

reconcile-WritesWell_example :
    Obeys (WritesWell detaching) (reconcile env (record { resource = detaching; log = [] })).1.log
reconcile-WritesWell_example = reconcile-WritesWell env detaching detaching refl

reconcile_found-Reported_example :
    Reported (body (reconcile_found env) (record { resource = detaching; log = [] }))
reconcile_found-Reported_example =
    reconcile_found-Reported env (record { resource = detaching; log = [] })

selected : new_adapter getenv ≡ Result.ok fti_cm
unfolding new_adapter string_dec
selected = ground arith

unlabelled : label device_label (gpu "gpu1" ResourceState.empty "" none) ≡ ""
unfolding string_dec
unlabelled = refl

new_resource_attaches_example :
    let r = gpu "gpu1" ResourceState.empty "" none in
    let s = round "d1" "c1" true getenv (round "d1" "c1" true getenv r) in
    (s.status.state ≡ ResourceState.online) × (s.status.device_id ≡ "d1")
new_resource_attaches_example =
    new_resource_attaches "d1" "c1" getenv selected (gpu "gpu1" ResourceState.empty "" none) refl
      unlabelled refl refl

online_resource_goes_example :
    let r = gpu "gpu1" ResourceState.online "d1" (some 9) in
    let s =
      round "d1" "c1" false getenv
        (round "d1" "c1" false getenv (round "d1" "c1" false getenv r)) in
    (s.status.state ≡ ResourceState.deleting)
    × (s.status.device_id ≡ "")
    × (s.meta.has_finalizer ≡ false)
online_resource_goes_example =
    online_resource_goes "d1" "c1" getenv selected (gpu "gpu1" ResourceState.online "d1" (some 9))
      refl refl
