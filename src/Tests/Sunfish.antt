-- ===== src/Tests/Sunfish.antt =====
-- The client of the Sunfish service, at a concrete input.
use composable_resource_oper.Common.{
  true, none, [], ◌∷◌, ◌≡◌, ◌↔◌, refl, string_dec, string_eq, ◌==◌, if◌then◌else◌,
}
use composable_resource_oper.Api.{Result, ResourceState, ComposableResource}
use composable_resource_oper.Cdi.Sunfish.{Env, url, supported, add_resource, remove_resource}
use composable_resource_oper.Cdi.Sunfish.Requests.{Accepted, gpus, add_remove-Accepted}
use composable_resource_oper.Tests.Fixtures.{gpu}

abbrev v100 : ComposableResource
v100 =
    let r = gpu "gpu1" ResourceState.attaching "" none in
    record r { spec = record r.spec { model = "Tesla-V100-PCIE-16GB" } }

-- The service accepts only what goes to its default address.
abbrev sunfish : Env
sunfish = record {
  endpoint = "";
  new_request = λ _. none;
  patch = λ (address, cr).
      if address
        == "http://composition-service.cro-system.svc.cluster.local:5060/redfish/v1/Systems/System"
      then Result.ok 200
      else Result.ok 500;
  decimal = λ _. "";
}

is_supported : supported v100.spec.model ≡ true
unfolding string_dec
is_supported = refl

add_remove-Accepted_example :
    ((add_resource sunfish v100).1 ≡ (url sunfish, gpus v100 1) ∷ [])
    × (((add_resource sunfish v100).0.2 ≡ none) ↔ Accepted sunfish (gpus v100 1))
    × ((remove_resource sunfish v100).1 ≡ (url sunfish, gpus v100 0) ∷ [])
    × (((remove_resource sunfish v100).0 ≡ none) ↔ Accepted sunfish (gpus v100 0))
add_remove-Accepted_example = add_remove-Accepted sunfish v100 is_supported refl
