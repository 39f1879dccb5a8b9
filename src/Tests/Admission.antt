-- ===== src/Tests/Admission.antt =====
-- The webhook at concrete inputs.
use composable_resource_oper.Common.{string_dec, none, [], ◌∷◌, refl, ◌≡◌, ◌↔◌, string_eq}
use composable_resource_oper.Api.{Result, RequestState, ComposabilityRequest}
use composable_resource_oper.Webhook.{
  validate_request, check_apart, Object, validate_create, validate_update, validate_delete,
}
use composable_resource_oper.Webhook.Admission.{
  AllCompatible, validators_iff, Admissible, validate_request-AllCompatible,
}
use composable_resource_oper.Tests.Fixtures.{request, details}

abbrev apart : ComposabilityRequest
apart = request RequestState.empty (details 2 "differentnode" "") []

abbrev other : ComposabilityRequest
other = record apart {
  meta = record apart.meta { name = "other" };
  resource = record apart.resource { model = "H100" };
}

validators_iff_example :
    ((validate_create (Result.ok (other ∷ [])) (Object.request apart) ≡ none)
      ↔ Admissible (Result.ok (other ∷ [])) (Object.request apart))
    × ((validate_update (Result.ok (other ∷ [])) (Object.request other) (Object.request apart)
          ≡ none)
        ↔ Admissible (Result.ok (other ∷ [])) (Object.request apart))
    × (validate_delete (Object.request other) ≡ none)
validators_iff_example =
    validators_iff (Result.ok (other ∷ [])) (Object.request other) (Object.request apart)

admitted : validate_request (Result.ok (other ∷ [])) apart ≡ none
unfolding validate_request check_apart string_dec
admitted = refl

validate_request-AllCompatible_example : AllCompatible (apart ∷ other ∷ [])
validate_request-AllCompatible_example =
    validate_request-AllCompatible (other ∷ []) apart (tt, tt) admitted
