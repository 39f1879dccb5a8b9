-- ===== src/Webhook.antt =====
-- internal/webhook/v1alpha1/composabilityrequest_webhook.go: which requests are admitted.
pub mod Admission
use composable_resource_oper.Common.{
  String, Bool, true, false, not, Option, none, some, List, [], ◌∷◌, ◌<>◌, ◌==◌, ◌!=◌, ◌&&◌,
  string_eq, if◌then◌else◌,
}
use composable_resource_oper.Api.{Error, Result, ComposabilityRequest}
use composable_resource_oper.Nodes.{errorf}
use composable_resource_oper.Request.Placement.{first_node}

abbrev same_kind : ComposabilityRequest → ComposabilityRequest → Bool
same_kind r q = q.resource.type == r.resource.type && q.resource.model == r.resource.model

abbrev already_exists : ComposabilityRequest → ComposabilityRequest → Error
already_exists r q = errorf (
    "composabilityRequest resource "
    <> (q.meta.name
        <> (" with type "
            <> (r.resource.type <> (" and model " <> (r.resource.model <> " already exists"))))))

-- The loop for the policy "differentnode"
unfoldable pub check_apart : ComposabilityRequest → List ComposabilityRequest → Option Error
check_apart r [] = none
check_apart r (q ∷ qs) =
    if q.meta.name == r.meta.name
    then check_apart r qs
    else if q.resource.allocation_policy == "differentnode" && same_kind r q
    then some (already_exists r q)
    else check_apart r qs

-- The node that a request stands for: its target, or that of the first entry of its status.
abbrev pub used_node : ComposabilityRequest → String
used_node q =
    if q.resource.target_node == "" then first_node q.status.resources else q.resource.target_node

-- The loop for the policy "samenode"
unfoldable pub check_together : ComposabilityRequest → List ComposabilityRequest → Option Error
check_together r [] = none
check_together r (q ∷ qs) =
    if q.meta.name == r.meta.name
    then check_together r qs
    else if used_node q == r.resource.target_node && same_kind r q
    then some (already_exists r q)
    else check_together r qs

-- `validateRequest`, for what the list of requests is
unfoldable pub validate_request :
    Result (List ComposabilityRequest) → ComposabilityRequest → Option Error
unfolding check_apart check_together
validate_request (Result.err e) r = some e
validate_request (Result.ok qs) r =
    if r.resource.allocation_policy == "differentnode" && r.resource.target_node != ""
    then some
        (errorf "TargetNode cannot be specified when AllocationPolicy is set to 'differentnode'")
    else if r.resource.allocation_policy == "differentnode"
    then check_apart r qs
    else if r.resource.allocation_policy == "samenode"
    then check_together r qs
    else none

-- A `runtime.Object`: a request, or an object of another Go type
pub data Object : Type 0 where
  request : ComposabilityRequest → Object
  other : (go_type : String) → Object

abbrev not_a_request : String → Error
not_a_request go_type = errorf ("expected a ComposabilityRequest object but got " <> go_type)

unfoldable pub validate_create : Result (List ComposabilityRequest) → Object → Option Error
unfolding validate_request
validate_create listed (request r) = validate_request listed r
validate_create listed (other go_type) = some (not_a_request go_type)

unfoldable pub validate_update :
    Result (List ComposabilityRequest) → (old new : Object) → Option Error
unfolding validate_request
validate_update listed old (request r) = validate_request listed r
validate_update listed old (other go_type) = some (not_a_request go_type)

unfoldable pub validate_delete : Object → Option Error
validate_delete o = none
