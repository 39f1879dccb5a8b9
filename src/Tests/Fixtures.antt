-- ===== src/Tests/Fixtures.antt =====
-- Objects that the tests share.
use composable_resource_oper.Common.{
  String, ℕ, Option, none, [], ◌∷◌, true, false, ◌==◌, string_eq, if◌then◌else◌,
}
use composable_resource_oper.Common.Dict.{Dict}
use composable_resource_oper.Api.{
  ObjectMeta, ResourceState, RequestState, ComposableResource, ComposabilityRequest,
  ScalarResourceDetails, ScalarResourceStatus,
}

abbrev pub meta_of : String → Dict String → Option ℕ → ObjectMeta
meta_of name labels deletion = record {
  name = name;
  labels = labels;
  annotations = [];
  has_finalizer = true;
  creation_timestamp = 7;
  deletion_timestamp = deletion;
}

abbrev pub gpu : String → ResourceState → String → Option ℕ → ComposableResource
gpu name state device deletion = record {
  meta = meta_of name (("app.kubernetes.io/managed-by", "request") ∷ []) deletion;
  spec = record { type = "gpu"; model = "A100"; target_node = "node1"; force_detach = false };
  status = record { state = state; error = ""; device_id = device; cdi_device_id = device };
}

abbrev pub details : ℕ → String → String → ScalarResourceDetails
details size policy node = record {
  type = "gpu";
  model = "A100";
  size = size;
  force_detach = false;
  allocation_policy = policy;
  target_node = node;
  other_spec = none;
}

abbrev pub request :
    RequestState → ScalarResourceDetails → Dict ScalarResourceStatus → ComposabilityRequest
request state d resources = record {
  meta = meta_of "request" [] none;
  resource = d;
  status = record { state = state; error = ""; resources = resources; scalar_resource = d };
}

-- The environment of the operator: a device plugin, with the cluster manager of FTI.
abbrev pub getenv : String → String
getenv key =
    if key == "DEVICE_RESOURCE_TYPE"
    then "DEVICE_PLUGIN"
    else if key == "CDI_PROVIDER_TYPE"
    then "FTI_CDI"
    else if key == "FTI_CDI_CLUSTER_ID"
    then "cluster"
    else if key == "FTI_CDI_API_TYPE"
    then "CM"
    else ""
