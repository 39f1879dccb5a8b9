-- ===== src/Api.antt =====
-- api/v1alpha1: the two custom resources, and the errors that the Kubernetes client gives back.
use composable_resource_oper.Common.{String, Bool, Option, ℕ, ◌≡◌, refl, ◌⊎◌, inl, inr, ap}
use composable_resource_oper.Common.{Eq, string_dec, ℕ_discrete}
use composable_resource_oper.Common.Dict.{Dict}

-- What the operator asks of an `error`: `IsNotFound`, `errors.Is` with the two errors of
-- internal/cdi/client.go, and `Error()`.
pub data ErrorKind : Type 0 where
  not_found waiting_device_attaching waiting_device_detaching plain : ErrorKind

pub record Error : Type 0 where
  pub kind : ErrorKind
  pub message : String

pub data Result (A : Type 0) : Type 0 where
  ok : A → Result A
  err : Error → Result A

pub Result-cases :
    {A : Type 0} (r : Result A) → ((a : A) × (r ≡ ok a)) ⊎ ((e : Error) × (r ≡ err e))
Result-cases (ok a) = inl (a, refl)
Result-cases (err e) = inr (e, refl)

pub ok_inj : {A : Type 0} {a b : A} → ok a ≡ ok b → a ≡ b
ok_inj {A} {a} h = ap (λ r. elim r [ ok x ↦ x | err _ ↦ a ]) h

-- `ctrl.Result` with its error. The zero `RequeueAfter` is `none`; a time is in seconds.
pub record Outcome : Type 0 where
  pub requeue_after : Option ℕ
  pub error : Option Error

-- `Status.State` of a ComposableResource; `empty` is "".
pub data ResourceState : Type 0 where
  empty attaching online detaching deleting : ResourceState
  other : String → ResourceState

pub ResourceState-discrete : Discrete ResourceState
unfolding string_dec
ResourceState-discrete = hlevel string_dec

instance abbrev pub resource_state_eq : Eq ResourceState
resource_state_eq = record { dec = ResourceState-discrete }

-- `Status.State` of a ComposabilityRequest; `empty` is "".
pub data RequestState : Type 0 where
  empty node_allocating updating running cleaning deleting : RequestState
  other : String → RequestState

-- `metav1.ObjectMeta`, as far as the operator reads it. Of the finalizers it keeps whether the
-- operator's own is there; a time is in seconds.
pub record ObjectMeta : Type 0 where
  pub name : String
  pub labels : Dict String
  pub annotations : Dict String
  pub has_finalizer : Bool
  pub creation_timestamp : ℕ
  pub deletion_timestamp : Option ℕ

pub record ComposableResourceSpec : Type 0 where
  pub type : String
  pub model : String
  pub target_node : String
  pub force_detach : Bool

pub record ComposableResourceStatus : Type 0 where
  pub state : ResourceState
  pub error : String
  pub device_id : String
  pub cdi_device_id : String

pub record ComposableResource : Type 0 where
  pub meta : ObjectMeta
  pub spec : ComposableResourceSpec
  pub status : ComposableResourceStatus

pub record NodeSpec : Type 0 where
  pub milli_cpu : ℕ
  pub memory : ℕ
  pub ephemeral_storage : ℕ
  pub allowed_pod_number : ℕ

pub record ScalarResourceDetails : Type 0 where
  pub type : String
  pub model : String
  pub size : ℕ
  pub force_detach : Bool
  pub allocation_policy : String
  pub target_node : String
  pub other_spec : Option NodeSpec

pub ScalarResourceDetails-discrete : Discrete ScalarResourceDetails
unfolding string_dec
ScalarResourceDetails-discrete = hlevel (string_dec, ℕ_discrete)

-- `reflect.DeepEqual` and an empty `cmp.Diff` on the details of a request
instance abbrev pub details_eq : Eq ScalarResourceDetails
details_eq = record { dec = ScalarResourceDetails-discrete }

pub record ScalarResourceStatus : Type 0 where
  pub state : ResourceState
  pub device_id : String
  pub cdi_device_id : String
  pub node_name : String
  pub error : String

pub record ComposabilityRequestStatus : Type 0 where
  pub state : RequestState
  pub error : String
  pub resources : Dict ScalarResourceStatus
  pub scalar_resource : ScalarResourceDetails

pub record ComposabilityRequest : Type 0 where
  pub meta : ObjectMeta
  pub resource : ScalarResourceDetails
  pub status : ComposabilityRequestStatus
