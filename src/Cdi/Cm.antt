-- ===== src/Cdi/Cm.antt =====
-- internal/cdi/fti/cm: the client of the cluster manager.
pub mod Client
pub mod Ownership
pub mod Checking
use composable_resource_oper.Common.{
  String, ◌<>◌, ℕ, zero, suc, Bool, true, false, Option, none, some, List, [], ◌∷◌, ◌++◌, map, ◌==◌,
  ◌!=◌, string_eq, nat_eq, contains, if◌then◌else◌,
}
use composable_resource_oper.Common.{
  Action, pure, return, skip, get, modify, body, ◌>>=◌, ◌>>◌, next,
}
use composable_resource_oper.Api.{Error, ErrorKind, Result, ComposableResource}
use composable_resource_oper.Nodes.{errorf}
use composable_resource_oper.Cdi.{
  DeviceInfo, Response, Answer, answered, failed, panicked, Condition, asks_for_model, Cluster,
  annotated_machine_id, ℤ, pos, negsuc, sucℤ, predℤ, Health, health,
}

-- cm/api/machine.go, as far as the client reads it
pub record Device : Type 0 where
  pub device_uuid : String
  pub status : String
  pub status_reason : String
  pub resource_uuid : String
  pub resource_op_status : String

-- The device count is an `int`.
pub record ResourceSpec : Type 0 where
  pub spec_uuid : String
  pub type : String
  pub conditions : List Condition
  pub device_count : ℤ
  pub devices : List Device

-- The bodies of the two resize requests
pub data Resize : Type 0 where
  scale_up : (spec_uuid : String) (device_count : ℤ) → Resize
  scale_down : (spec_uuid : String) (device_count : ℤ) (devices : List String) → Resize

pub data Call : Type 0 where
  resized : (machine : String) → Resize → Call
  updated_status : ComposableResource → Option Error → Call

pub record World : Type 0 where
  pub resource : ComposableResource
  pub log : List Call

pub record ErrorBody : Type 0 where
  pub status : ℤ
  pub code : String
  pub message : String

-- The cluster, the token, the service, and `json.Unmarshal` of its two kinds of bodies: one that
-- tells an error, and one with the specs of a machine.
pub record Env : Type 0 where
  pub cluster : Cluster
  pub list_resources : Result (List ComposableResource)
  pub list_nodes : Result (List String)
  pub get_token : Option Error
  pub new_request : String → Option Error
  pub get_machine_page : String → Result Response
  pub resize : String → Resize → Result Response
  pub update_status : ComposableResource → Option Error
  pub read_error : String → Option ErrorBody
  -- `%d` of fmt
  pub decimal : ℤ → String
  pub read_machine : String → Option (List ResourceSpec)

abbrev pub is_spec_match : ComposableResource → ResourceSpec → Bool
is_spec_match r s =
    if s.type != r.spec.type then false else asks_for_model r.spec.model s.conditions

unfoldable pub find_available_device : List String → List Device → Option Device
find_available_device existing [] = none
find_available_device existing (d ∷ ds) =
    if contains existing d.device_uuid then find_available_device existing ds else some d

-- The five results of `checkAddingResources`
pub data Adding : Type 0 where
  resize_spec : (spec_uuid : String) (device_count : ℤ) → Adding
  take_unused : (device_uuid resource_uuid : String) → Option Error → Adding

abbrev take : ResourceSpec → Option Device → Adding
take s none = resize_spec s.spec_uuid s.device_count
take s (some d) =
    if d.status == "ADD_COMPLETE"
    then take_unused d.device_uuid d.resource_uuid none
    else if d.status == "ADD_FAILED"
    then take_unused d.device_uuid d.resource_uuid
        (some (errorf ("an error occurred with the resource in CM: '" <> (d.status_reason <> "'"))))
    else resize_spec s.spec_uuid s.device_count

unfoldable pub check_adding_resources :
    List String → ComposableResource → List ResourceSpec → Adding
unfolding find_available_device
check_adding_resources existing r [] = resize_spec "" (pos 0)
check_adding_resources existing r (s ∷ ss) =
    if is_spec_match r s
    then take s (find_available_device existing s.devices)
    else check_adding_resources existing r ss

abbrev pub Removing : Type 0
Removing = String × ℤ × Option Error

-- The first device with the id of the resource
unfoldable pub find_device : String → List Device → Option Device
find_device id [] = none
find_device id (d ∷ ds) = if d.device_uuid == id then some d else find_device id ds

abbrev removing : ResourceSpec → Option Device → Removing
removing s none = ("", pos 0, none)
removing s (some d) = (
  s.spec_uuid,
  s.device_count,
  if d.status == "REMOVE_FAILED" then some (errorf d.status_reason) else none,
)

unfoldable pub check_removing_resources : ComposableResource → List ResourceSpec → Removing
unfolding find_device
check_removing_resources r [] = ("", pos 0, none)
check_removing_resources r (s ∷ ss) =
    if is_spec_match r s
    then removing s (find_device r.status.device_id s.devices)
    else check_removing_resources r ss
