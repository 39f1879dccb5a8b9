-- ===== src/Cdi/Fm.antt =====
-- internal/cdi/fti/fm: the client of the fabric manager.
pub mod Bodies
pub mod Client
pub mod Removal
use Prim.Native.Char.{Char, code}
use Prim.Native.String.{[], ◌∷◌}
use composable_resource_oper.Common.{
  trim_space, String, ◌<>◌, ℕ, Bool, true, false, Option, none, some, List, [], ◌∷◌, ◌++◌, ◌==◌,
  ◌!=◌, ◌&&◌, ◌||◌, string_eq, nat_eq, if◌then◌else◌,
}
use composable_resource_oper.Common.{Action, pure, return, skip, get, modify, ◌>>=◌, ◌>>◌}
use composable_resource_oper.Api.{Error, Result, ComposableResource}
use composable_resource_oper.Nodes.{errorf}
use composable_resource_oper.Cdi.Fm.Bodies.{ScaleUpBody, ScaleDownBody}
use composable_resource_oper.Cdi.{
  DeviceInfo, Response, Answer, answered, failed, panicked, Condition, asks_for_model, Cluster,
  annotated_machine_id, Health, health,
}

-- `GetMachineResource` and `ScaleUpResponseResourceItem`, as far as the client reads them
pub record Resource : Type 0 where
  pub resource_uuid : String
  pub type : String
  pub option_status : String
  pub serial_num : String
  pub conditions : List Condition

abbrev pub Machine : Type 0
Machine = List Resource

-- The requests that change a machine, with their bodies
pub data Call : Type 0 where
  scaled_up : (machine : String) → ScaleUpBody → Call
  scaled_down : (machine : String) → ScaleDownBody → Call

-- The raw text of an error's message, and its code
pub record ErrorDetail : Type 0 where
  pub code : String
  pub message : String

-- The cluster, the token, the service, and `json.Unmarshal` of its bodies.
pub record Env : Type 0 where
  pub cluster_id : String
  pub tenant_id : String
  pub cluster : Cluster
  pub get_provider_id : String → Result String
  pub list_nodes : Result (List String)
  pub get_token : Option Error
  pub new_request : String → Option Error
  pub get_machine_page : String → Result Response
  pub change : Call → Result Response
  pub read_error : String → Option ErrorDetail
  pub read_text : String → Option String
  pub read_machines : String → Option (List Machine)

-- `strings.CutPrefix`
unfoldable pub cut_prefix : String → String → Option String
cut_prefix s [] = some s
cut_prefix [] (p ∷ ps) = none
cut_prefix (c ∷ s) (p ∷ ps) = if code c == code p then cut_prefix s ps else none

-- A function that answers with an `A`
abbrev pub Act : Type 0 → Type 0
Act A = Action (List Call) (Answer A) (Answer A)

module _ {R A : Type 0} where
  abbrev pub ok_or : Result A → Action (List Call) (Answer R) A
  ok_or (Result.ok a) = pure a
  ok_or (Result.err e) = return (failed e)

abbrev pub fine_or : {R : Type 0} → Option Error → Action (List Call) (Answer R) (Unit {0})
fine_or none = skip
fine_or (some e) = return (failed e)

-- `Machines[0]`
abbrev pub first : {R : Type 0} → List Machine → Action (List Call) (Answer R) Machine
first [] = return panicked
first (m ∷ ms) = pure m

abbrev take_healthy : ComposableResource → Resource → Health → Act (String × String)
take_healthy r d Health.healthy = pure (answered (d.serial_num, d.resource_uuid))
take_healthy r d Health.warning = pure (answered (d.serial_num, d.resource_uuid))
take_healthy r d Health.critical = pure (
    failed (
      errorf
        ("the FM attached device called by " <> (r.meta.name <> " is in Critical state in FM"))))
take_healthy r d Health.unknown = pure (
    failed (
      errorf (
        "the FM attached device called by "
        <> (r.meta.name <> (" is in unknown state '" <> (d.option_status <> "' in FM"))))))
take_healthy r d Health.out_of_range = pure panicked

-- The first resource of the first machine of the response
abbrev pub take_added : ComposableResource → List Machine → Act (String × String)
take_added r ((d ∷ ds) ∷ ms) =
    if d.type == r.spec.type && asks_for_model r.spec.model d.conditions
    then take_healthy r d (health d.option_status)
    else pure (failed (errorf "can not find the added gpu when using FM to add gpu"))
take_added r _ = pure (failed (errorf "can not find the added gpu when using FM to add gpu"))

unfoldable pub exists_in : ComposableResource → Machine → Bool
exists_in r [] = false
exists_in r (d ∷ ds) =
    (d.type == r.spec.type && d.resource_uuid == r.status.cdi_device_id) || exists_in r ds

abbrev judge : String → String → Health → Answer (Unit {0})
judge id status Health.healthy = answered tt
judge id status Health.warning =
    failed (errorf ("the target gpu '" <> (id <> "' is showing a Warning status in FM")))
judge id status Health.critical =
    failed (errorf ("the target gpu '" <> (id <> "' is showing a Critical status in FM")))
judge id status Health.unknown =
    failed
      (errorf ("the target gpu '" <> (id <> ("' has unknown status '" <> (status <> "' in FM")))))
judge id status Health.out_of_range = panicked

unfoldable pub check_machine : ComposableResource → Machine → Answer (Unit {0})
unfolding health
check_machine r [] =
    failed
      (errorf ("the target device '" <> (r.status.device_id <> "' cannot be found in CDI system")))
check_machine r (d ∷ ds) =
    if d.type == r.spec.type
      && (asks_for_model r.spec.model d.conditions && d.serial_num == r.status.device_id)
    then judge r.status.device_id d.option_status (health d.option_status)
    else check_machine r ds

-- The value of the first condition on the model
abbrev pub model_of : List Condition → String
model_of [] = ""
model_of (c ∷ cs) = if c.column == "model" && c.operator == "eq" then c.value else model_of cs

unfoldable pub infos_of : String → String → Machine → List DeviceInfo
infos_of node machine [] = []
infos_of node machine (d ∷ ds) =
    let rest = infos_of node machine ds in
    if d.type != "gpu"
    then rest
    else record {
      node_name = node;
      machine_uuid = machine;
      device_type = d.type;
      model = model_of d.conditions;
      device_id = d.serial_num;
      cdi_device_id = d.resource_uuid;
    }
      ∷ rest

abbrev pub infos_of_first : String → String → List Machine → List DeviceInfo
infos_of_first node machine [] = []
infos_of_first node machine (m ∷ ms) = infos_of node machine m
