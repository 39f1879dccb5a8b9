-- ===== src/Cdi/Fm/Bodies.antt =====
-- internal/cdi/fti/fm/api/scale_up.go and scale_down.go: the bodies of the two requests that change
-- a machine.
use composable_resource_oper.Common.{String, ℕ, List, [], ◌∷◌}
use composable_resource_oper.Cdi.{Condition}

pub record ScaleUpResourceSpecItem : Type 0 where
  pub type : String
  pub spec : List Condition
  pub num : ℕ

pub record ScaleUpResourceItem : Type 0 where
  pub resource_specs : List ScaleUpResourceSpecItem

pub record ScaleUpMachineItem : Type 0 where
  pub machine_uuid : String
  pub resources : List ScaleUpResourceItem

pub record ScaleUpTenants : Type 0 where
  pub tenant_uuid : String
  pub machines : List ScaleUpMachineItem

pub record ScaleUpBody : Type 0 where
  pub tenants : ScaleUpTenants

pub record ScaleDownResourceSpecItem : Type 0 where
  pub type : String
  pub resource_uuid : String
  pub num : ℕ

pub record ScaleDownResourceItem : Type 0 where
  pub resource_specs : List ScaleDownResourceSpecItem

pub record ScaleDownMachineItem : Type 0 where
  pub machine_uuid : String
  pub resources : List ScaleDownResourceItem

pub record ScaleDownTenants : Type 0 where
  pub tenant_uuid : String
  pub machines : List ScaleDownMachineItem

pub record ScaleDownBody : Type 0 where
  pub tenants : ScaleDownTenants

-- One device of a type and model, on one machine
abbrev pub scale_up_body : (tenant machine type model : String) → ScaleUpBody
scale_up_body tenant machine type model =
    let spec : ScaleUpResourceSpecItem = record {
      type = type;
      spec = record { column = "model"; operator = "eq"; value = model } ∷ [];
      num = 1;
    } in
    let item : ScaleUpMachineItem = record {
      machine_uuid = machine;
      resources = record { resource_specs = spec ∷ [] } ∷ [];
    } in
    record { tenants = record { tenant_uuid = tenant; machines = item ∷ [] } }

-- One device of a type, by its id, on one machine
abbrev pub scale_down_body : (tenant machine type resource_uuid : String) → ScaleDownBody
scale_down_body tenant machine type resource_uuid =
    let spec : ScaleDownResourceSpecItem = record {
      type = type;
      resource_uuid = resource_uuid;
      num = 1;
    } in
    let item : ScaleDownMachineItem = record {
      machine_uuid = machine;
      resources = record { resource_specs = spec ∷ [] } ∷ [];
    } in
    record { tenants = record { tenant_uuid = tenant; machines = item ∷ [] } }
