-- ===== src/Syncer.antt =====
-- internal/controller/upstreamsyncer_controller.go: devices that the provider lists and that no
-- ComposableResource holds. Times are in nanoseconds.
pub mod Tracking
pub mod Ticks
pub mod Runs
pub mod History
pub mod Bounds
pub mod Turning
pub mod Timers
use composable_resource_oper.Common.{
  String, ℕ, suc, ◌-◌, Bool, true, false, not, Option, none, some, List, [], ◌∷◌, length, select,
  map, ◌==◌, ◌!=◌, string_eq, contains, ltb, if◌then◌else◌,
}
use composable_resource_oper.Common.Dict.{Dict, lookup, has, insert, erase}
use composable_resource_oper.Api.{Error, Result, ResourceState, ComposableResource}
use composable_resource_oper.Nodes.{errorf}
use composable_resource_oper.Cdi.{DeviceInfo}

-- The map `missingDevices`, and the resources that were sent to be created, with the answers.
pub record World : Type 0 where
  pub missing_devices : Dict ℕ
  pub log : List (ComposableResource × Option Error)

pub record Env : Type 0 where
  pub get_resources : Result (List DeviceInfo)
  pub list : Result (List ComposableResource)
  pub create : List (ComposableResource × Option Error) → ComposableResource → Option Error
  -- the name that `GenerateName` leads to, after so many creations
  pub generated_name : ℕ → String
  -- what `time.Now` gives in the loop's `i`-th round
  pub clock : ℕ → ℕ

abbrev pub grace_period : ℕ
grace_period = 600000000000

abbrev pub existing_ids : List ComposableResource → List String
existing_ids [] = []
existing_ids (r ∷ rs) =
    if r.status.device_id != "" then r.status.device_id ∷ existing_ids rs else existing_ids rs

abbrev pub device_ids : List DeviceInfo → List String
device_ids = map (λ d. d.device_id)

-- The resource of `createDetachCR`
abbrev pub detach_resource : String → DeviceInfo → ComposableResource
detach_resource name d = record {
  meta = record {
    name = name;
    labels =
        ("cohdi.io/ready-to-detach-device-id", d.device_id)
        ∷ ("cohdi.io/ready-to-detach-cdi-device-id", d.cdi_device_id)
        ∷ [];
    annotations = [];
    has_finalizer = false;
    creation_timestamp = 0;
    deletion_timestamp = none;
  };
  spec = record {
    type = d.device_type;
    model = d.model;
    target_node = d.node_name;
    force_detach = false;
  };
  status = record { state = ResourceState.empty; error = ""; device_id = ""; cdi_device_id = "" };
}

abbrev forget : String → World → World
forget id w = record w { missing_devices = erase id w.missing_devices }

-- The last loop. Go allows to delete from a map that it walks.
unfoldable pub retain : List String → Dict ℕ → Dict ℕ
retain upstream [] = []
retain upstream ((id, t) ∷ d) =
    if contains upstream id then (id, t) ∷ retain upstream d else retain upstream d

module _ (env : Env) where
  -- The device stays tracked where the creation fails.
  unfoldable pub create_detach_cr : DeviceInfo → World → World
  create_detach_cr d w =
      let r = detach_resource (env.generated_name (length w.log)) d in
      let e = env.create w.log r in
      let w' = record w { log = (r, e) ∷ w.log } in
      elim e [ none ↦ forget d.device_id w' | some _ ↦ w' ]

  -- The body of the loop over the devices
  unfoldable pub visit : List String → ℕ → DeviceInfo → World → World
  unfolding create_detach_cr
  visit existing i d w =
      if contains existing d.device_id
      then forget d.device_id w
      else (elim (lookup d.device_id w.missing_devices) [
        | none ↦ record w { missing_devices = insert d.device_id (env.clock i) w.missing_devices }
        | some first_seen ↦
            if ltb grace_period (env.clock i - first_seen) then create_detach_cr d w else w
      ])

  unfoldable pub visit_all : List String → ℕ → List DeviceInfo → World → World
  visit_all existing i [] w = w
  visit_all existing i (d ∷ ds) w = visit_all existing (suc i) ds (visit existing i d w)

  unfoldable pub sync_upstream_data : World → Option Error × World
  unfolding visit_all retain
  sync_upstream_data w = elim env.get_resources [
    | Result.err e ↦ (some (errorf "failed to fetch data from upstream server"), w)
    | Result.ok devices ↦ elim env.list [
      | Result.err e ↦ (some (errorf "failed to list ComposableResources"), w)
      | Result.ok resources ↦
          let w' = visit_all (existing_ids resources) 0 devices w in
          (none, record w' { missing_devices = retain (device_ids devices) w'.missing_devices })
    ]
  ]
