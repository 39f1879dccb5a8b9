-- ===== src/Tests/Syncing.antt =====
-- The goroutine of the syncer, on two rounds an hour apart.
use composable_resource_oper.Common.{
  All, String, ℕ, none, List, [], ◌∷◌, ◌≡◌, ◌≤◌, refl, length, string_dec, ℕ_discrete,
}
use composable_resource_oper.Common.Dict.{lookup}
use composable_resource_oper.Api.{Result, ResourceState}
use composable_resource_oper.Syncer.{
  Env, sync_upstream_data, visit_all, visit, create_detach_cr, retain,
}
use composable_resource_oper.Syncer.Ticks.{Signal, tick, done, set_up, serve}
use composable_resource_oper.Syncer.Runs.{rounds}
use composable_resource_oper.Syncer.History.{AllOverdue, set_up-AllOverdue}
use composable_resource_oper.Syncer.Bounds.{last_listed, set_up_bounded}
use composable_resource_oper.Nodes.{errorf}
use composable_resource_oper.Tests.Fixtures.{gpu}
use composable_resource_oper.Cdi.{DeviceInfo}
use composable_resource_oper.Syncer.Turning.{asked}
use composable_resource_oper.Syncer.Timers.{ListsOnce, Timed, set_up-Timed}

abbrev device : String → DeviceInfo
device id = record {
  node_name = "node1";
  machine_uuid = "m1";
  device_type = "gpu";
  model = "A100";
  device_id = id;
  cdi_device_id = id;
}

abbrev round : ℕ → Env
round time = record {
  get_resources = Result.ok (device "d1" ∷ device "d2" ∷ []);
  list = Result.ok (gpu "gpu1" ResourceState.online "d1" none ∷ []);
  create = λ _ _. none;
  generated_name = λ _. "new";
  clock = λ _. time;
}

-- The provider cannot be reached.
abbrev outage : Env
outage = record (round 60) { get_resources = Result.err (errorf "timeout") }

-- The last tick comes too late.
abbrev signals : List Signal
signals = tick (round 0) ∷ tick outage ∷ tick (round 3600000000000) ∷ done ∷ tick (round 0) ∷ []

abbrev created : ℕ
created = length (set_up none signals).1.log

one_created : created ≡ 1
unfolding set_up serve sync_upstream_data visit_all visit create_detach_cr retain string_dec
    ℕ_discrete
one_created = refl

set_up-AllOverdue_example : AllOverdue (rounds signals []) (set_up none signals).1.log
set_up-AllOverdue_example = set_up-AllOverdue none signals

set_up_bounded_example :
    length (set_up none signals).1.missing_devices ≤ length (last_listed (rounds signals []))
set_up_bounded_example = set_up_bounded none signals

listed_once : All ListsOnce (rounds signals [])
unfolding ListsOnce string_dec
listed_once = ((refl, (refl, tt)), (tt, ((refl, (refl, tt)), tt)))

set_up-Timed_example :
    Timed "d2"
      (rounds signals [])
      (asked "d2" (set_up none signals).1.log)
      (lookup "d2" (set_up none signals).1.missing_devices)
set_up-Timed_example = set_up-Timed signals "d2" listed_once
