-- ===== src/Tests/Starts.antt =====
-- The start of the operator at concrete inputs.
use composable_resource_oper.Common.{none, some, Option, [], ◌≡◌, refl, body, true, false}
use composable_resource_oper.Api.{Error}
use composable_resource_oper.Nodes.{errorf}
use composable_resource_oper.Main.{
  Flags, Step, set_up, upstream_syncer, Env, exited, main, register,
}
use composable_resource_oper.Main.Starting.{Served, main-Served}

abbrev flags : Flags
flags = record {
  metrics_bind_address = ":8443";
  health_probe_bind_address = ":8081";
  leader_elect = true;
  metrics_secure = true;
  enable_http2 = false;
}

abbrev refuse_syncer : Step → Option Error
refuse_syncer (set_up upstream_syncer) = some (errorf "no runnable")
refuse_syncer _ = none

-- The syncer cannot be registered.
abbrev env : Env
env = record { answer = λ _ s. refuse_syncer s; getenv = λ _. "" }

main-Served_example : Served env flags (body (main env flags) [])
main-Served_example = main-Served env flags

stopped : (body (main env flags) []).0 ≡ exited 1
unfolding main register
stopped = refl
