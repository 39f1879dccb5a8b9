-- ===== src/Tests/Gpus.antt =====
-- The check for loads and the taints, at concrete inputs.
use composable_resource_oper.Common.{
  string_dec, ℕ_discrete, trim_space, String, Bool, true, false, none, some, List, [], ◌∷◌, refl,
  ◌≡◌, ◌⊎◌, contains, string_eq, body,
}
use composable_resource_oper.Api.{ErrorKind, Result, ResourceState, ComposableResource}
use composable_resource_oper.Cdi.{answered}
use composable_resource_oper.Gpu.{
  Output, Env, parse_apps, runs_on, check_in_agent, check_no_gpu_loads, ResourceSlice,
  DeviceTaintRule, created, TaintEnv, taint_name, find_in_slice, find_place, create_device_taint,
}
use composable_resource_oper.Gpu.Loads.{
  Idle, Spares, check_no_gpu_loads-agent, check_no_gpu_loads-driver,
}
use composable_resource_oper.Gpu.Taints.{Selects, create_device_taint-Selects}
use composable_resource_oper.Tests.Fixtures.{gpu}

abbrev known : List String
known = "GPU-1" ∷ "GPU-2" ∷ []

abbrev output : String → Output
output text = record { stdout = text; stderr = ""; error = none }

abbrev env : Bool → String → Env
env driver text = record {
  driver_enabled = Result.ok driver;
  agent_pod = λ _. Result.ok "agent";
  driver_pod = λ _. Result.ok "driver";
  proc_gpus = λ _. Result.ok known;
  query_apps = λ _ _. output text;
}

-- An app runs on the other GPU.
abbrev other_runs : Env
other_runs = env false "GPU-2, python\n"

passes : check_no_gpu_loads other_runs "node1" (some "GPU-1") ≡ answered tt
unfolding check_no_gpu_loads check_in_agent parse_apps runs_on trim_space string_dec ℕ_discrete
passes = refl

check_no_gpu_loads-agent_example :
    (contains known "GPU-1" ≡ false) ⊎ Idle (Spares "GPU-1") (output "GPU-2, python\n")
check_no_gpu_loads-agent_example =
    check_no_gpu_loads-agent other_runs "node1" "agent" "GPU-1" known refl refl refl passes

nothing_runs : check_no_gpu_loads (env true "") "node1" none ≡ answered tt
unfolding check_no_gpu_loads parse_apps trim_space string_dec ℕ_discrete
nothing_runs = refl

check_no_gpu_loads-driver_example : Idle (λ line. line ≡ "") (output "")
check_no_gpu_loads-driver_example =
    check_no_gpu_loads-driver (env true "") "node1" "driver" none refl refl nothing_runs

abbrev slices : List ResourceSlice
slices =
    record {
      driver = "gpu.nvidia.com";
      pool = "node1";
      devices = record { name = "gpu-0"; attributes = ("uuid", some "d1") ∷ [] } ∷ [];
    }
    ∷ []

abbrev taints : TaintEnv
taints = record {
  get_rule = λ _. some (record { kind = ErrorKind.not_found; message = "" });
  list_slices = Result.ok slices;
  create = λ _. none;
  delete = λ _. none;
}

abbrev held : ComposableResource
held = gpu "gpu1" ResourceState.detaching "d1" (some 3)

abbrev rule : DeviceTaintRule
rule = record {
  name = "gpu1-taint";
  driver = "gpu.nvidia.com";
  pool = "node1";
  device = "gpu-0";
  value = "d1";
}

made : (body (create_device_taint taints held) []).1 ≡ created rule none ∷ []
unfolding create_device_taint find_place find_in_slice string_dec
made = refl

create_device_taint-Selects_example :
    (rule.name ≡ taint_name held) × (rule.value ≡ "d1") × Selects "d1" rule slices
create_device_taint-Selects_example =
    create_device_taint-Selects taints held slices rule none refl made
