-- ===== src/Tests/Drains.antt =====
-- `DrainGPU`, and what it reads of a node, at concrete inputs.
use composable_resource_oper.Common.{
  string_dec, ℕ_discrete, trim_space, to_upper, to_lower, contains_text, after_first, trim_dots,
  String, Bool, true, false, none, some, List, [], ◌∷◌, refl, ◌≡◌, ◌≢◌, ◌↔◌, All, map, split, body,
}
use composable_resource_oper.Api.{Result, ResourceState, ComposableResource}
use composable_resource_oper.Cdi.{answered}
use composable_resource_oper.Gpu.{Output, is_failed, ResourceSlice, find_place}
use composable_resource_oper.Gpu.Pods.{
  is_container_driver_enabled, Pod, Selector, driver_pods, agent_pods, plugin_pods, query_gpu,
  scan_proc, query_drain, Command, in_pod, on_host, Env,
}
use composable_resource_oper.Gpu.Info.{Info, read_proc, check_gpu_visible}
use composable_resource_oper.Gpu.Info.RoundTrip.{
  Row, IsPlainRow, print_rows, info_of, read_proc-print_rows,
}
use composable_resource_oper.Gpu.Info.Visible.{check_gpu_visible-find_place}
use composable_resource_oper.Gpu.Drain.{fields}
use composable_resource_oper.Gpu.Drain.Driver.{drain_in_driver, drain_gpu}
use composable_resource_oper.Gpu.Drain.Looking.{DrainedCarefully}
use composable_resource_oper.Gpu.Drain.Safety.{drain_gpu-DrainedCarefully}
use composable_resource_oper.Gpu.Drain.Ending.{Ended, drain_gpu-Ended}
use composable_resource_oper.Gpu.Drain.Place.{RanIn, drain_in_driver-first}
use composable_resource_oper.Tests.Fixtures.{gpu}

abbrev output : String → Output
output text = record { stdout = text; stderr = ""; error = none }

abbrev pod : String → String → Pod
pod name node = record { namespace = "cro"; name = name; node = node }

-- Two GPUs, as the script prints them
abbrev printed : String
printed = "0,GPU-1,0000:1f:00.0\n1,GPU-2,0000:2f:00.0\n"

abbrev answer : Command → Output
answer (on_host scan_proc) = output printed
answer (on_host (query_drain bus)) = output "Drain state: not draining."
answer (in_pod (query_gpu args)) = output "0, GPU-1, 00000000:1F:00.0\n"
answer _ = output ""

abbrev pods : Selector → Result (List Pod)
pods driver_pods = Result.ok (pod "driver-b" "node2" ∷ pod "driver-a" "node1" ∷ [])
pods (agent_pods node) = Result.ok (pod "cro-node-agent-x" node ∷ [])
pods (plugin_pods node) = Result.ok (pod "nvidia-dra-driver-gpu-kubelet-plugin-x" node ∷ [])

abbrev slices : List ResourceSlice
slices =
    record {
      driver = "gpu.nvidia.com";
      pool = "node1";
      devices = record { name = "gpu-0"; attributes = ("uuid", some "d1") ∷ [] } ∷ [];
    }
    ∷ []

abbrev pub cluster : Bool → Env
cluster enabled = record {
  cluster_policy = Result.ok (some enabled);
  list_pods = λ _ s. pods s;
  list_slices = Result.ok slices;
  exec = λ _ _ c. answer c;
  reset_ended = λ _. none;
}

-- The run in the agent, to its end
pub drained : (body (drain_gpu (cluster false) "node1" "GPU-1" "DRA") []).0 ≡ answered tt
unfolding drain_gpu string_dec ℕ_discrete trim_space to_upper contains_text to_lower after_first
    trim_dots
drained = refl

drain_gpu-Ended_example :
    Ended
      (cluster false)
      "GPU-1"
      "node1"
      (body (drain_gpu (cluster false) "node1" "GPU-1" "DRA") []).1
unfolding is_container_driver_enabled
drain_gpu-Ended_example = drain_gpu-Ended (cluster false) "GPU-1" "node1" refl drained

drain_gpu-DrainedCarefully_example :
    DrainedCarefully "GPU-1" (body (drain_gpu (cluster false) "node1" "GPU-1" "DRA") []).1
drain_gpu-DrainedCarefully_example =
    drain_gpu-DrainedCarefully (cluster false) "node1" "GPU-1" "DRA"

abbrev rows : List Row
rows = record { minor = "1"; uuid = "GPU-2"; bus = "0000:2f:00.0" } ∷ []

abbrev row : Row
row = record { minor = "0"; uuid = "GPU-1"; bus = "0000:1f:00.0" }

abbrev infos : List Info
infos = map info_of (row ∷ rows)

abbrev agent : Pod
agent = pod "cro-node-agent-x" "node1"

plain_rows : All IsPlainRow (row ∷ rows)
unfolding trim_space ℕ_discrete
plain_rows = (
  ((refl, refl, refl), (refl, refl, refl), (refl, refl, refl)),
  (((refl, refl, refl), (refl, refl, refl), (refl, refl, refl)), tt),
)

printed-rows : trim_space printed ≡ print_rows row rows
unfolding trim_space ℕ_discrete
printed-rows = refl

printed-well : is_failed (output printed) ≡ false
unfolding string_dec
printed-well = refl

read_proc-print_rows_example : read_proc (split 44 fields) (output printed) ≡ Result.ok infos
read_proc-print_rows_example =
    read_proc-print_rows (output printed) row rows plain_rows printed-well printed-rows

-- The driver's pod of the other node is the first of the list.
drain_in_driver-first_example :
    All
      (RanIn (pod "driver-b" "node2"))
      (body (drain_in_driver (cluster true) false "node1" "GPU-1") []).1
drain_in_driver-first_example =
    drain_in_driver-first (cluster true) "node1" "GPU-1" (pod "driver-b" "node2")
      (pod "driver-a" "node1" ∷ []) (λ log. refl)

abbrev held : ComposableResource
held = gpu "gpu1" ResourceState.detaching "d1" (some 3)

check_gpu_visible-find_place_example :
    ((find_place "d1" slices ≢ none)
      ↔ ((body (check_gpu_visible (cluster true) "DRA" held) []).0 ≡ answered true))
    × ((find_place "d1" slices ≡ none)
        ↔ ((body (check_gpu_visible (cluster true) "DRA" held) []).0 ≡ answered false))
check_gpu_visible-find_place_example =
    check_gpu_visible-find_place (cluster true) held slices refl (((λ h. cc, tt), tt), tt)
