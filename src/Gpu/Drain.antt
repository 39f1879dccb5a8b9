-- ===== src/Gpu/Drain.antt =====
-- `DrainGPU` of internal/utils/gpus.go without the driver's container, and the functions that it calls.
pub mod Driver
pub mod Policy
pub mod Order
pub mod Driven
pub mod Looking
pub mod Safety
pub mod Completion
pub mod Ending
pub mod Place
use composable_resource_oper.Common.{
  String, ◌<>◌, ℕ, Bool, true, false, Option, none, some, List, [], ◌∷◌, ◌==◌, ◌!=◌, ◌&&◌, ◌||◌,
  string_eq, nat_eq, length, if◌then◌else◌, split, trim_space, trim_dots, trim_prefix,
  contains_text, after_first, first_field, to_lower, to_upper, pure, return, skip, get, modify,
  ◌>>=◌, ◌>>◌,
}
use composable_resource_oper.Api.{Error, Result}
use composable_resource_oper.Nodes.{errorf}
use composable_resource_oper.Cdi.{Answer, answered, failed, panicked}
use composable_resource_oper.Gpu.{Output, is_failed}
use composable_resource_oper.Gpu.Pods.{
  Pod, Tool, disable_persistence, check_users, set_maintenance, remove_file, reset_gpu,
  remove_device, query_drain, list_modules, remove_module, find_reset, Command, in_pod, on_host,
  Call, started, Env, Act, ok_or, answer_or, is_container_driver_enabled, run,
  get_nvidia_driver_daemonset_pod, get_dra_kubelet_plugin_pod, get_cro_node_agent_pod,
}
use composable_resource_oper.Gpu.Reading.{read_drain_status, names_module, to_remove, find_gpu}
use composable_resource_oper.Gpu.Info.{
  Info, field, get_gpu_info_from_nvidia_pod, get_gpu_info_from_proc,
}

-- `DrainGPU` answers with an error or none.
abbrev pub Drained : Type 0
Drained = Answer (Unit {0})

abbrev pub describe : Tool → String
describe (disable_persistence gpu) = "disable persistence mode"
describe (check_users minor) = "check /dev/nvidiaX"
describe (set_maintenance bus) = "set maintenance mode"
describe (remove_file path) = "remove file /dev/nvidiaX"
describe (reset_gpu bus) = "reset GPU"
describe (list_modules) = "lsmod"
describe (remove_module m) = "remove " <> (m <> " module")
describe _ = "command"

abbrev pub failed_step : Tool → Drained
failed_step t = failed (errorf ("detach command '" <> (describe t <> "' failed")))

abbrev pub in_use : Drained
in_use =
    failed
      (errorf "check /dev/nvidiaX command failed: /dev/nvidiaX is in use by one or more processes")

-- The steps of the loop over `disableCommand` that a draining GPU does without
abbrev pub is_done_while_draining : Tool → Bool
is_done_while_draining (disable_persistence gpu) = true
is_done_while_draining (set_maintenance bus) = true
is_done_while_draining _ = false

abbrev pub lists_users : Tool → Bool
lists_users (check_users minor) = true
lists_users _ = false

abbrev pub fields : String
fields = "device_minor,gpu_uuid,pci.bus_id"

module _ (env : Env) where
  -- A command that must succeed; the caller returns its failure.
  abbrev pub must : Pod → Command → Tool → Act Drained String
  must pod c t = do o ← run env pod c; if is_failed o then return (failed_step t) else pure o.stdout

  abbrev pub must_run : Pod → Command → Tool → Act Drained (Unit {0})
  must_run pod c t = must pod c t >>= λ _. skip

  unfoldable pub check_gpu_drain_status : {R : Type 0} → Pod → String → Act R (Result Bool)
  unfolding read_drain_status
  check_gpu_drain_status pod bus =
      if trim_space bus == ""
      then pure (Result.err (errorf "target GPU bus ID is empty"))
      else (run env pod (on_host (query_drain (trim_space bus))) >>= λ o.
          pure (read_drain_status o))

  abbrev reject_users : Tool → String → Act Drained (Unit {0})
  reject_users t out = if lists_users t && (out != "") then return in_use else skip

  -- The loop over `disableCommand`, in the agent
  unfoldable pub disable : Bool → Pod → List Tool → Act Drained (Unit {0})
  disable draining pod [] = skip
  disable draining pod (t ∷ ts) =
      let rest = disable draining pod ts in
      if draining && is_done_while_draining t
      then rest
      else (do out ← must pod (on_host t) t; reject_users t out; rest)

  unfoldable pub remove_modules : Pod → List String → Act Drained (Unit {0})
  remove_modules pod [] = skip
  remove_modules pod (m ∷ ms) = do
    must_run pod (on_host (remove_module m)) (remove_module m)
    remove_modules pod ms

  unfoldable pub remove_nvidia_driver_module : Pod → Act Drained (Unit {0})
  unfolding names_module remove_modules
  remove_nvidia_driver_module pod = do
    out ← must pod (on_host list_modules) list_modules
    let lines = split 10 (trim_space out)
    remove_modules pod
        (to_remove (names_module "nvidia_drm" lines) (names_module "nvidia_uvm" lines))

  -- `checkResetGPUCommandStillRunning`
  unfoldable pub is_reset_running : Pod → String → Act Drained Bool
  is_reset_running pod bus = do
    o ← run env pod (on_host (find_reset bus))
    if is_failed o
        then return (failed (errorf "check 'reset GPU' command failed"))
        else pure (trim_space o.stdout == "true")

  -- The goroutine
  abbrev pub start_reset : Bool → Pod → String → Act Drained (Unit {0})
  start_reset true pod bus = skip
  start_reset false pod bus = modify (λ log. started pod (on_host (remove_device bus)) ∷ log)

  -- `isResetGPUCommandError`, which only the goroutine sets
  abbrev pub has_reset_failed : Bool → List Call → Bool
  has_reset_failed true log = false
  has_reset_failed false log = elim (env.reset_ended log) [ none ↦ false | some o ↦ is_failed o ]

  abbrev pub judge_reset : (running failing : Bool) → Drained
  judge_reset running failing =
      if running || failing
      then failed (errorf "detach command 'reset GPU' did not complete")
      else answered tt

  unfoldable pub drain_last : Pod → String → Act Drained Drained
  unfolding remove_nvidia_driver_module is_reset_running
  drain_last pod bus = do
    remove_nvidia_driver_module pod
    before ← is_reset_running pod (to_lower bus)
    start_reset before pod (to_lower bus)
    remove_nvidia_driver_module pod
    after ← is_reset_running pod (to_lower bus)
    log ← get
    pure (judge_reset after (has_reset_failed before log))

  abbrev pub reset_in_agent : Bool → Pod → String → Act Drained Drained
  reset_in_agent true pod bus = drain_last pod bus
  reset_in_agent false pod bus = do
    must_run pod (on_host (reset_gpu bus)) (reset_gpu bus)
    pure (answered tt)

  abbrev pub disabling : String → String → String → List Tool
  disabling gpu minor bus =
      disable_persistence gpu
      ∷ check_users minor
      ∷ set_maintenance bus
      ∷ remove_file ("/dev/nvidia" <> minor)
      ∷ []

  unfoldable pub drain_listed : Pod → String → String → String → Bool → Act Drained Drained
  unfolding check_gpu_drain_status disable drain_last
  drain_listed pod gpu minor bus last = do
    status ← check_gpu_drain_status pod bus
    draining ← ok_or status
    disable draining pod (disabling gpu minor bus)
    reset_in_agent last pod bus

  abbrev pub drain_entry : Pod → String → Bool → Option (String × String) → Act Drained Drained
  drain_entry pod gpu last none = pure (answered tt)
  drain_entry pod gpu last (some (minor, bus)) =
      drain_listed pod gpu minor (to_upper (trim_space bus)) last

  unfoldable pub drain_found : Pod → String → List Info → Act Drained Drained
  unfolding drain_listed find_gpu
  drain_found pod gpu infos = drain_entry pod gpu (length infos == 1) (find_gpu gpu infos)

  -- RKE2 and DRA
  unfoldable pub drain_in_agent : String → String → Act Drained Drained
  unfolding drain_found get_cro_node_agent_pod get_gpu_info_from_proc
  drain_in_agent node gpu = do
    found ← get_cro_node_agent_pod env node
    pod ← ok_or found
    answer ← get_gpu_info_from_proc env pod fields
    infos ← ok_or answer
    drain_found pod gpu infos
