-- ===== src/Gpu/Drain/Driver.antt =====
-- `DrainGPU` of internal/utils/gpus.go where the driver runs in a container, and its three cases.
use composable_resource_oper.Common.{
  String, ◌<>◌, Bool, true, false, Option, none, some, ◌==◌, ◌!=◌, string_eq, if◌then◌else◌,
  trim_prefix, pure, return, skip, ◌>>=◌, ◌>>◌,
}
use composable_resource_oper.Api.{Error, Result}
use composable_resource_oper.Cdi.{answered, failed}
use composable_resource_oper.Gpu.Pods.{
  Pod, disable_persistence, check_users, set_maintenance, remove_file, reset_gpu, in_pod, Env, Act,
  ok_or, answer_or, is_container_driver_enabled, run, get_nvidia_driver_daemonset_pod,
  get_dra_kubelet_plugin_pod,
}
use composable_resource_oper.Gpu.Info.{get_gpu_info_from_nvidia_pod}
use composable_resource_oper.Gpu.Reading.{find_gpu}
use composable_resource_oper.Gpu.Drain.{Drained, in_use, fields, must, must_run, drain_in_agent}

-- Without an entry both are the empty text.
abbrev pub minor_and_bus : Option (String × String) → String × String
minor_and_bus none = ("", "")
minor_and_bus (some (minor, bus)) = (minor, trim_prefix bus "0000")

module _ (env : Env) where
  abbrev pub require_unused : Pod → String → Act Drained (Unit {0})
  require_unused pod minor = do
    out ← must env pod (in_pod (check_users minor)) (check_users minor)
    if out != "" then return in_use else skip

  -- With DRA: the device file of the driver's container, and then that of the plugin's
  unfoldable pub remove_files : Pod → String → String → Act Drained (Unit {0})
  unfolding get_dra_kubelet_plugin_pod
  remove_files pod node minor = do
    must_run env pod (in_pod (remove_file ("/run/nvidia/driver/dev/nvidia" <> minor)))
        (remove_file ("/run/nvidia/driver/dev/nvidia" <> minor))
    found ← get_dra_kubelet_plugin_pod env node
    plugin ← ok_or found
    must_run env plugin (in_pod (remove_file ("/dev/nvidia" <> minor)))
        (remove_file ("/dev/nvidia" <> minor))

  -- The failure of the last command is passed over.
  abbrev pub detach : Pod → String → Act Drained Drained
  detach pod bus = do
    must_run env pod (in_pod (set_maintenance bus)) (set_maintenance bus)
    ignored ← run env pod (in_pod (reset_gpu bus))
    pure (answered tt)

  abbrev pub remove_files_if : Bool → Pod → String → String → Act Drained (Unit {0})
  remove_files_if true pod node minor = remove_files pod node minor
  remove_files_if false pod node minor = skip

  unfoldable pub drain_by_driver :
      Bool → Pod → String → String → String → String → Act Drained Drained
  unfolding remove_files
  drain_by_driver dra pod node gpu minor bus = if bus == "" then pure (answered tt) else (do
    must_run env pod (in_pod (disable_persistence gpu)) (disable_persistence gpu)
    require_unused pod minor
    remove_files_if dra pod node minor
    detach pod bus)

  -- A node without a pod of the driver has no GPU, for DRA.
  abbrev pub without_pod : Bool → Error → Drained
  without_pod true e = answered tt
  without_pod false e = failed e

  abbrev pub with_pod : Bool → String → String → Result Pod → Act Drained Drained
  with_pod dra node gpu (Result.err e) = pure (without_pod dra e)
  with_pod dra node gpu (Result.ok pod) = do
    answer ← get_gpu_info_from_nvidia_pod env node fields
    infos ← answer_or answer
    let (minor, bus) = minor_and_bus (find_gpu gpu infos)
    drain_by_driver dra pod node gpu minor bus

  -- OCP, with DRA or with the device plugin
  unfoldable pub drain_in_driver : Bool → String → String → Act Drained Drained
  unfolding drain_by_driver get_nvidia_driver_daemonset_pod get_gpu_info_from_nvidia_pod find_gpu
  drain_in_driver dra node gpu =
      get_nvidia_driver_daemonset_pod env node >>= λ found. with_pod dra node gpu found

  abbrev pub drain_where : Bool → Bool → String → String → Act Drained Drained
  drain_where true false node gpu = drain_in_agent env node gpu
  drain_where dra _ node gpu = drain_in_driver dra node gpu

  unfoldable pub drain_gpu : String → String → String → Act Drained Drained
  unfolding is_container_driver_enabled drain_in_agent drain_in_driver
  drain_gpu node gpu kind = do
    enabled ← ok_or (is_container_driver_enabled env)
    drain_where (kind == "DRA") enabled node gpu
