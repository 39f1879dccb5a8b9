-- ===== src/Gpu/Pods.antt =====
-- internal/utils/gpus.go: the pods in which commands run on a node, and the running of one.
use composable_resource_oper.Common.{
  String, ◌<>◌, Bool, false, Option, none, some, List, [], ◌∷◌, ◌==◌, ◌||◌, string_eq,
  if◌then◌else◌, has_prefix, Action, next, pure, return, ◌>>=◌,
}
use composable_resource_oper.Api.{Result}
use composable_resource_oper.Nodes.{errorf}
use composable_resource_oper.Resource.Handlers.{is_not_found}
use composable_resource_oper.Cdi.{Answer, answered, failed, panicked}
use composable_resource_oper.Gpu.{Output, ResourceSlice}

-- A pod has a container at least; the commands run in its first one.
pub record Pod : Type 0 where
  pub namespace : String
  pub name : String
  pub node : String

-- The three lists of pods that are asked for: those of the driver on all nodes, and those of the
-- agent and of the DRA plugin on one.
pub data Selector : Type 0 where
  driver_pods : Selector
  agent_pods : (node : String) → Selector
  plugin_pods : (node : String) → Selector

-- The programs and scripts that are run. `check_users` prints who has /dev/nvidiaX open, and
-- `find_reset` prints "true" where a process removes the device.
pub data Tool : Type 0 where
  disable_persistence : (gpu : String) → Tool
  check_users : (minor : String) → Tool
  set_maintenance : (bus : String) → Tool
  remove_file : (path : String) → Tool
  reset_gpu : (bus : String) → Tool
  remove_device : (bus : String) → Tool
  query_drain : (bus : String) → Tool
  query_gpu : (fields : String) → Tool
  scan_proc : Tool
  list_modules : Tool
  remove_module : String → Tool
  find_reset : (bus : String) → Tool

-- In the pod itself, or below /host-root by `chroot`
pub data Command : Type 0 where
  in_pod : Tool → Command
  on_host : Tool → Command

-- What has been done so far. A command that was `started` runs on beside the caller.
pub data Call : Type 0 where
  listed : Selector → Result (List Pod) → Call
  ran : Pod → Command → Output → Call
  started : Pod → Command → Call

-- The cluster: an answer may depend on all calls made so far, the newest first.
pub record Env : Type 0 where
  -- `spec.driver.enabled` of the ClusterPolicy
  pub cluster_policy : Result (Option Bool)
  pub list_pods : List Call → Selector → Result (List Pod)
  pub list_slices : Result (List ResourceSlice)
  -- `execCommandInPod`
  pub exec : List Call → Pod → Command → Output
  -- What the command that was started has given back by now, if it has ended
  pub reset_ended : List Call → Option Output

abbrev pub Act : Type 0 → Type 0 → Type 0
Act R A = Action (List Call) R A

-- `if err != nil { return err }`, for a function that returns an answer
abbrev pub ok_or : {A B : Type 0} → Result A → Act (Answer B) A
ok_or (Result.ok a) = pure a
ok_or (Result.err e) = return (failed e)

abbrev pub answer_or : {A B : Type 0} → Answer A → Act (Answer B) A
answer_or (answered a) = pure a
answer_or (failed e) = return (failed e)
answer_or panicked = return panicked

module _ (env : Env) where
  -- `isContainerDriverEnabled`
  unfoldable pub is_container_driver_enabled : Result Bool
  is_container_driver_enabled = elim env.cluster_policy [
    | Result.err e ↦
        if is_not_found e
        then Result.ok false
        else Result.err (errorf "failed to get 'cluster-policy'")
    | Result.ok none ↦ Result.err (
        errorf
          "'cluster-policy' nvidia container driver configuration (spec.driver.enabled) is not set")
    | Result.ok (some enabled) ↦ Result.ok enabled
  ]

  abbrev pub list_pods : {R : Type 0} → Selector → Act R (Result (List Pod))
  list_pods s log = (next (env.list_pods log s), listed s (env.list_pods log s) ∷ log)

  abbrev pub run : {R : Type 0} → Pod → Command → Act R Output
  run pod c log = (next (env.exec log pod c), ran pod c (env.exec log pod c) ∷ log)

unfoldable pub runs_on_node : String → List Pod → Bool
runs_on_node node [] = false
runs_on_node node (p ∷ ps) = p.node == node || runs_on_node node ps

-- The loop of `getNvidiaDriverDaemonsetPod` only looks whether there is one; the pod that it gives
-- back is the first of the list.
unfoldable pub choose_driver_pod : String → List Pod → Result Pod
unfolding runs_on_node
choose_driver_pod node [] = Result.err (errorf ("no driver pod found on node " <> node))
choose_driver_pod node (p ∷ ps) =
    if runs_on_node node (p ∷ ps)
    then Result.ok p
    else Result.err (errorf ("no driver pod found on node " <> node))

unfoldable pub choose_named : String → String → List Pod → Result Pod
unfolding has_prefix
choose_named prefix node [] =
    Result.err (errorf ("no Pod named '" <> (prefix <> ("' found on node " <> node))))
choose_named prefix node (p ∷ ps) =
    if has_prefix p.name prefix then Result.ok p else choose_named prefix node ps

abbrev pub of_listed : (List Pod → Result Pod) → Result (List Pod) → Result Pod
of_listed choose (Result.err e) = Result.err (errorf ("failed to list pods: " <> e.message))
of_listed choose (Result.ok pods) = choose pods

module _ (env : Env) where
  unfoldable pub get_nvidia_driver_daemonset_pod : {R : Type 0} → String → Act R (Result Pod)
  unfolding choose_driver_pod
  get_nvidia_driver_daemonset_pod node =
      list_pods env driver_pods >>= λ pods. pure (of_listed (choose_driver_pod node) pods)

  unfoldable pub get_dra_kubelet_plugin_pod : {R : Type 0} → String → Act R (Result Pod)
  unfolding choose_named
  get_dra_kubelet_plugin_pod node = list_pods env (plugin_pods node) >>= λ pods.
      pure (of_listed (choose_named "nvidia-dra-driver-gpu-kubelet-plugin" node) pods)

  unfoldable pub get_cro_node_agent_pod : {R : Type 0} → String → Act R (Result Pod)
  unfolding choose_named
  get_cro_node_agent_pod node = list_pods env (agent_pods node) >>= λ pods.
      pure (of_listed (choose_named "cro-node-agent" node) pods)
