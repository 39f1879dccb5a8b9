-- ===== src/Gpu/Drain/Ending.antt =====
-- A whole run of `DrainGPU` in the agent that reports success.
use composable_resource_oper.Common.{
  String, Bool, true, false, none, some, List, [], ◌∷◌, ◌≡◌, ◌⊎◌, inl, inr, refl, arith,
  Option-cases, ◌==◌, nat_eq, string_eq, string_dec, length, split, trim_space, to_upper, body,
  ◌>>=◌,
}
use composable_resource_oper.Api.{Result}
use composable_resource_oper.Cdi.{answered}
use composable_resource_oper.Gpu.Pods.{
  Pod, scan_proc, on_host, Call, ran, Env, ok_or, get_cro_node_agent_pod,
  is_container_driver_enabled, agent_pods, listed,
}
use composable_resource_oper.Gpu.Info.{Info, read_proc, get_gpu_info_from_proc}
use composable_resource_oper.Gpu.Reading.{find_gpu}
use composable_resource_oper.Gpu.Drain.{fields, drain_found, drain_in_agent}
use composable_resource_oper.Gpu.Drain.Driver.{drain_gpu, drain_where}
use composable_resource_oper.Gpu.Drain.Completion.{Completed, drain_found-Completed}

module _ (env : Env) (gpu : String) where
  -- The GPU was not there, or its reset is complete.
  abbrev pub Finished : List Info → List Call → Type 0
  Finished infos log =
      (find_gpu gpu infos ≡ none)
      ⊎ ((minor b : String) × (find_gpu gpu infos ≡ some (minor, b))
          × Completed env (length infos == 1) (to_upper (trim_space b)) log)

  -- After these calls the pod's /proc told of these GPUs.
  abbrev pub Told : List Call → Pod → List Info → Type 0
  Told log pod infos =
      read_proc (split 44 fields) (env.exec log pod (on_host scan_proc)) ≡ Result.ok infos

  found-Finished :
      (pod : Pod) (infos : List Info) (log : List Call)
      → (body (drain_found env pod gpu infos) log).0 ≡ answered tt
      → Finished infos (body (drain_found env pod gpu infos) log).1
  found-Finished pod infos log h = elim (Option-cases (find_gpu gpu infos)) [
    | inl n ↦ inl n
    | inr ((minor, b), f) ↦
        inr (minor, b, f, drain_found-Completed env pod gpu minor b infos log f h)
  ]

  read-Finished :
      (pod : Pod) (r : Result (List Info)) (log : List Call)
      → (body (ok_or r >>= λ infos. drain_found env pod gpu infos) log).0 ≡ answered tt
      → (infos : List Info) × (r ≡ Result.ok infos)
        × Finished infos (body (ok_or r >>= λ infos. drain_found env pod gpu infos) log).1
  read-Finished pod (Result.ok infos) log h = (infos, refl, found-Finished pod infos log h)
  read-Finished pod (Result.err e) log h = ground arith

  abbrev Ends : List Call → Pod → List Call → Type 0
  Ends log pod end = (infos : List Info) × Told log pod infos × Finished infos end

  pod-Ends :
      (r : Result Pod) (log : List Call)
      → let rest = ok_or r >>= λ pod. get_gpu_info_from_proc env pod fields >>= λ answer.
          ok_or answer >>= λ infos. drain_found env pod gpu infos in
        (body rest log).0 ≡ answered tt
        → (pod : Pod) × (r ≡ Result.ok pod) × Ends log pod (body rest log).1
  unfolding get_gpu_info_from_proc
  pod-Ends (Result.ok pod) log h =
      let o = env.exec log pod (on_host scan_proc) in
      (
        pod,
        refl,
        read-Finished pod (read_proc (split 44 fields) o) (ran pod (on_host scan_proc) o ∷ log) h,
      )
  pod-Ends (Result.err e) log h = ground arith

  module _ (node : String) where
    abbrev agents : List Call
    agents = listed (agent_pods node) (env.list_pods [] (agent_pods node)) ∷ []

    -- The run in the agent ended with the GPU gone or reset.
    unfoldable pub Ended : List Call → Type 0
    unfolding get_cro_node_agent_pod
    Ended end =
        (pod : Pod) × ((body (get_cro_node_agent_pod env node) []).0 ≡ Result.ok pod)
        × Ends agents pod end

    agent-Ended :
        (body (drain_in_agent env node gpu) []).0 ≡ answered tt
        → Ended (body (drain_in_agent env node gpu) []).1
    unfolding drain_in_agent Ended
    agent-Ended h = pod-Ends (body (get_cro_node_agent_pod env node) []).0 agents h

    enabled-Ended :
        (r : Result Bool)
        → r ≡ Result.ok false
        → let kind : String = "DRA" in
          let run = ok_or r >>= λ enabled. drain_where env (kind == "DRA") enabled node gpu in
          (body run []).0 ≡ answered tt → Ended (body run []).1
    unfolding string_dec
    enabled-Ended (Result.ok false) d h = agent-Ended h
    enabled-Ended (Result.ok true) d h = ground arith
    enabled-Ended (Result.err e) d h = ground arith

    -- When `DrainGPU` reports success on a cluster with DRA and without the driver's container, then
    -- the agent's /proc told of some GPUs; and either the GPU was not among them, or the last command
    -- was its reset, which succeeded, or, where it was the only GPU, a scan that ran well and found no
    -- process that removes it.
    pub drain_gpu-Ended :
        is_container_driver_enabled env ≡ Result.ok false
        → (body (drain_gpu env node gpu "DRA") []).0 ≡ answered tt
        → Ended (body (drain_gpu env node gpu "DRA") []).1
    unfolding drain_gpu
    drain_gpu-Ended d h = enabled-Ended (is_container_driver_enabled env) d h
