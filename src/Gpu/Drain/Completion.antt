-- ===== src/Gpu/Drain/Completion.antt =====
-- What is known of the node when `DrainGPU` reports success from the agent.
use composable_resource_oper.Common.{
  weaken-Spec, String, Bool, true, false, some, List, [], ◌∷◌, ◌≡◌, ◌≢◌, ◌⊎◌, inl, inr, arith,
  string_eq, nat_eq, ◌==◌, ◌&&◌, Spec, bind-Spec, then-Spec, body, body-Spec, trim_space, to_upper,
  to_lower, pure, length, get, if-Spec, ◌>>=◌,
}
use composable_resource_oper.Api.{Result}
use composable_resource_oper.Cdi.{answered}
use composable_resource_oper.Gpu.{is_failed}
use composable_resource_oper.Gpu.Pods.{
  Pod, Tool, reset_gpu, find_reset, list_modules, remove_module, Command, on_host, Call, ran, Env,
  Act, ok_or,
}
use composable_resource_oper.Gpu.Info.{Info}
use composable_resource_oper.Gpu.Reading.{find_gpu}
use composable_resource_oper.Gpu.Drain.{
  is_done_while_draining, reject_users, Drained, must, must_run, check_gpu_drain_status, disable,
  remove_modules, remove_nvidia_driver_module, is_reset_running, start_reset, has_reset_failed,
  judge_reset, drain_last, reset_in_agent, disabling, drain_listed, drain_found,
}

-- A statement that returns early has failed.
abbrev Rejects : {A : Type 0} → Act Drained A → Type 0
Rejects m = Spec (λ _. Unit {0}) m (λ _ _. Unit {0}) (λ o _. o ≢ answered tt)

module _ (env : Env) where
  must-Rejects : (pod : Pod) (c : Command) (t : Tool) → Rejects (must env pod c t)
  must-Rejects pod c t = record { apply = λ log h. ground arith }

  must_run-Rejects : (pod : Pod) (c : Command) (t : Tool) → Rejects (must_run env pod c t)
  must_run-Rejects pod c t = record { apply = λ log h. ground arith }

  ok_or-Rejects : {A : Type 0} (r : Result A) → Rejects (ok_or {B = Unit {0}} r)
  ok_or-Rejects (Result.ok a) = record { apply = λ log h. tt }
  ok_or-Rejects (Result.err e) = record { apply = λ log h. ground arith }

  users-Rejects : (t : Tool) (out : String) → Rejects (reject_users env t out)
  users-Rejects t out = record { apply = λ log h. ground arith }

  disable-Rejects :
      (draining : Bool) (pod : Pod) (ts : List Tool) → Rejects (disable env draining pod ts)
  unfolding disable
  disable-Rejects draining pod [] = record { apply = λ log h. tt }
  disable-Rejects draining pod (t ∷ ts) =
      if-Spec (draining && is_done_while_draining t) (disable-Rejects draining pod ts) (
        bind-Spec (must-Rejects pod (on_host t) t)
          (λ out. then-Spec (users-Rejects t out) (disable-Rejects draining pod ts)))

  remove_modules-Rejects : (pod : Pod) (ms : List String) → Rejects (remove_modules env pod ms)
  unfolding remove_modules
  remove_modules-Rejects pod [] = record { apply = λ log h. tt }
  remove_modules-Rejects pod (m ∷ ms) =
      then-Spec (must_run-Rejects pod (on_host (remove_module m)) (remove_module m))
        (remove_modules-Rejects pod ms)

  module-Rejects : (pod : Pod) → Rejects (remove_nvidia_driver_module env pod)
  unfolding remove_nvidia_driver_module
  module-Rejects pod =
      bind-Spec (must-Rejects pod (on_host list_modules) list_modules)
        (λ out. remove_modules-Rejects pod _)

  running-Rejects : (pod : Pod) (b : String) → Rejects (is_reset_running env pod b)
  unfolding is_reset_running
  running-Rejects pod b = record { apply = λ log h. ground arith }

  start-Rejects : (before : Bool) (pod : Pod) (b : String) → Rejects (start_reset env before pod b)
  start-Rejects true pod b = record { apply = λ log h. tt }
  start-Rejects false pod b = record { apply = λ log h. tt }

-- The last call, and what was known before it
abbrev pub AtLast : (Call → List Call → Type 0) → List Call → Type 0
AtLast P [] = ⊥
AtLast P (c ∷ log) = P c log

-- The reset of the GPU has succeeded.
abbrev pub ResetDone : String → Call → List Call → Type 0
ResetDone bus (ran p (on_host t) o) log = (t ≡ reset_gpu bus) × (is_failed o ≡ false)
ResetDone bus _ log = ⊥

module _ (env : Env) where
  -- The scan of the processes ran well and found none that removes the device.
  abbrev pub SeenNoReset : String → Call → List Call → Type 0
  SeenNoReset bus (ran p (on_host t) o) log =
      (t ≡ find_reset (to_lower bus)) × (is_failed o ≡ false) × (trim_space o.stdout ≢ "true")
  SeenNoReset bus _ log = ⊥

  -- The state in which success is reported
  abbrev pub Completed : Bool → String → List Call → Type 0
  Completed true bus log = AtLast (SeenNoReset bus) log
  Completed false bus log = AtLast (ResetDone bus) log

  abbrev OnSuccess : (List Call → Type 0) → Drained → List Call → Type 0
  OnSuccess P o log = (o ≢ answered tt) ⊎ P log

  abbrev Completes : Bool → String → Act Drained Drained → Type 0
  Completes last bus m =
      Spec (λ _. Unit {0}) m (OnSuccess (Completed last bus)) (λ o _. o ≢ answered tt)

  after-Completes :
      (pod : Pod) (bus : String) (before : Bool)
      → Completes true bus (
          is_reset_running env pod (to_lower bus) >>= λ after.
          get >>= λ log. pure (judge_reset env after (has_reset_failed env before log)))
  unfolding is_reset_running
  after-Completes pod bus before = record { apply = λ log h. ground arith }

  last-Completes : (pod : Pod) (bus : String) → Completes true bus (drain_last env pod bus)
  unfolding drain_last
  last-Completes pod bus = then-Spec (module-Rejects env pod) (
      bind-Spec (running-Rejects env pod (to_lower bus)) (λ before.
        then-Spec (start-Rejects env before pod (to_lower bus))
          (then-Spec (module-Rejects env pod) (after-Completes pod bus before))))

  reset-Completes :
      (last : Bool) (pod : Pod) (bus : String)
      → Completes last bus (reset_in_agent env last pod bus)
  reset-Completes true pod bus = last-Completes pod bus
  reset-Completes false pod bus = record { apply = λ log h. ground arith }

  status-Rejects :
      (pod : Pod) (bus : String)
      → Spec {R = Drained}
          (λ _. Unit {0})
          (check_gpu_drain_status env pod bus)
          (λ _ _. Unit {0})
          (λ o _. o ≢ answered tt)
  unfolding check_gpu_drain_status
  status-Rejects pod bus = record { apply = λ log h. ground arith }

  listed-Completes :
      (pod : Pod) (gpu minor bus : String) (last : Bool)
      → Completes last bus (drain_listed env pod gpu minor bus last)
  unfolding drain_listed
  listed-Completes pod gpu minor bus last = bind-Spec (status-Rejects pod bus) (λ status.
      bind-Spec (ok_or-Rejects env status) (λ draining.
        then-Spec (disable-Rejects env draining pod (disabling env gpu minor bus))
          (reset-Completes last pod bus)))

  of_OnSuccess :
      (P : List Call → Type 0) (o : Drained) (log : List Call)
      → OnSuccess P o log
      → o ≡ answered tt
      → P log
  of_OnSuccess P o log (inl n) e = absurd (n e)
  of_OnSuccess P o log (inr h) e = h

  -- When `DrainGPU` reports success for a GPU that it read from /proc, its last command was, for one of
  -- several GPUs, the reset of that GPU, which succeeded; and for the only GPU, the scan for a process
  -- that removes it, which ran well and found none.
  pub drain_found-Completed :
      (pod : Pod) (gpu minor b : String) (infos : List Info) (log : List Call)
      → find_gpu gpu infos ≡ some (minor, b)
      → (body (drain_found env pod gpu infos) log).0 ≡ answered tt
      → Completed
          (length infos == 1)
          (to_upper (trim_space b))
          (body (drain_found env pod gpu infos) log).1
  unfolding drain_found
  drain_found-Completed pod gpu minor b infos log e =
      let last = length infos == 1 in
      let bus = to_upper (trim_space b) in
      rw e (
        of_OnSuccess (Completed last bus) _ _ (
          body-Spec
            (weaken-Spec (λ o t h. h) (λ o t h. inl h) (listed-Completes pod gpu minor bus last))
            log tt))
