-- ===== src/Gpu/Drain/Order.antt =====
-- The order of the commands of `DrainGPU` in the agent.
use composable_resource_oper.Common.{
  String, Bool, true, false, List, [], ◌∷◌, arith, string_eq, Obeys, Triple, then-Triple,
  bind-Triple, value-Triple, Spec, to_lower, ◌>>=◌, ◌>>◌,
}
use composable_resource_oper.Api.{Result}
use composable_resource_oper.Gpu.Pods.{Pod, list_modules, on_host, Call, Env, ok_or}
use composable_resource_oper.Gpu.Drain.{
  Drained, must, check_gpu_drain_status, disable, remove_modules, remove_nvidia_driver_module,
  is_reset_running, start_reset, drain_last, reset_in_agent, disabling, drain_listed,
}
use composable_resource_oper.Gpu.Drain.Policy.{
  Once, FoundDraining, Lists, Maintained, Idle, DrainsCarefully,
}

module _ (env : Env) (gpu minor bus : String) where
  abbrev pub Careful : List Call → Type 0
  Careful = Obeys (DrainsCarefully gpu minor bus)

  abbrev pub Listed : List Call → Type 0
  Listed log = Careful log × Once (Lists gpu minor bus) log

  abbrev pub Free : List Call → Type 0
  Free log = Careful log × Idle gpu minor bus log

  abbrev pub Held : List Call → Type 0
  Held log = Free log × Maintained bus log

  -- What the answer about draining says of the log
  abbrev pub Known : Bool → List Call → Type 0
  Known true log = Listed log × Once (FoundDraining bus) log
  Known false log = Listed log

  -- The two ways through the loop
  disable_draining :
      (pod : Pod)
      → Triple (Known true) (disable env true pod (disabling env gpu minor bus)) Held Careful
  unfolding disable
  disable_draining pod = record { apply = λ log h. ground arith }

  disable_idle :
      (pod : Pod)
      → Triple (Known false) (disable env false pod (disabling env gpu minor bus)) Held Careful
  unfolding disable
  disable_idle pod = record { apply = λ log h. ground arith }

  abbrev Told : Result Bool → List Call → Type 0
  Told (Result.ok draining) log = Known draining log
  Told (Result.err e) log = Careful log

  status-Told :
      (pod : Pod)
      → Spec Listed (check_gpu_drain_status env {R = Drained} pod bus) Told (λ _ log. Careful log)
  unfolding check_gpu_drain_status
  status-Told pod = record { apply = λ log h. ground arith }

  disable-Held :
      (draining : Bool) (pod : Pod)
      → Triple
          (Known draining)
          (disable env draining pod (disabling env gpu minor bus))
          Held
          Careful
  disable-Held true pod = disable_draining pod
  disable-Held false pod = disable_idle pod

  remove_modules-Held :
      (pod : Pod) (ms : List String) → Triple Held (remove_modules env pod ms) Held Careful
  unfolding remove_modules
  remove_modules-Held pod [] = record { apply = λ log h. h }
  remove_modules-Held pod (m ∷ ms) =
      then-Triple (record { apply = λ log h. ground arith }) (remove_modules-Held pod ms)

  list_modules-Held :
      (pod : Pod) → Triple Held (must env pod (on_host list_modules) list_modules) Held Careful
  list_modules-Held pod = record { apply = λ log h. ground arith }

  module-Held : (pod : Pod) → Triple Held (remove_nvidia_driver_module env pod) Held Careful
  unfolding remove_nvidia_driver_module
  module-Held pod = bind-Triple (list_modules-Held pod) (λ out. remove_modules-Held pod _)

  running-Held : (pod : Pod) (b : String) → Triple Held (is_reset_running env pod b) Held Careful
  unfolding is_reset_running
  running-Held pod b = record { apply = λ log h. ground arith }

  start-Held :
      (before : Bool) (pod : Pod)
      → Triple Held (start_reset env before pod (to_lower bus)) Held Careful
  start-Held true pod = record { apply = λ log h. h }
  start-Held false pod = record { apply = λ log h. ground arith }

  last-Careful : (pod : Pod) → Triple Held (drain_last env pod bus) Careful Careful
  unfolding drain_last
  last-Careful pod = then-Triple (module-Held pod) (
      bind-Triple (running-Held pod (to_lower bus)) (λ before. then-Triple (start-Held before pod) (
        then-Triple (module-Held pod) (
          bind-Triple (running-Held pod (to_lower bus))
            (λ after. record { apply = λ log h. h.0.0 })))))

  reset-Careful :
      (last : Bool) (pod : Pod) → Triple Held (reset_in_agent env last pod bus) Careful Careful
  reset-Careful true pod = last-Careful pod
  reset-Careful false pod = record { apply = λ log h. ground arith }

  Told-Careful :
      (status : Result Bool) (pod : Pod) (last : Bool)
      → Triple
          (Told status)
          (ok_or status >>= λ draining.
            disable env draining pod (disabling env gpu minor bus)
            >> reset_in_agent env last pod bus)
          Careful
          Careful
  Told-Careful (Result.err e) pod last = record { apply = λ log h. h }
  Told-Careful (Result.ok draining) pod last = record {
    apply = λ log h. (then-Triple (disable-Held draining pod) (reset-Careful last pod)).apply log h;
  }

  pub Listed-Careful :
      (pod : Pod) (last : Bool)
      → Triple Listed (drain_listed env pod gpu minor bus last) Careful Careful
  unfolding drain_listed
  Listed-Careful pod last = value-Triple (status-Told pod) (λ status. Told-Careful status pod last)
