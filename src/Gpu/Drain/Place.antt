-- ===== src/Gpu/Drain/Place.antt =====
-- In which pod `DrainGPU` works where the driver runs in a container.
use composable_resource_oper.Common.{
  String, false, ◌==◌, List, [], ◌∷◌, ◌≡◌, arith, string_eq, All, Spec, Triple, then-Triple,
  value-Triple, if-Triple, body, body-Triple, ◌>>=◌,
}
use composable_resource_oper.Api.{Result}
use composable_resource_oper.Cdi.{Answer, answered, failed, panicked}
use composable_resource_oper.Gpu.Pods.{
  Pod, Tool, disable_persistence, Command, in_pod, driver_pods, choose_driver_pod, of_listed, Call,
  listed, ran, started, Env, answer_or, get_nvidia_driver_daemonset_pod,
}
use composable_resource_oper.Gpu.Info.{Info, get_gpu_info_from_nvidia_pod}
use composable_resource_oper.Gpu.Reading.{find_gpu}
use composable_resource_oper.Gpu.Drain.{Drained, fields, must_run}
use composable_resource_oper.Gpu.Drain.Driver.{
  require_unused, detach, remove_files_if, drain_by_driver, minor_and_bus, with_pod,
  drain_in_driver,
}

-- Whatever ran, ran in the pod.
abbrev pub RanIn : Pod → Call → Type 0
RanIn p (ran q c o) = q ≡ p
RanIn p (listed s r) = Unit {0}
RanIn p (started q c) = q ≡ p

module _ (env : Env) (node gpu : String) (p : Pod) (ps : List Pod)
    (first : (log : List Call) → env.list_pods log driver_pods ≡ Result.ok (p ∷ ps)) where
  abbrev There : List Call → Type 0
  There = All (RanIn p)

  must_run-There : (c : Command) (t : Tool) → Triple There (must_run env p c t) There There
  must_run-There c t = record { apply = λ log h. ground arith }

  unused-There : (minor : String) → Triple There (require_unused env p minor) There There
  unused-There minor = record { apply = λ log h. ground arith }

  detach-There : (bus : String) → Triple There (detach env p bus) There There
  detach-There bus = record { apply = λ log h. ground arith }

  no_files-There :
      (minor : String) → Triple There (remove_files_if env false p node minor) There There
  no_files-There minor = record { apply = λ log h. h }

  by_driver-There :
      (minor bus : String)
      → Triple There (drain_by_driver env false p node gpu minor bus) There There
  unfolding drain_by_driver
  by_driver-There minor bus =
      if-Triple (bus == "") (λ _. record { apply = λ log h. h })
        (λ _.
          then-Triple (must_run-There (in_pod (disable_persistence gpu)) (disable_persistence gpu))
            (then-Triple (unused-There minor)
              (then-Triple (no_files-There minor) (detach-There bus))))

  answered-There :
      (r : Answer (List Info))
      → Triple There
          (answer_or r >>= λ infos.
            drain_by_driver env false p node gpu
              (minor_and_bus (find_gpu gpu infos)).0
              (minor_and_bus (find_gpu gpu infos)).1)
          There
          There
  answered-There (answered infos) = record {
    apply = λ log h.
        (by_driver-There (minor_and_bus (find_gpu gpu infos)).0
            (minor_and_bus (find_gpu gpu infos)).1).apply
          log h;
  }
  answered-There (failed e) = record { apply = λ log h. h }
  answered-There panicked = record { apply = λ log h. h }

  abbrev AnswerThere : Result Pod → Type 0
  AnswerThere (Result.ok q) = q ≡ p
  AnswerThere (Result.err e) = Unit {0}

  choose-There : AnswerThere (choose_driver_pod node (p ∷ ps))
  unfolding choose_driver_pod
  choose-There = ground arith

  query-There :
      Spec {R = Drained} There
        (get_gpu_info_from_nvidia_pod env node fields)
        (λ _. There)
        (λ _. There)
  unfolding get_gpu_info_from_nvidia_pod get_nvidia_driver_daemonset_pod
  query-There = record { apply = λ log h. ground (arith, first log, choose-There) }

  with_pod-There :
      (found : Result Pod)
      → AnswerThere found
      → Triple There (with_pod env false node gpu found) There There
  with_pod-There (Result.err e) a = record { apply = λ log h. h }
  with_pod-There (Result.ok q) a =
      rw a (record { apply = λ log h. (value-Triple query-There answered-There).apply log h })

  listed-There :
      (r : Result (List Pod))
      → r ≡ Result.ok (p ∷ ps)
      → AnswerThere (of_listed (choose_driver_pod node) r)
  listed-There r e = rw e choose-There

  -- Where each listing of the driver's pods gives the same list, `DrainGPU` for the device plugin runs
  -- all its commands in the first pod of the list, whichever node that pod is on.
  pub drain_in_driver-first : All (RanIn p) (body (drain_in_driver env false node gpu) []).1
  unfolding drain_in_driver get_nvidia_driver_daemonset_pod
  drain_in_driver-first =
      body-Triple (with_pod-There _ (listed-There (env.list_pods [] driver_pods) (first [])))
        (listed driver_pods (env.list_pods [] driver_pods) ∷ []) (tt, tt)
