-- ===== src/Gpu/Drain/Safety.antt =====
-- In every case of `DrainGPU`, what is done to a node.
use composable_resource_oper.Common.{
  String, Bool, true, false, Option, none, some, List, [], ◌≡◌, inl, arith, refl, string_eq,
  string_dec, nat_eq, ◌==◌, All, Triple, Spec, value-Triple, body, body-Triple, weaken-Triple,
  trim_space, trim_prefix, to_upper, length, ◌>>=◌,
}
use composable_resource_oper.Api.{Result}
use composable_resource_oper.Cdi.{Answer, answered, failed, panicked}
use composable_resource_oper.Gpu.Pods.{
  Pod, in_pod, Call, Env, ok_or, answer_or, get_cro_node_agent_pod, get_nvidia_driver_daemonset_pod,
  is_container_driver_enabled,
}
use composable_resource_oper.Gpu.Info.{
  Info, query_in, get_gpu_info_from_proc, get_gpu_info_from_nvidia_pod,
}
use composable_resource_oper.Gpu.Reading.{find_gpu}
use composable_resource_oper.Gpu.Drain.{Drained, fields, drain_entry, drain_found, drain_in_agent}
use composable_resource_oper.Gpu.Drain.Driver.{
  minor_and_bus, with_pod, drain_in_driver, drain_where, drain_by_driver, drain_gpu,
}
use composable_resource_oper.Gpu.Drain.Policy.{Once, Lists}
use composable_resource_oper.Gpu.Drain.Order.{Listed-Careful}
use composable_resource_oper.Gpu.Drain.Driven.{drain_by_driver-Careful}
use composable_resource_oper.Gpu.Drain.Looking.{
  DrainedCarefully, Looks, All-Looks, Once-map, Scanned, Queried, Scanned-Lists, Queried-Lists,
}

module _ (env : Env) (node gpu : String) where
  abbrev Safe : List Call → Type 0
  Safe log = DrainedCarefully gpu log

  looked : (log : List Call) → All Looks log → Safe log
  looked log h = ("", "", All-Looks gpu "" "" log h)

  -- What is known once the GPUs were read from /proc, or asked of nvidia-smi
  abbrev AfterScan : Result (List Info) → List Call → Type 0
  AfterScan r log = All Looks log × Once (Scanned r) log

  abbrev AfterQuery : Answer (List Info) → List Call → Type 0
  AfterQuery r log =
      All Looks log × ((infos : List Info) → r ≡ answered infos → Once (Queried r) log)

  drain_entry-Safe :
      (pod : Pod) (last : Bool) (infos : List Info) (o : Option (String × String))
      → find_gpu gpu infos ≡ o
      → Triple (AfterScan (Result.ok infos)) (drain_entry env pod gpu last o) Safe Safe
  drain_entry-Safe pod last infos none e = record { apply = λ log h. looked log h.0 }
  drain_entry-Safe pod last infos (some (minor, b)) e =
      let bus = to_upper (trim_space b) in
      weaken-Triple
        (λ log (l, s). (
          All-Looks gpu minor bus log l,
          Once-map (Scanned (Result.ok infos)) (Lists gpu minor bus)
              (Scanned-Lists gpu minor b infos e) log s,
        ))
        (λ log h. (minor, bus, h)) (Listed-Careful env gpu minor bus pod last)

  drain_found-Safe :
      (pod : Pod) (infos : List Info)
      → Triple (AfterScan (Result.ok infos)) (drain_found env pod gpu infos) Safe Safe
  unfolding drain_found
  drain_found-Safe pod infos =
      drain_entry-Safe pod (length infos == 1) infos (find_gpu gpu infos) refl

  scanned-Safe :
      (pod : Pod) (r : Result (List Info))
      → Triple (AfterScan r) (ok_or r >>= drain_found env pod gpu) Safe Safe
  scanned-Safe pod (Result.ok infos) = record {
    apply = λ log h. (drain_found-Safe pod infos).apply log h;
  }
  scanned-Safe pod (Result.err e) = record { apply = λ log h. looked log h.0 }

  scan-AfterScan :
      (pod : Pod)
      → Spec {R = Drained} (All Looks) (get_gpu_info_from_proc env pod fields) AfterScan (λ _. Safe)
  unfolding get_gpu_info_from_proc
  scan-AfterScan pod = record { apply = λ log h. ((tt, h), inl refl) }

  in_pod-Safe :
      (found : Result Pod)
      → Triple
          (All Looks)
          (ok_or found >>= λ pod. get_gpu_info_from_proc env pod fields >>= λ answer.
            ok_or answer >>= drain_found env pod gpu)
          Safe
          Safe
  in_pod-Safe (Result.ok pod) = record {
    apply = λ log h. (value-Triple (scan-AfterScan pod) (scanned-Safe pod)).apply log h;
  }
  in_pod-Safe (Result.err e) = record { apply = λ log h. looked log h }

  drain_in_agent-Safe : Triple (All Looks) (drain_in_agent env node gpu) Safe Safe
  unfolding drain_in_agent get_cro_node_agent_pod
  drain_in_agent-Safe = record { apply = λ log h. (in_pod-Safe _).apply _ (tt, h) }

  driver_entry-Safe :
      (dra : Bool) (pod : Pod) (infos : List Info) (o : Option (String × String))
      → find_gpu gpu infos ≡ o
      → Triple
          (λ log. All Looks log × Once (Queried (answered infos)) log)
          (drain_by_driver env dra pod node gpu (minor_and_bus o).0 (minor_and_bus o).1)
          Safe
          Safe
  unfolding drain_by_driver string_dec
  driver_entry-Safe dra pod infos none e = record { apply = λ log h. looked log h.0 }
  driver_entry-Safe dra pod infos (some (minor, b)) e =
      let bus = trim_prefix b "0000" in
      weaken-Triple
        (λ log (l, s). (
          All-Looks gpu minor bus log l,
          Once-map (Queried (answered infos)) (Lists gpu minor bus)
              (Queried-Lists gpu minor b infos e) log s,
        ))
        (λ log h. (minor, bus, h)) (drain_by_driver-Careful env gpu minor bus pod dra node)

  queried-Safe :
      (dra : Bool) (pod : Pod) (r : Answer (List Info))
      → Triple
          (AfterQuery r)
          (answer_or r >>= λ infos.
            drain_by_driver env dra pod node gpu
              (minor_and_bus (find_gpu gpu infos)).0
              (minor_and_bus (find_gpu gpu infos)).1)
          Safe
          Safe
  queried-Safe dra pod (answered infos) = record {
    apply = λ log (l, q).
        (driver_entry-Safe dra pod infos (find_gpu gpu infos) refl).apply log (l, q infos refl);
  }
  queried-Safe dra pod (failed e) = record { apply = λ log h. looked log h.0 }
  queried-Safe dra pod panicked = record { apply = λ log h. looked log h.0 }

  asked-AfterQuery :
      (found : Result Pod) (log : List Call)
      → All Looks log
      → AfterQuery
          (body (query_in env in_pod fields found) log).0
          (body (query_in env in_pod fields found) log).1
  asked-AfterQuery (Result.ok pod) log h = ((tt, h), λ infos e. inl (refl, refl))
  asked-AfterQuery (Result.err e) log h = (h, λ infos k. absurd (ground arith))

  query-AfterQuery :
      Spec {R = Drained}
        (All Looks)
        (get_gpu_info_from_nvidia_pod env node fields)
        AfterQuery
        (λ _. Safe)
  unfolding get_gpu_info_from_nvidia_pod get_nvidia_driver_daemonset_pod
  query-AfterQuery = record { apply = λ log h. asked-AfterQuery _ _ (tt, h) }

  with_pod-Safe :
      (dra : Bool) (found : Result Pod)
      → Triple (All Looks) (with_pod env dra node gpu found) Safe Safe
  with_pod-Safe dra (Result.err e) = record { apply = λ log h. looked log h }
  with_pod-Safe dra (Result.ok pod) = record {
    apply = λ log h. (value-Triple query-AfterQuery (queried-Safe dra pod)).apply log h;
  }

  drain_in_driver-Safe :
      (dra : Bool) → Triple (All Looks) (drain_in_driver env dra node gpu) Safe Safe
  unfolding drain_in_driver get_nvidia_driver_daemonset_pod
  drain_in_driver-Safe dra = record { apply = λ log h. (with_pod-Safe dra _).apply _ (tt, h) }

  drain_where-Safe :
      (dra enabled : Bool) → Triple (All Looks) (drain_where env dra enabled node gpu) Safe Safe
  drain_where-Safe true true = drain_in_driver-Safe true
  drain_where-Safe true false = drain_in_agent-Safe
  drain_where-Safe false enabled = drain_in_driver-Safe false

  enabled-Safe :
      (kind : String) (r : Result Bool)
      → Triple
          (All Looks)
          (ok_or r >>= λ enabled. drain_where env (kind == "DRA") enabled node gpu)
          Safe
          Safe
  enabled-Safe kind (Result.ok enabled) = record {
    apply = λ log h. (drain_where-Safe (kind == "DRA") enabled).apply log h;
  }
  enabled-Safe kind (Result.err e) = record { apply = λ log h. looked log h }

  -- Whatever the cluster, the pods and the commands answer, `DrainGPU` works on one device minor and bus
  -- id, which an output read before lists for the GPU. It switches persistence mode off only for that GPU;
  -- sets maintenance mode and removes device files only for that GPU, after its device file was seen to be
  -- unused; and removes kernel modules and resets only that GPU, after that and once it was put into
  -- maintenance mode or told to be draining.
  pub drain_gpu-DrainedCarefully :
      (kind : String) → DrainedCarefully gpu (body (drain_gpu env node gpu kind) []).1
  unfolding drain_gpu
  drain_gpu-DrainedCarefully kind =
      body-Triple (enabled-Safe kind (is_container_driver_enabled env)) [] tt
