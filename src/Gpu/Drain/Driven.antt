-- ===== src/Gpu/Drain/Driven.antt =====
-- The order of the commands of `DrainGPU` in the driver's container.
use composable_resource_oper.Common.{
  String, Bool, true, false, ◌==◌, List, arith, string_eq, Triple, then-Triple, if-Triple,
}
use composable_resource_oper.Gpu.Pods.{Pod, disable_persistence, in_pod, Call, Env}
use composable_resource_oper.Gpu.Drain.{must_run}
use composable_resource_oper.Gpu.Drain.Driver.{
  require_unused, remove_files, detach, remove_files_if, drain_by_driver,
}
use composable_resource_oper.Gpu.Drain.Order.{Careful, Listed, Free}

module _ (env : Env) (gpu minor bus : String) (pod : Pod) where
  abbrev Start : List Call → Type 0
  Start = Listed env gpu minor bus

  abbrev Unused : List Call → Type 0
  Unused = Free env gpu minor bus

  abbrev Good : List Call → Type 0
  Good = Careful env gpu minor bus

  persistence-Good :
      Triple Start
        (must_run env pod (in_pod (disable_persistence gpu)) (disable_persistence gpu))
        Start
        Good
  persistence-Good = record { apply = λ log h. ground arith }

  require_unused-Good : Triple Start (require_unused env pod minor) Unused Good
  require_unused-Good = record { apply = λ log h. ground arith }

  remove_files-Good :
      (dra : Bool) (node : String)
      → Triple Unused (remove_files_if env dra pod node minor) Unused Good
  unfolding remove_files
  remove_files-Good true node = record { apply = λ log h. ground arith }
  remove_files-Good false node = record { apply = λ log h. h }

  detach-Good : Triple Unused (detach env pod bus) Good Good
  detach-Good = record { apply = λ log h. ground arith }

  pub drain_by_driver-Careful :
      (dra : Bool) (node : String)
      → Triple Start (drain_by_driver env dra pod node gpu minor bus) Good Good
  unfolding drain_by_driver
  drain_by_driver-Careful dra node =
      if-Triple (bus == "") (λ _. record { apply = λ log h. h.0 })
        (λ _.
          then-Triple persistence-Good (
            then-Triple require_unused-Good (then-Triple (remove_files-Good dra node) detach-Good)))
