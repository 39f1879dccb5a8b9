-- ===== src/Resource/Draining.antt =====
-- The controller of ComposableResources together with `DrainGPU`: what was done on the node before
-- a device is removed.
use composable_resource_oper.Common.{
  sym, subst, arith, false, Option, none, some, List, [], ◌∷◌, ◌≡◌, refl, body, Obeys, Obeys-map,
  string_eq,
}
use composable_resource_oper.Api.{Error, Result, ComposableResource}
use composable_resource_oper.Nodes.{errorf}
use composable_resource_oper.Cdi.{answered, failed, panicked}
use composable_resource_oper.Gpu.Pods.{is_container_driver_enabled}
use composable_resource_oper.Gpu.Drain.{Drained}
use composable_resource_oper.Gpu.Drain.Driver.{drain_gpu}
use composable_resource_oper.Gpu.Drain.Looking.{DrainedCarefully}
use composable_resource_oper.Gpu.Drain.Safety.{drain_gpu-DrainedCarefully}
use composable_resource_oper.Gpu.Drain.Ending.{Ended, drain_gpu-Ended}
use composable_resource_oper.Resource.Effects.{Env, World, Call, removed_resource}
use composable_resource_oper.Resource.Policy.{CarefulWithDevice}
use composable_resource_oper.Resource.Detaching.{env_kind}
use composable_resource_oper.Resource.Reconcile.{reconcile}
use composable_resource_oper.Resource.Devices.{Careful, reconcile-Careful}
use composable_resource_oper.Gpu.Pods as Pods

-- The cluster's nodes as they are after the controller's calls
abbrev pub Nodes : Type 0
Nodes = List Call → Pods.Env

-- What the controller sees of an answer. A panic ends the reconciliation in the source; here it is
-- a failure, so that its report may still follow.
unfoldable pub error_of : Drained → Option Error
error_of (answered u) = none
error_of (failed e) = some e
error_of panicked = some (errorf "panic")

error_of-none : (o : Drained) → error_of o ≡ none → o ≡ answered tt
unfolding error_of
error_of-none (answered u) h = refl
error_of-none (failed e) h = ground arith
error_of-none panicked h = ground arith

module _ (env : Env) (nodes : Nodes) where
  -- The run of `DrainGPU` for a resource: its answer, and its commands
  abbrev pub drain_run : ComposableResource → List Call → Drained × List Pods.Call
  drain_run r log =
      body (drain_gpu (nodes log) r.spec.target_node r.status.device_id (env_kind env)) []

  -- The controller on these nodes
  abbrev pub on_nodes : Env
  on_nodes = record env {
    drain_gpu =
        λ log node gpu. error_of (body (drain_gpu (nodes log) node gpu (env_kind env)) []).0;
  }

  -- A device is removed directly after a careful run of `DrainGPU` that succeeded and that ended with
  -- the GPU gone or reset.
  abbrev pub RemovesDrained : Call → List Call → Type 0
  RemovesDrained (removed_resource r e) [] = ⊥
  RemovesDrained (removed_resource r e) (c ∷ log) =
      ((drain_run r log).0 ≡ answered tt)
      × DrainedCarefully r.status.device_id (drain_run r log).1
      × Ended (nodes log) r.status.device_id r.spec.target_node (drain_run r log).1
  RemovesDrained _ log = Unit {0}

  module _ (dra : env_kind env ≡ "DRA")
      (no_driver : (log : List Call)
        → is_container_driver_enabled (nodes log) ≡ Result.ok false) where
    drain_run-Ended :
        (r : ComposableResource) (log : List Call)
        → (drain_run r log).0 ≡ answered tt
        → Ended (nodes log) r.status.device_id r.spec.target_node (drain_run r log).1
    drain_run-Ended r log =
        let node = r.spec.target_node in
        let gpu = r.status.device_id in
        subst
          (λ kind.
            (body (drain_gpu (nodes log) node gpu kind) []).0 ≡ answered tt
            → Ended (nodes log) gpu node (body (drain_gpu (nodes log) node gpu kind) []).1)
          (sym dra) (drain_gpu-Ended (nodes log) gpu node (no_driver log))

    Careful-Drained :
        (c : Call) (log : List Call) → CarefulWithDevice on_nodes c log → RemovesDrained c log
    Careful-Drained (removed_resource r e) [] (s, d, j, l) = absurd j
    Careful-Drained (removed_resource r e) (c ∷ log) (s, d, (k, ok), l) =
        let h = error_of-none (drain_run r log).0 ok in
        (
          h,
          drain_gpu-DrainedCarefully (nodes log) r.spec.target_node r.status.device_id
              (env_kind env),
          drain_run-Ended r log h,
        )
    Careful-Drained _ log h = tt

  -- Where devices are claimed by DRA and no driver runs in a container, each removal of a device that a
  -- reconciliation asks the provider for comes directly after a run of `DrainGPU` for that device and
  -- node that reported success, whatever its commands answered. In that run the GPU was drained
  -- carefully; and either the agent's /proc did not tell of it, or the run ended with its reset, which
  -- succeeded, or, where it was the only GPU, with a scan that found no process that removes it.
  pub reconcile-RemovesDrained :
      (w : World)
      → env_kind env ≡ "DRA"
      → ((log : List Call) → is_container_driver_enabled (nodes log) ≡ Result.ok false)
      → Careful on_nodes w
      → Obeys RemovesDrained (reconcile on_nodes w).1.log
  reconcile-RemovesDrained w dra no_driver h =
      Obeys-map (CarefulWithDevice on_nodes) RemovesDrained (Careful-Drained dra no_driver)
        (reconcile on_nodes w).1.log (reconcile-Careful on_nodes w h)
