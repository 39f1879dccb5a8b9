-- ===== src/Resource/Progress.antt =====
-- A ComposableResource reaches its goal where every call succeeds.
use composable_resource_oper.Common.{none, some, true, false, Bool, String, List, []}
use composable_resource_oper.Common.{
  ◌≡◌, ◌∙◌, ap, ℕ, arith, ◌∷◌, body, Triple, then-Triple, body-Triple,
}
use composable_resource_oper.Api.{Result, ResourceState, ComposableResource}
use composable_resource_oper.Resource.Effects.{
  Env, World, Call, got_resource, got_node, requeue_on_err,
}
use composable_resource_oper.Resource.Handlers.{
  label, device_label, handle_none_state, leave_attaching, attach_device, refresh_plugins,
  go_online, handle_attaching_state, handle_online_state,
}
use composable_resource_oper.Resource.Detaching.{
  require_no_loads, taint_device, drain_device, remove_device, restart_plugins, require_invisible,
  untaint_device, forget_device, detach_device, handle_detaching_state, handle_deleting_state,
}
use composable_resource_oper.Resource.Adapter.{CdiProvider, new_adapter}
use composable_resource_oper.Resource.Reconcile.{
  perform_garbage_collection, dispatch, handle, reconcile_found, reconcile,
}

-- Every call succeeds; the provider gives the device `d`, known to it as `c`, and the GPU is
-- visible or not.
abbrev pub healthy : String → String → Bool → (String → String) → ComposableResource → Env
healthy d c visible getenv r = record {
  get_resource = λ _. Result.ok r;
  get_node = λ _ _. none;
  update = λ _ _. none;
  update_status = λ _ _. none;
  delete = λ _ _. none;
  add_resource = λ _ _. Result.ok (d, c);
  remove_resource = λ _ s. (none, s.status.error);
  check_resource = λ _ _. none;
  check_no_gpu_loads = λ _ _ _. none;
  check_gpu_visible = λ _ _. Result.ok visible;
  run_nvidia_smi = λ _ _. none;
  drain_gpu = λ _ _ _. none;
  restart_daemonset = λ _ _ _. none;
  has_device_taint = λ _ _. Result.ok false;
  create_device_taint = λ _ _. none;
  delete_device_taint = λ _ _. none;
  getenv = getenv;
}

module _ (d c : String) (visible : Bool) (getenv : String → String) where
  -- One reconciliation of the object as it was left by the one before.
  unfoldable pub round : ComposableResource → ComposableResource
  round r =
      (reconcile (healthy d c visible getenv r) (record { resource = r; log = [] })).1.resource

module _ (d c : String) (getenv : String → String) {p : CdiProvider}
    (adapter : new_adapter getenv ≡ Result.ok p) where
  round_none :
      (r : ComposableResource)
      → r.status.state ≡ ResourceState.empty
      → label device_label r ≡ ""
      → let s = round d c true getenv r in
        (s.status.state ≡ ResourceState.attaching)
        × (s.status.device_id ≡ r.status.device_id)
        × (s.meta.deletion_timestamp ≡ r.meta.deletion_timestamp)
  unfolding round reconcile reconcile_found perform_garbage_collection dispatch handle
      handle_none_state
  round_none r e l = ground arith

  round_attaching :
      (r : ComposableResource)
      → r.status.state ≡ ResourceState.attaching
      → r.meta.deletion_timestamp ≡ none
      → r.status.device_id ≡ ""
      → let s = round d c true getenv r in
        (s.status.state ≡ ResourceState.online) × (s.status.device_id ≡ d)
  unfolding round reconcile reconcile_found perform_garbage_collection dispatch handle
      handle_attaching_state leave_attaching attach_device refresh_plugins go_online
  round_attaching r e n i = ground arith

  round_online :
      (r : ComposableResource) {t : ℕ}
      → r.status.state ≡ ResourceState.online
      → r.meta.deletion_timestamp ≡ some t
      → (round d c false getenv r).status.state ≡ ResourceState.detaching
  unfolding round reconcile reconcile_found perform_garbage_collection dispatch handle
      handle_online_state
  round_online r e n = ground arith

  abbrev gone : ComposableResource → Env
  gone = healthy d c false getenv

  abbrev Landed : World → Type 0
  Landed w = (w.resource.status.state ≡ ResourceState.deleting) × (w.resource.status.device_id ≡ "")

  abbrev Anything : World → Type 0
  Anything _ = Unit {0}

  abbrev NoDevice : World → Type 0
  NoDevice w = w.resource.status.device_id ≡ ""

  module _ (q : ComposableResource) where
    require_no_loads-passes : Triple Anything (require_no_loads (gone q)) Anything Landed
    unfolding require_no_loads
    require_no_loads-passes = record { apply = λ w h. ground arith }

    taint_device-passes : Triple Anything (taint_device (gone q)) Anything Landed
    unfolding taint_device
    taint_device-passes = record { apply = λ w h. ground arith }

    drain_device-passes : Triple Anything (drain_device (gone q)) Anything Landed
    unfolding drain_device
    drain_device-passes = record { apply = λ w h. ground arith }

    remove_device-passes : Triple Anything (remove_device (gone q)) Anything Landed
    unfolding remove_device
    remove_device-passes = record { apply = λ w h. ground arith }

    restart_plugins-passes : Triple Anything (restart_plugins (gone q)) Anything Landed
    unfolding restart_plugins
    restart_plugins-passes = record { apply = λ w h. ground arith }

    require_invisible-passes : Triple Anything (require_invisible (gone q)) Anything Landed
    unfolding require_invisible
    require_invisible-passes = record { apply = λ w h. ground arith }

    untaint_device-passes : Triple Anything (untaint_device (gone q)) Anything Landed
    unfolding untaint_device
    untaint_device-passes = record { apply = λ w h. ground arith }

    forget_device-passes : Triple Anything (forget_device (gone q)) NoDevice Landed
    unfolding forget_device
    forget_device-passes = record { apply = λ w h. ground arith }

    detach_device-passes : Triple Anything (detach_device (gone q)) NoDevice Landed
    unfolding detach_device
    detach_device-passes = then-Triple require_no_loads-passes (
        then-Triple taint_device-passes (
          then-Triple drain_device-passes (
            then-Triple remove_device-passes (
              then-Triple restart_plugins-passes (
                then-Triple require_invisible-passes
                  (then-Triple untaint_device-passes forget_device-passes))))))

    handle_detaching-Landed : Triple Anything (handle_detaching_state (gone q)) Landed Landed
    unfolding handle_detaching_state
    handle_detaching-Landed = record {
      apply = λ w h. ground (arith, detach_device-passes.apply w tt);
    }

    dispatch-Landed :
        (w : World)
        → w.resource.status.state ≡ ResourceState.detaching
        → Landed (body (dispatch (gone q)) w).1
    unfolding dispatch handle requeue_on_err
    dispatch-Landed w e = ground (arith, body-Triple handle_detaching-Landed w tt)

  round-detaching :
      (r : ComposableResource)
      → r.status.state ≡ ResourceState.detaching
      → let s = round d c false getenv r in
        (s.status.state ≡ ResourceState.deleting) × (s.status.device_id ≡ "")
  unfolding round reconcile reconcile_found perform_garbage_collection
  round-detaching r e =
      let start : List Call = got_resource (Result.ok r) ∷ [] in
      ground (
        arith,
        dispatch-Landed r (record { resource = r; log = start }) e,
        dispatch-Landed r (record { resource = r; log = got_node r.spec.target_node none ∷ start })
            e,
      )

  round_deleting :
      (r : ComposableResource)
      → r.status.state ≡ ResourceState.deleting
      → let s = round d c false getenv r in (s.meta.has_finalizer ≡ false) × (s.status ≡ r.status)
  unfolding round reconcile reconcile_found perform_garbage_collection dispatch handle
      handle_deleting_state
  round_deleting r e = ground arith

  -- Where every call succeeds, the environment selects a provider and the check for visibility
  -- answers that the GPU is visible, two reconciliations bring a new resource that has no label for
  -- detachment, no device and no deletion pending to Online, with the device that the provider gave.
  pub new_resource_attaches :
      (r : ComposableResource)
      → r.status.state ≡ ResourceState.empty
      → label device_label r ≡ ""
      → r.meta.deletion_timestamp ≡ none
      → r.status.device_id ≡ ""
      → let s = round d c true getenv (round d c true getenv r) in
        (s.status.state ≡ ResourceState.online) × (s.status.device_id ≡ d)
  new_resource_attaches r e l n i =
      let (state, device, deletion) = round_none r e l in
      round_attaching (round d c true getenv r) state (deletion ∙ n) (device ∙ i)

  -- Where every call succeeds, the environment selects a provider and the GPU is no longer seen
  -- after the removal, three reconciliations bring an Online resource whose deletion is pending to
  -- Deleting, without its device and without the finalizer, so that it can go.
  pub online_resource_goes :
      (r : ComposableResource) {t : ℕ}
      → r.status.state ≡ ResourceState.online
      → r.meta.deletion_timestamp ≡ some t
      → let s = round d c false getenv (round d c false getenv (round d c false getenv r)) in
        (s.status.state ≡ ResourceState.deleting)
        × (s.status.device_id ≡ "")
        × (s.meta.has_finalizer ≡ false)
  online_resource_goes r e n =
      let (state, device) = round-detaching (round d c false getenv r) (round_online r e n) in
      let (finalizer, same) = round_deleting _ state in
      (ap (λ s. s.state) same ∙ state, ap (λ s. s.device_id) same ∙ device, finalizer)
