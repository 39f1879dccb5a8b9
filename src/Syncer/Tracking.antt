-- ===== src/Syncer/Tracking.antt =====
-- What the syncer tracks, and when it has a device detached.
use composable_resource_oper.Common.{
  Distinct, String, ℕ, suc, ◌-◌, ◌<◌, true, false, Option, none, some, Option-cases, List, [], ◌∷◌,
  ◌≡◌, ◌≢◌, inl, inr, refl, arith, All, length, contains, string_eq, if◌then◌else◌,
}
use composable_resource_oper.Common.Dict.{
  Dict, lookup, has, has-insert, has-erase, lookup-insert, lookup-erase,
}
use composable_resource_oper.Api.{Error, Result, ComposableResource}
use composable_resource_oper.Resource.Handlers.{label, device_label}
use composable_resource_oper.Cdi.{DeviceInfo}
use composable_resource_oper.Syncer.{
  World, Env, grace_period, existing_ids, device_ids, detach_resource, create_detach_cr, visit,
  visit_all, retain, sync_upstream_data,
}

module _ (env : Env) (existing : List String) where
  -- A device that a resource holds is not tracked once it was visited.
  visit-held :
      (i : ℕ) (d : DeviceInfo) (w : World) (id : String)
      → contains existing id ≡ true
      → has id (visit env existing i d w).missing_devices ≡ true
      → (has id w.missing_devices ≡ true) × (id ≢ d.device_id)
  unfolding visit create_detach_cr
  visit-held i d w id h k = ground (
    arith,
    has-erase id d.device_id w.missing_devices,
    has-insert id d.device_id (env.clock i) w.missing_devices,
  )

  pub visit_all-held :
      (i : ℕ) (ds : List DeviceInfo) (w : World) (id : String)
      → contains existing id ≡ true
      → has id (visit_all env existing i ds w).missing_devices ≡ true
      → (has id w.missing_devices ≡ true) × (contains (device_ids ds) id ≡ false)
  unfolding visit_all
  visit_all-held i [] w id h k = ground arith
  visit_all-held i (d ∷ ds) w id h k =
      ground
        (arith, visit_all-held (suc i) ds (visit env existing i d w) id h k, visit-held i d w id h)

  pub visit-other :
      (i : ℕ) (d : DeviceInfo) (w : World) (id : String)
      → id ≢ d.device_id
      → lookup id (visit env existing i d w).missing_devices ≡ lookup id w.missing_devices
  unfolding visit create_detach_cr
  visit-other i d w id h = ground (
    arith,
    lookup-erase id d.device_id w.missing_devices,
    lookup-insert id d.device_id (env.clock i) w.missing_devices,
  )

pub has-retain :
    (upstream : List String) (id : String) (d : Dict ℕ)
    → has id (retain upstream d) ≡ (if contains upstream id then has id d else false)
unfolding retain
has-retain upstream id [] = ground arith
has-retain upstream id (_ ∷ d) = ground (arith, has-retain upstream id d)

pub lookup-retain :
    (upstream : List String) (id : String) (d : Dict ℕ)
    → lookup id (retain upstream d) ≡ (if contains upstream id then lookup id d else none)
unfolding retain
lookup-retain upstream id [] = ground arith
lookup-retain upstream id (_ ∷ d) = ground (arith, lookup-retain upstream id d)

-- After a synchronisation, each device that is tracked is one that the provider lists, and no
-- ComposableResource holds it.
sync_upstream_data-tracked :
    (env : Env) (w : World) (devices : List DeviceInfo) (resources : List ComposableResource)
    (id : String)
    → env.get_resources ≡ Result.ok devices
    → env.list ≡ Result.ok resources
    → has id (sync_upstream_data env w).1.missing_devices ≡ true
    → (contains (device_ids devices) id ≡ true) × (contains (existing_ids resources) id ≡ false)
unfolding sync_upstream_data
sync_upstream_data-tracked env w devices resources id h k t = ground (
  arith,
  has-retain (device_ids devices) id
      (visit_all env (existing_ids resources) 0 devices w).missing_devices,
  visit_all-held env (existing_ids resources) 0 devices w id,
)

module _ (env : Env) (existing : List String) (before : Dict ℕ) where
  -- The resource asks for the detachment of a device that no resource holds and that was tracked
  -- before, for longer than the grace period.
  unfoldable pub Due : ComposableResource → Type 0
  Due r =
      (t i : ℕ) × (lookup (label device_label r) before ≡ some t)
      × (grace_period < env.clock i - t)
      × (contains existing (label device_label r) ≡ false)

  abbrev pub AllDue : List (ComposableResource × Option Error) → Type 0
  AllDue = All (λ entry. Due entry.0)

  detach_resource-Due :
      (name : String) (d : DeviceInfo) (t i : ℕ)
      → lookup d.device_id before ≡ some t
      → grace_period < env.clock i - t
      → contains existing d.device_id ≡ false
      → Due (detach_resource name d)
  unfolding Due
  detach_resource-Due name d t i h g c = (t, i, ground arith, g, ground arith)

  visit-AllDue :
      (i : ℕ) (d : DeviceInfo) (w : World)
      → lookup d.device_id w.missing_devices ≡ lookup d.device_id before
      → AllDue w.log
      → AllDue (visit env existing i d w).log
  unfolding visit create_detach_cr
  visit-AllDue i d w h a = elim (Option-cases (lookup d.device_id w.missing_devices)) [
    | inl e ↦ ground (arith, a)
    | inr (t, e) ↦ ground (arith, a, detach_resource-Due (env.generated_name (length w.log)) d t i)
  ]

  visit_all-AllDue :
      (i : ℕ) (ds : List DeviceInfo) (w : World)
      → ((id : String)
          → contains (device_ids ds) id ≡ true
          → lookup id w.missing_devices ≡ lookup id before)
      → Distinct (device_ids ds)
      → AllDue w.log
      → AllDue (visit_all env existing i ds w).log
  unfolding visit_all
  visit_all-AllDue i [] w h u a = a
  visit_all-AllDue i (d ∷ ds) w h (fresh, u) a =
      visit_all-AllDue (suc i) ds (visit env existing i d w)
        (λ id k. ground (arith, visit-other env existing i d w id, h id)) u
        (visit-AllDue i d w (h d.device_id (ground arith)) a)

-- Where the provider lists no device twice, a synchronisation creates resources only for the
-- detachment of devices that no ComposableResource holds and that were tracked before it, for
-- longer than the grace period.
sync_upstream_data-AllDue :
    (env : Env) (missing : Dict ℕ) (devices : List DeviceInfo) (resources : List ComposableResource)
    → env.get_resources ≡ Result.ok devices
    → env.list ≡ Result.ok resources
    → Distinct (device_ids devices)
    → AllDue env
        (existing_ids resources)
        missing
        (sync_upstream_data env (record { missing_devices = missing; log = [] })).1.log
unfolding sync_upstream_data
sync_upstream_data-AllDue env missing devices resources h k u = ground (
  arith,
  visit_all-AllDue env (existing_ids resources) missing 0 devices
      (record { missing_devices = missing; log = [] }) (λ _ _. refl) u tt,
)
