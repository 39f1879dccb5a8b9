-- ===== src/Syncer/History.antt =====
-- The synchronisations of a whole run: why a detachment was asked for.
use composable_resource_oper.Common.{
  String, ℕ, suc, ◌-◌, ◌<◌, Bool, true, false, not, Option, none, some, Option-cases, List, [], ◌∷◌,
  ◌≡◌, ◌≢◌, ◌⊎◌, inl, inr, refl, arith, All, length, contains, string_eq, string_dec, ◌&&◌,
}
use composable_resource_oper.Common.Dict.{lookup, lookup-has, lookup-insert, lookup-erase}
use composable_resource_oper.Api.{Error, ComposableResource}
use composable_resource_oper.Resource.Handlers.{label, device_label}
use composable_resource_oper.Cdi.{DeviceInfo}
use composable_resource_oper.Syncer.{
  World, Env, grace_period, existing_ids, device_ids, detach_resource, create_detach_cr, visit,
  visit_all,
}
use composable_resource_oper.Syncer.Tracking.{visit_all-held, lookup-retain}
use composable_resource_oper.Syncer.Ticks.{Signal, set_up}
use composable_resource_oper.Syncer.Runs.{listing, rounds, visited, finished, set_up_keeps}

-- Whether a round finds that the provider lists a device which no resource holds; none when a list
-- cannot be had
unfoldable pub is_missing : String → Env → Option Bool
unfolding listing
is_missing id env = elim (listing env) [
  | none ↦ none
  | some (devices, resources) ↦
      some (contains (device_ids devices) id && not (contains (existing_ids resources) id))
]

-- A time that the round's clock gave
unfoldable pub Reads : Env → ℕ → Type 0
Reads env t = (i : ℕ) × (env.clock i ≡ t)

env_clock-Reads : (env : Env) (i : ℕ) → Reads env (env.clock i)
unfolding Reads
env_clock-Reads env i = (i, refl)

-- In these rounds, the newest first, the device was seen missing at a time, and since then no
-- round has found anything else.
unfoldable pub MissingSince : String → ℕ → List Env → Type 0
MissingSince id t [] = ⊥
MissingSince id t (env ∷ past) =
    ((is_missing id env ≡ some true) × Reads env t)
    ⊎ ((is_missing id env ≢ some false) × MissingSince id t past)

-- In one of these rounds the device was missing, and had been for longer than the grace period.
unfoldable pub Overdue : String → List Env → Type 0
Overdue id [] = ⊥
Overdue id (env ∷ past) =
    ((is_missing id env ≡ some true)
      × ((t i : ℕ) × (grace_period < env.clock i - t) × MissingSince id t (env ∷ past)))
    ⊎ Overdue id past

abbrev pub AllOverdue : List Env → List (ComposableResource × Option Error) → Type 0
AllOverdue past = All (λ entry. Overdue (label device_label entry.0) past)

abbrev pub Kept : List Env → World → Type 0
Kept past w =
    ((id : String) (t : ℕ) → lookup id w.missing_devices ≡ some t → MissingSince id t past)
    × AllOverdue past w.log

later :
    (env : Env) (past : List Env) (log : List (ComposableResource × Option Error))
    → AllOverdue past log
    → AllOverdue (env ∷ past) log
unfolding Overdue
later env past [] a = tt
later env past (_ ∷ log) (o, a) = (inr o, later env past log a)

module _ (env : Env) (past : List Env) (devices : List DeviceInfo)
    (resources : List ComposableResource) (found : listing env ≡ some (devices, resources)) where
  -- Within a round: a device that is tracked was missing before it, or is found missing by it.
  abbrev Origin : String → ℕ → Type 0
  Origin id t =
      MissingSince id t past ⊎ ((contains (existing_ids resources) id ≡ false) × Reads env t)

  abbrev AllFound : World → Type 0
  AllFound w = (id : String) (t : ℕ) → lookup id w.missing_devices ≡ some t → Origin id t

  missing :
      (id : String)
      → contains (device_ids devices) id ≡ true
      → contains (existing_ids resources) id ≡ false
      → is_missing id env ≡ some true
  unfolding is_missing
  missing id c n = ground (arith, found)

  Origin-MissingSince :
      (id : String) (t : ℕ)
      → contains (device_ids devices) id ≡ true
      → contains (existing_ids resources) id ≡ false
      → Origin id t
      → MissingSince id t (env ∷ past)
  unfolding MissingSince
  Origin-MissingSince id t c n (inl m) = inr (ground (arith, missing id c n), m)
  Origin-MissingSince id t c n (inr (_, e)) = inl (missing id c n, e)

  visit-AllFound :
      (i : ℕ) (d : DeviceInfo) (w : World)
      → AllFound w
      → AllFound (visit env (existing_ids resources) i d w)
  unfolding visit create_detach_cr
  visit-AllFound i d w a id t h = ground (
    arith,
    a id t,
    env_clock-Reads env i,
    lookup-erase id d.device_id w.missing_devices,
    lookup-insert id d.device_id (env.clock i) w.missing_devices,
  )

  detach_resource-Overdue :
      (name : String) (d : DeviceInfo) (t i : ℕ)
      → contains (device_ids devices) d.device_id ≡ true
      → Origin d.device_id t
      → contains (existing_ids resources) d.device_id ≡ false
      → grace_period < env.clock i - t
      → Overdue (label device_label (detach_resource name d)) (env ∷ past)
  unfolding Overdue string_dec
  detach_resource-Overdue name d t i c o n g =
      inl (missing d.device_id c n, (t, i, g, Origin-MissingSince d.device_id t c n o))

  visit-AllOverdue :
      (i : ℕ) (d : DeviceInfo) (w : World)
      → contains (device_ids devices) d.device_id ≡ true
      → AllFound w
      → AllOverdue (env ∷ past) w.log
      → AllOverdue (env ∷ past) (visit env (existing_ids resources) i d w).log
  unfolding visit create_detach_cr
  visit-AllOverdue i d w c a o = elim (Option-cases (lookup d.device_id w.missing_devices)) [
    | inl e ↦ ground (arith, o)
    | inr (t, e) ↦ ground (
      arith,
      o,
      detach_resource-Overdue (env.generated_name (length w.log)) d t i c (a d.device_id t e),
    )
  ]

  visit_all-Kept :
      (i : ℕ) (ds : List DeviceInfo) (w : World)
      → All (λ d. contains (device_ids devices) d.device_id ≡ true) ds
      → AllFound w
      → AllOverdue (env ∷ past) w.log
      → AllFound (visit_all env (existing_ids resources) i ds w)
        × AllOverdue (env ∷ past) (visit_all env (existing_ids resources) i ds w).log
  unfolding visit_all
  visit_all-Kept i [] w _ a o = (a, o)
  visit_all-Kept i (d ∷ ds) w (c, cs) a o =
      visit_all-Kept (suc i) ds (visit env (existing_ids resources) i d w) cs
        (visit-AllFound i d w a) (visit-AllOverdue i d w c a o)

own_ids :
    (devices : List DeviceInfo)
    → (ds : List DeviceInfo)
    → ((id : String) → contains (device_ids ds) id ≡ true → contains (device_ids devices) id ≡ true)
    → All (λ d. contains (device_ids devices) d.device_id ≡ true) ds
own_ids devices [] h = tt
own_ids devices (d ∷ ds) h =
    (h d.device_id (ground arith), own_ids devices ds (λ id k. h id (ground arith)))

module _ (env : Env) (past : List Env) (w : World) where
  waiting-Kept : listing env ≡ none → Kept past w → Kept (env ∷ past) w
  unfolding MissingSince is_missing
  waiting-Kept h (a, o) = ((λ id t k. inr (ground arith, a id t k)), later env past w.log o)

  module _ (devices : List DeviceInfo) (resources : List ComposableResource) where
    held_lost :
        (id : String) (t : ℕ)
        → lookup id (finished env devices resources w).missing_devices ≡ some t
        → (contains (device_ids devices) id ≡ true)
          × (contains (existing_ids resources) id ≡ false)
          × (lookup id (visited env devices resources w).missing_devices ≡ some t)
    held_lost id t h = ground (
      arith,
      lookup-retain (device_ids devices) id (visited env devices resources w).missing_devices,
      visit_all-held env (existing_ids resources) 0 devices w id,
      lookup-has id t (visited env devices resources w).missing_devices,
    )

    finished-Kept :
        listing env ≡ some (devices, resources)
        → Kept past w
        → Kept (env ∷ past) (finished env devices resources w)
    finished-Kept h (a, o) =
        let v =
          visit_all-Kept env past devices resources h 0 devices w
            (own_ids devices devices (λ _ k. k)) (λ id t k. inl (a id t k))
            (later env past w.log o) in
        (
          (λ id t k.
              let l = held_lost id t k in
              Origin-MissingSince env past devices resources h id t l.0 l.1 (v.0 id t l.2)),
          v.1,
        )

-- Whatever signals the goroutine receives, and whatever its rounds find: each resource that it
-- creates asks for the detachment of a device that was missing in that round, as listed by the
-- provider and held by no resource; that was missing in an earlier round, or earlier in that
-- round, more than the grace period before; and that no successful round in between found held or
-- not listed.
pub set_up-AllOverdue :
    (e : Option Error) (ss : List Signal) → AllOverdue (rounds ss []) (set_up e ss).1.log
unfolding set_up
set_up-AllOverdue none ss =
    (set_up_keeps Kept waiting-Kept finished-Kept ss ((λ id t h. ground arith), tt)).1
set_up-AllOverdue (some e) ss = tt
