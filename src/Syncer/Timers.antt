-- ===== src/Syncer/Timers.antt =====
-- What the synchronisations are for one device: a timer.
use composable_resource_oper.Common.{
  String, ℕ, false, not, Option, none, some, Option-cases, List, [], ◌∷◌, ◌++◌, ◌≡◌, inl, inr,
  Bool-cases, subst, refl, arith, All, Distinct, contains, string_eq, ◌&&◌,
}
use composable_resource_oper.Common.Dict.{lookup-has, lookup}
use composable_resource_oper.Api.{Error, ComposableResource}
use composable_resource_oper.Cdi.{DeviceInfo}
use composable_resource_oper.Syncer.{World, Env, existing_ids, device_ids}
use composable_resource_oper.Syncer.Tracking.{visit_all-held, lookup-retain}
use composable_resource_oper.Syncer.Ticks.{Signal, set_up}
use composable_resource_oper.Syncer.Runs.{listing, rounds, visited, finished, set_up_keeps}
use composable_resource_oper.Syncer.History.{is_missing}
use composable_resource_oper.Syncer.Turning.{
  asked, Turns, waits, stops, Moves, visit_all-silent, visit_all-Moves,
}

module _ (env : Env) (w : World) (id : String) (devices : List DeviceInfo)
    (resources : List ComposableResource) (found : listing env ≡ some (devices, resources)) where
  is_missing_lem :
      is_missing id env
      ≡ some (contains (device_ids devices) id && not (contains (existing_ids resources) id))
  unfolding is_missing
  is_missing_lem = ground (arith, found)

  -- A device that a resource holds, or that is not listed, is not tracked after the round.
  finished-untracked :
      (contains (device_ids devices) id && not (contains (existing_ids resources) id)) ≡ false
      → lookup id (finished env devices resources w).missing_devices ≡ none
  finished-untracked h =
      elim (Option-cases (lookup id (finished env devices resources w).missing_devices)) [
        | inl n ↦ n
        | inr (t, s) ↦ absurd (
            ground (
              arith,
              lookup-retain (device_ids devices) id
                  (visited env devices resources w).missing_devices,
              visit_all-held env (existing_ids resources) 0 devices w id,
              lookup-has id t (visited env devices resources w).missing_devices,
            ))
      ]

  finished-Moves : Distinct (device_ids devices) → Moves env id w (finished env devices resources w)
  unfolding Moves
  finished-Moves u =
      elim (Bool-cases
        (contains (device_ids devices) id && not (contains (existing_ids resources) id))) [
          | inr h ↦ (
            [],
            visit_all-silent env (existing_ids resources) 0 devices w id (ground (arith, h)),
            stops (ground (arith, is_missing_lem, h)) refl (finished-untracked h),
          )
          | inl h ↦
              let (creations, a, turn) =
                visit_all-Moves env (existing_ids resources) 0 devices w id u (ground (arith, h))
                  (ground (arith, is_missing_lem, h)) (ground (arith, h)) in
              (
                creations,
                a,
                subst (Turns env id creations (lookup id w.missing_devices))
                    (ground (
                      arith,
                      h,
                      lookup-retain (device_ids devices) id
                          (visited env devices resources w).missing_devices,
                    ))
                    turn,
              )
        ]

-- The provider lists no device twice.
unfoldable pub ListsOnce : Env → Type 0
unfolding listing
ListsOnce env = elim (listing env) [
  | none ↦ Unit {0}
  | some (devices, _) ↦ Distinct (device_ids devices)
]

once-Distinct :
    (env : Env) (devices : List DeviceInfo) (resources : List ComposableResource)
    → listing env ≡ some (devices, resources)
    → ListsOnce env
    → Distinct (device_ids devices)
unfolding ListsOnce
once-Distinct env devices resources h u =
    subst (λ l. elim l [ none ↦ Unit {0} | some (ds, _) ↦ Distinct (device_ids ds) ]) h u

-- A run of the timer through these rounds, the newest first: all creations that it asked for, and
-- where it stands
unfoldable pub Timed : String → List Env → List (Option Error) → Option ℕ → Type 0
Timed id [] answers u = (answers ≡ []) × (u ≡ none)
Timed id (env ∷ past) answers u =
    (creations before : List (Option Error)) × (t : Option ℕ) × Timed id past before t
    × (answers ≡ creations ++ before)
    × Turns env id creations t u

abbrev Shown : String → List Env → World → Type 0
Shown id past w = All ListsOnce past → Timed id past (asked id w.log) (lookup id w.missing_devices)

module _ (id : String) (env : Env) (past : List Env) (w : World) where
  waiting-Shown : listing env ≡ none → Shown id past w → Shown id (env ∷ past) w
  unfolding Timed is_missing
  waiting-Shown n p (h, hs) =
      ([], asked id w.log, lookup id w.missing_devices, p hs, refl, waits (ground arith) refl refl)

  finished-Shown :
      (devices : List DeviceInfo) (resources : List ComposableResource)
      → listing env ≡ some (devices, resources)
      → Shown id past w
      → Shown id (env ∷ past) (finished env devices resources w)
  unfolding Timed Moves
  finished-Shown devices resources f p (h, hs) =
      let (creations, a, turn) =
        finished-Moves env w id devices resources f (once-Distinct env devices resources f h) in
      (creations, asked id w.log, lookup id w.missing_devices, p hs, a, turn)

-- Where the provider lists no device twice in any round, the goroutine is one timer for each device:
-- after any signals, what its map tells of a device, and the creations that it asked for to have the
-- device detached, with their answers, are those of a run of the timer through the rounds. The timer
-- starts when the device is found missing; runs on while a round fails and while the device stays
-- missing within the grace period; and stops when the device is found held or not listed. When the
-- device is missing and the grace period is over, and only then, one creation is asked for: the timer
-- stops where it succeeds, and runs on where it is refused.
pub set_up-Timed :
    (ss : List Signal) (id : String)
    → All ListsOnce (rounds ss [])
    → Timed id
        (rounds ss [])
        (asked id (set_up none ss).1.log)
        (lookup id (set_up none ss).1.missing_devices)
unfolding Timed
set_up-Timed ss id =
    set_up_keeps (Shown id) (waiting-Shown id) (finished-Shown id) ss (λ _. (refl, refl))
