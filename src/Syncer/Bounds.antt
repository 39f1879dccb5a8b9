-- ===== src/Syncer/Bounds.antt =====
-- How much the syncer tracks.
use composable_resource_oper.Common.{
  String, ℕ, suc, ◌≤◌, true, Option, none, some, List, [], ◌∷◌, ◌≡◌, refl, arith, length, contains,
  string_eq,
}
use composable_resource_oper.Common.Dict.{
  Dict, has, NodupKeys, insert-NodupKeys, erase-NodupKeys, length-NodupKeys,
}
use composable_resource_oper.Api.{Error, ComposableResource}
use composable_resource_oper.Cdi.{DeviceInfo}
use composable_resource_oper.Syncer.{
  World, Env, existing_ids, device_ids, create_detach_cr, visit, visit_all, retain,
}
use composable_resource_oper.Syncer.Tracking.{has-retain}
use composable_resource_oper.Syncer.Ticks.{Signal, set_up}
use composable_resource_oper.Syncer.Runs.{listing, rounds, visited, finished, set_up_keeps}

-- What the provider listed in the last of these rounds that had both lists
unfoldable pub last_listed : List Env → List DeviceInfo
unfolding listing
last_listed [] = []
last_listed (env ∷ past) =
    let rest = last_listed past in elim (listing env) [ none ↦ rest | some (devices, _) ↦ devices ]

-- Each device is tracked once, and was listed in that round.
abbrev Tracked : List Env → World → Type 0
Tracked past w =
    NodupKeys w.missing_devices
    × ((id : String)
        → has id w.missing_devices ≡ true
        → contains (device_ids (last_listed past)) id ≡ true)

retain-NodupKeys :
    (upstream : List String) (d : Dict ℕ) → NodupKeys d → NodupKeys (retain upstream d)
unfolding retain
retain-NodupKeys upstream [] u = tt
retain-NodupKeys upstream ((id, t) ∷ d) (n, u) =
    ground (arith, retain-NodupKeys upstream d u, has-retain upstream id d)

module _ (env : Env) (existing : List String) where
  visit-NodupKeys :
      (i : ℕ) (d : DeviceInfo) (w : World)
      → NodupKeys w.missing_devices
      → NodupKeys (visit env existing i d w).missing_devices
  unfolding visit create_detach_cr
  visit-NodupKeys i d w u = ground (
    arith,
    erase-NodupKeys d.device_id w.missing_devices u,
    insert-NodupKeys d.device_id (env.clock i) w.missing_devices u,
  )

  visit_all-NodupKeys :
      (i : ℕ) (ds : List DeviceInfo) (w : World)
      → NodupKeys w.missing_devices
      → NodupKeys (visit_all env existing i ds w).missing_devices
  unfolding visit_all
  visit_all-NodupKeys i [] w u = u
  visit_all-NodupKeys i (d ∷ ds) w u =
      visit_all-NodupKeys (suc i) ds (visit env existing i d w) (visit-NodupKeys i d w u)

module _ (env : Env) (past : List Env) (w : World) where
  waiting-Tracked : listing env ≡ none → Tracked past w → Tracked (env ∷ past) w
  unfolding last_listed
  waiting-Tracked h (u, c) = (u, λ id k. ground (arith, c id k))

  finished-Tracked :
      (devices : List DeviceInfo) (resources : List ComposableResource)
      → listing env ≡ some (devices, resources)
      → Tracked past w
      → Tracked (env ∷ past) (finished env devices resources w)
  unfolding last_listed
  finished-Tracked devices resources h (u, c) =
      let v = visited env devices resources w in
      (
        retain-NodupKeys (device_ids devices) v.missing_devices
            (visit_all-NodupKeys env (existing_ids resources) 0 devices w u),
        λ id k. ground (arith, has-retain (device_ids devices) id v.missing_devices),
      )

length-device_ids : (ds : List DeviceInfo) → length (device_ids ds) ≡ length ds
length-device_ids [] = refl
length-device_ids (d ∷ ds) = ground (arith, length-device_ids ds)

-- At any time the goroutine tracks no more devices than the provider listed in the last round that
-- had both lists.
pub set_up_bounded :
    (e : Option Error) (ss : List Signal)
    → length (set_up e ss).1.missing_devices ≤ length (last_listed (rounds ss []))
unfolding set_up
set_up_bounded none ss =
    let p = set_up_keeps Tracked waiting-Tracked finished-Tracked ss (tt, λ id h. ground arith) in
    let ids = device_ids (last_listed (rounds ss [])) in
    omega (
      arith,
      length-NodupKeys ids (set_up none ss).1.missing_devices p.0 p.1,
      length-device_ids (last_listed (rounds ss [])),
    )
set_up_bounded (some e) ss = omega arith
