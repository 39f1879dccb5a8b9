-- ===== src/Syncer/Turning.antt =====
-- What a round does to the timer of one device.
use composable_resource_oper.Common.{
  String, ℕ, suc, ◌-◌, ◌<◌, ◌≤◌, true, false, Option, none, some, Option-cases, List, [], ◌∷◌, ◌≡◌,
  inl, inr, Bool-cases, sym, subst, refl, arith, Distinct, length, contains, ltb, string_eq,
  string_dec, ◌++◌, ◌==◌, ◌∙◌, ◌≢◌, ◌⊎◌, true, if◌then◌else◌,
}
use composable_resource_oper.Common.Dict.{lookup, lookup-insert, lookup-erase}
use composable_resource_oper.Api.{Error, ComposableResource}
use composable_resource_oper.Resource.Handlers.{label, device_label}
use composable_resource_oper.Cdi.{DeviceInfo}
use composable_resource_oper.Syncer.{
  World, Env, grace_period, device_ids, detach_resource, create_detach_cr, visit, visit_all,
}
use composable_resource_oper.Syncer.Tracking.{visit-other}
use composable_resource_oper.Syncer.History.{is_missing}

-- The answers to the creations that ask for the detachment of a device, the newest first
abbrev pub asked : String → List (ComposableResource × Option Error) → List (Option Error)
asked id [] = []
asked id ((r, e) ∷ log) =
    let rest = asked id log in if label device_label r == id then e ∷ rest else rest

-- What the API server answers to such a creation
abbrev pub Answers : Env → String → Option Error → Type 0
Answers env id o =
    (log : List (ComposableResource × Option Error)) × (name : String) × (d : DeviceInfo)
    × (d.device_id ≡ id)
    × (env.create log (detach_resource name d) ≡ o)

-- What a round does to the timer of a device, none where it is not running and else its start, and
-- which creations it asks for meanwhile: one, and only where the timer has run out
pub data Turns (env : Env) (id : String) (creations : List (Option Error)) (t u : Option ℕ)
    : Type 0 where
  waits : is_missing id env ≡ none → creations ≡ [] → u ≡ t → Turns env id creations t u
  stops : is_missing id env ≡ some false → creations ≡ [] → u ≡ none → Turns env id creations t u
  starts :
      (i : ℕ)
      → is_missing id env ≡ some true
      → creations ≡ []
      → t ≡ none
      → u ≡ some (env.clock i)
      → Turns env id creations t u
  runs :
      (since i : ℕ)
      → is_missing id env ≡ some true
      → creations ≡ []
      → t ≡ some since
      → u ≡ t
      → env.clock i - since ≤ grace_period
      → Turns env id creations t u
  is_refused :
      (since i : ℕ) (e : Error)
      → is_missing id env ≡ some true
      → creations ≡ some e ∷ []
      → Answers env id (some e)
      → t ≡ some since
      → u ≡ t
      → grace_period < env.clock i - since
      → Turns env id creations t u
  fires :
      (since i : ℕ)
      → is_missing id env ≡ some true
      → creations ≡ none ∷ []
      → Answers env id none
      → t ≡ some since
      → grace_period < env.clock i - since
      → u ≡ none
      → Turns env id creations t u

-- A step from a world to another, as it is for the device
unfoldable pub Moves : Env → String → World → World → Type 0
Moves env id w w' =
    (creations : List (Option Error)) × (asked id w'.log ≡ creations ++ asked id w.log)
    × Turns env id creations (lookup id w.missing_devices) (lookup id w'.missing_devices)

detach_resource-label :
    (name : String) (d : DeviceInfo) → label device_label (detach_resource name d) ≡ d.device_id
unfolding string_dec
detach_resource-label name d = refl

asked-detach_resource :
    (id name : String) (d : DeviceInfo) (o : Option Error)
    (log : List (ComposableResource × Option Error))
    → asked id ((detach_resource name d, o) ∷ log)
      ≡ (if d.device_id == id then o ∷ asked id log else asked id log)
asked-detach_resource id name d o log = ground (arith, detach_resource-label name d)

module _ (env : Env) (existing : List String) where
  visit-Moves :
      (i : ℕ) (d : DeviceInfo) (w : World) (id : String)
      → d.device_id ≡ id
      → is_missing id env ≡ some true
      → contains existing id ≡ false
      → Moves env id w (visit env existing i d w)
  unfolding Moves visit create_detach_cr
  visit-Moves i d w id p m c = elim (Option-cases (lookup id w.missing_devices)) [
    | inl n ↦ (
      [],
      ground (arith, n, p, c),
      starts i m refl n
          (ground (arith, lookup-insert id d.device_id (env.clock i) w.missing_devices)),
    )
    | inr (t, s) ↦ elim (Bool-cases (ltb grace_period (env.clock i - t))) [
      | inr g ↦ ([], ground (arith, s, p, c, g), runs t i m refl s (ground arith) (ground arith))
      | inl g ↦
          let name = env.generated_name (length w.log) in
          elim (Option-cases (env.create w.log (detach_resource name d))) [
            | inl o ↦ (
              none ∷ [],
              ground (arith, s, p, c, g, o, asked-detach_resource id name d none w.log),
              fires t i m refl (w.log, name, d, p, o) s (ground arith)
                  (ground (arith, lookup-erase id d.device_id w.missing_devices)),
            )
            | inr (e, o) ↦ (
              some e ∷ [],
              ground (arith, s, p, c, g, o, asked-detach_resource id name d (some e) w.log),
              is_refused t i e m refl (w.log, name, d, p, o) s (ground arith) (ground arith),
            )
          ]
    ]
  ]

  -- The visit of another device, or of one that a resource holds, asks for nothing for this one.
  visit-silent :
      (i : ℕ) (d : DeviceInfo) (w : World) (id : String)
      → (d.device_id ≢ id) ⊎ (contains existing id ≡ true)
      → asked id (visit env existing i d w).log ≡ asked id w.log
  unfolding visit create_detach_cr
  visit-silent i d w id h =
      let name = env.generated_name (length w.log) in
      ground (
        arith,
        h,
        asked-detach_resource id name d (env.create w.log (detach_resource name d)) w.log,
      )

  pub visit_all-silent :
      (i : ℕ) (ds : List DeviceInfo) (w : World) (id : String)
      → (contains (device_ids ds) id ≡ false) ⊎ (contains existing id ≡ true)
      → asked id (visit_all env existing i ds w).log ≡ asked id w.log
  unfolding visit_all
  visit_all-silent i [] w id h = refl
  visit_all-silent i (d ∷ ds) w id h =
      ground
        (arith, h, visit_all-silent (suc i) ds (visit env existing i d w) id, visit-silent i d w id)

  visit_all-absent :
      (i : ℕ) (ds : List DeviceInfo) (w : World) (id : String)
      → contains (device_ids ds) id ≡ false
      → lookup id (visit_all env existing i ds w).missing_devices ≡ lookup id w.missing_devices
  unfolding visit_all
  visit_all-absent i [] w id h = refl
  visit_all-absent i (d ∷ ds) w id h = ground (
    arith,
    visit_all-absent (suc i) ds (visit env existing i d w) id,
    visit-other env existing i d w id,
  )

  pub visit_all-Moves :
      (i : ℕ) (ds : List DeviceInfo) (w : World) (id : String)
      → Distinct (device_ids ds)
      → contains (device_ids ds) id ≡ true
      → is_missing id env ≡ some true
      → contains existing id ≡ false
      → Moves env id w (visit_all env existing i ds w)
  unfolding visit_all Moves
  visit_all-Moves i [] w id u h m c = absurd (ground arith)
  visit_all-Moves i (d ∷ ds) w id (f, u) h m c =
      let v = visit env existing i d w in
      elim (string_dec d.device_id id) [
        | yes p ↦
            let (creations, a, turn) = visit-Moves i d w id p m c in
            let gone : contains (device_ids ds) id ≡ false = ground (arith, f, p) in
            (
              creations,
              visit_all-silent (suc i) ds v id (inl gone) ∙ a,
              subst (Turns env id creations (lookup id w.missing_devices))
                  (sym (visit_all-absent (suc i) ds v id gone)) turn,
            )
        | no p ↦
            let (creations, a, turn) = visit_all-Moves (suc i) ds v id u (ground arith) m c in
            (
              creations,
              ground (arith, a, visit-silent i d w id (inl p)),
              subst
                  (λ t.
                    Turns env id creations t
                      (lookup id (visit_all env existing (suc i) ds v).missing_devices))
                  (visit-other env existing i d w id (ground arith)) turn,
            )
      ]
