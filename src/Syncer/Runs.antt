-- ===== src/Syncer/Runs.antt =====
-- Runs of the goroutine, and induction over their rounds.
use composable_resource_oper.Common.{
  Option, none, some, Option-cases, List, [], ◌∷◌, ◌≡◌, inl, inr, sym, subst, arith,
}
use composable_resource_oper.Api.{Result, ComposableResource}
use composable_resource_oper.Cdi.{DeviceInfo}
use composable_resource_oper.Syncer.{
  World, Env, existing_ids, device_ids, visit_all, retain, sync_upstream_data,
}
use composable_resource_oper.Syncer.Ticks.{Signal, tick, done, serve, fresh, set_up}

-- The two lists that a round works on; none when one of them cannot be had
unfoldable pub listing : Env → Option (List DeviceInfo × List ComposableResource)
listing env = elim env.get_resources [
  | Result.err e ↦ none
  | Result.ok devices ↦ elim env.list [
    | Result.err e ↦ none
    | Result.ok resources ↦ some (devices, resources)
  ]
]

-- The rounds of a run, the newest first, before those of an earlier run
abbrev pub rounds : List Signal → List Env → List Env
rounds [] past = past
rounds (done ∷ ss) past = past
rounds (tick env ∷ ss) past = rounds ss (env ∷ past)

module _ (env : Env) (devices : List DeviceInfo) (resources : List ComposableResource) where
  abbrev pub visited : World → World
  visited w = visit_all env (existing_ids resources) 0 devices w

  abbrev pub finished : World → World
  finished w = record (visited w) {
    missing_devices = retain (device_ids devices) (visited w).missing_devices;
  }

  finished_lem :
      (w : World)
      → listing env ≡ some (devices, resources)
      → (sync_upstream_data env w).1 ≡ finished w
  unfolding sync_upstream_data listing
  finished_lem w h = ground arith

failed_lem : (env : Env) (w : World) → listing env ≡ none → (sync_upstream_data env w).1 ≡ w
unfolding sync_upstream_data listing
failed_lem env w h = ground arith

-- A property of the past rounds and the world that each round keeps holds after a run.
module _ (P : List Env → World → Type 0)
    (waits : (env : Env) (past : List Env) (w : World)
      → listing env ≡ none
      → P past w
      → P (env ∷ past) w)
    (finishes : (env : Env) (past : List Env) (w : World) (devices : List DeviceInfo)
        (resources : List ComposableResource)
      → listing env ≡ some (devices, resources)
      → P past w
      → P (env ∷ past) (finished env devices resources w)) where
  round_keeps :
      (env : Env) (past : List Env) (w : World)
      → P past w
      → P (env ∷ past) (sync_upstream_data env w).1
  round_keeps env past w p = elim (Option-cases (listing env)) [
    | inl h ↦ along (failed_lem env w h) (waits env past w h p)
    | inr ((devices, resources), h) ↦
        along (finished_lem env devices resources w h) (finishes env past w devices resources h p)
  ]
    where
      along :
          {w' : World}
          → (sync_upstream_data env w).1 ≡ w'
          → P (env ∷ past) w'
          → P (env ∷ past) (sync_upstream_data env w).1
      along e = subst (P (env ∷ past)) (sym e)

  serve_keeps :
      (ss : List Signal) (past : List Env) (w : World) → P past w → P (rounds ss past) (serve ss w)
  unfolding serve
  serve_keeps [] past w p = p
  serve_keeps (done ∷ ss) past w p = p
  serve_keeps (tick env ∷ ss) past w p =
      serve_keeps ss (env ∷ past) (sync_upstream_data env w).1 (round_keeps env past w p)

  pub set_up_keeps : (ss : List Signal) → P [] fresh → P (rounds ss []) (set_up none ss).1
  unfolding set_up
  set_up_keeps ss p = serve_keeps ss [] fresh p
