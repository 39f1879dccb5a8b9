-- ===== src/Main/Starting.antt =====
-- In which order the operator starts, and how it ends.
use composable_resource_oper.Common.{
  Bool, true, false, none, List, [], ◌∷◌, ◌≡◌, ◌≢◌, ◌⊎◌, refl, arith, Obeys, ◌!=◌, string_eq,
  if◌then◌else◌, body, Action, pure, Spec, then-Spec, body-Spec, skip,
}
use composable_resource_oper.Main.{
  Flags, options_of, Step, get_config, new_manager, new_clientset, set_up, add_healthz, add_readyz,
  start, composability_request, composable_resource, upstream_syncer, webhook, Env, exited, Exit,
  ended, register, main, perform,
}

module _ (env : Env) (flags : Flags) where
  abbrev pub Succeeded : Step → List Step → Type 0
  Succeeded s before = env.answer before s ≡ none

  -- The last step has failed, and no step before it.
  abbrev pub Stopped : List Step → Type 0
  Stopped [] = ⊥
  Stopped (s ∷ before) = (env.answer before s ≢ none) × Obeys Succeeded before

  -- The controllers' registrations and all before them, the newest first
  abbrev pub controllers : List Step
  controllers =
      set_up upstream_syncer
      ∷ set_up composable_resource
      ∷ set_up composability_request
      ∷ new_clientset
      ∷ new_manager (options_of flags)
      ∷ get_config
      ∷ []

  abbrev pub has_webhooks : Bool
  has_webhooks = env.getenv "ENABLE_WEBHOOKS" != "false"

  -- All that comes before the start
  abbrev pub ready : List Step
  ready =
      add_readyz
      ∷ add_healthz
      ∷ (if has_webhooks then set_up webhook ∷ controllers else controllers)

  -- The manager is started only last.
  abbrev pub StartsLast : Step → List Step → Type 0
  StartsLast start before = before ≡ ready
  StartsLast _ before = Unit {0}

  abbrev pub Served : Exit × List Step → Type 0
  Served (o, log) =
      Obeys StartsLast log
      × (((o ≡ ended) × Obeys Succeeded log × (log ≡ start ∷ ready))
          ⊎ ((o ≡ exited 1) × Stopped log))

  abbrev Done : List Step → List Step → Type 0
  Done steps log = (log ≡ steps) × Obeys Succeeded steps × Obeys StartsLast steps

  abbrev Ends : {A : Type 0} → List Step → Action (List Step) Exit A → List Step → Type 0
  Ends before m after = Spec (Done before) m (λ _. Done after) (λ o log. Served (o, log))

  perform-Ends :
      (s : Step) (before : List Step)
      → StartsLast s before
      → Ends before (perform env s) (s ∷ before)
  perform-Ends s before h = record { apply = λ log k. ground arith }

  webhook-Ends :
      (b : Bool)
      → Ends controllers
          (if b then perform env (set_up webhook) else skip)
          (if b then set_up webhook ∷ controllers else controllers)
  webhook-Ends true = perform-Ends (set_up webhook) controllers tt
  webhook-Ends false = record { apply = λ log k. k }

  abbrev made : List Step
  made = new_clientset ∷ new_manager (options_of flags) ∷ get_config ∷ []

  register-Ends :
      Ends made (register env) (if has_webhooks then set_up webhook ∷ controllers else controllers)
  unfolding register
  register-Ends = then-Spec (perform-Ends (set_up composability_request) made tt) (
      then-Spec (perform-Ends (set_up composable_resource) _ tt)
        (then-Spec (perform-Ends (set_up upstream_syncer) _ tt) (webhook-Ends has_webhooks)))

  ended-Served :
      Spec (Done (start ∷ ready)) (pure ended) (λ o log. Served (o, log)) (λ o log. Served (o, log))
  ended-Served = record { apply = λ log k. ground arith }

  -- The process ends in one of two ways. Either every step has succeeded, the start of the manager was
  -- the last, and before it the configuration was read, the manager and the client set were made, the
  -- three controllers were registered in their order, the webhook was registered unless
  -- ENABLE_WEBHOOKS is false, and the two checks were added; or the last step is the first that
  -- failed, and the process exits with 1. In both, the manager was not started before all that.
  pub main-Served : Served (body (main env flags) [])
  unfolding main
  main-Served =
      body-Spec
        (then-Spec (perform-Ends get_config [] tt) (
          then-Spec (perform-Ends (new_manager (options_of flags)) _ tt) (
            then-Spec (perform-Ends new_clientset _ tt) (
              then-Spec register-Ends (
                then-Spec (perform-Ends add_healthz _ tt) (
                  then-Spec (perform-Ends add_readyz _ tt)
                    (then-Spec (perform-Ends start ready refl) ended-Served)))))))
        [] (refl, tt, tt)
