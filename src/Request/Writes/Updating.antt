-- ===== src/Request/Writes/Updating.antt =====
-- The writes of `handleUpdatingState` and `handleRunningState`.
use composable_resource_oper.Common.{
  Bool-cases, String, true, false, Option, none, some, List, [], ◌∷◌, ◌≡◌, ◌≢◌, ◌⊎◌, inl, inr, refl,
  arith, contains, string_eq, ◌==◌, Triple, then-Triple, bind-Triple, get-Triple, if-Triple, pure,
  ◌>>◌,
}
use composable_resource_oper.Common.Dict.{has}
use composable_resource_oper.Api.{
  Error, Result, RequestState, ComposableResource, ComposabilityRequest, details_eq,
}
use composable_resource_oper.Request.Effects.{
  Env, World, Ending, edit, set_state, set_error, accept_spec, after, try, try_ok, requeue_on_err,
  finish_with_status, deleted, created,
}
use composable_resource_oper.Request.Allocation.{Resources}
use composable_resource_oper.Request.Handlers.{
  clean_when_deleted, delete_resource, delete_redundant, new_resource, create_resource,
  create_missing, all_online, bring_up, handle_updating_state, settle, handle_running_state,
}
use composable_resource_oper.Request.Policy.{Permitted}
use composable_resource_oper.Request.Writes.Conditions.{Good, Start, Live}

module _ (env : Env) (old : ComposabilityRequest) where
  abbrev Updating : World → Type 0
  Updating w = Live env old RequestState.updating w × (old.status.scalar_resource ≡ old.resource)

  try-Updating : (e : Option Error) → Triple Updating (try env e) Updating (Good env old)
  unfolding try requeue_on_err
  try-Updating none = record { apply = λ w h. h }
  try-Updating (some e) = record { apply = λ w h. ground arith }

  try_ok-Updating :
      {A : Type 0} (x : Result A) → Triple Updating (try_ok env x) Updating (Good env old)
  unfolding try_ok requeue_on_err
  try_ok-Updating (Result.ok a) = record { apply = λ w h. h }
  try_ok-Updating (Result.err e) = record { apply = λ w h. ground arith }

  delete_resource-Good :
      (r : ComposableResource)
      → has r.meta.name old.status.resources ≡ false
      → Triple Updating (delete_resource env r) Updating (Good env old)
  delete_resource-Good r absent = record {
    apply = λ w h.
        let e = env.delete w.log r in
        (try-Updating e).apply (record w { log = deleted r e ∷ w.log }) (ground arith);
  }

  delete_redundant-Good :
      (rs : List ComposableResource)
      → Triple Updating (delete_redundant env old.status.resources rs) Updating (Good env old)
  unfolding delete_redundant
  delete_redundant-Good [] = record { apply = λ w h. h }
  delete_redundant-Good (r ∷ rs) = elim (Bool-cases (has r.meta.name old.status.resources)) [
    | inl e ↦ rw e (bind-Triple (delete_redundant-Good rs) (λ names. record { apply = λ w h. h }))
    | inr e ↦ rw e (then-Triple (delete_resource-Good r e) (delete_redundant-Good rs))
  ]

  create_resource-Good :
      (r : ComposableResource)
      → Permitted env old (created r none)
      → Triple Updating (create_resource env r) Updating (Good env old)
  create_resource-Good r fine = record {
    apply = λ w h.
        let e = env.create w.log r in
        (try-Updating e).apply (record w { log = created r e ∷ w.log }) (ground arith);
  }

  create_missing-Good :
      (existed : List String) (d : Resources)
      → ((name : String) → has name d ≡ true → has name old.status.resources ≡ true)
      → old.status.state ≡ RequestState.updating
      → old.meta.deletion_timestamp ≡ none
      → old.status.scalar_resource ≡ old.resource
      → Triple Updating (create_missing env old existed d) Updating (Good env old)
  unfolding create_missing
  create_missing-Good existed [] within s l a = record { apply = λ w h. h }
  create_missing-Good existed ((name, v) ∷ d) within s l a =
      let rest = create_missing-Good existed d (λ x h. within x (ground arith)) s l a in
      if-Triple (contains existed name) (λ _. rest)
        (λ _.
          then-Triple
            (create_resource-Good (new_resource env old name v)
              (s, l, a, within name (ground arith), ground arith))
            rest)

  go_running-Good :
      (q : ComposabilityRequest)
      → q ≡ old
      → all_online env q.status.resources ≡ true
      → Triple Updating
          (edit (set_state RequestState.running)
            >> (edit (set_error "") >> (edit accept_spec >> finish_with_status env)))
          (Good env old)
          (Good env old)
  unfolding finish_with_status
  go_running-Good q same online = record { apply = λ w h. ground arith }

  wait-Good :
      Triple Updating (pure {R = Ending} {A = Ending} (after 30)) (Good env old) (Good env old)
  wait-Good = record { apply = λ w h. ground arith }

  redundant-Good :
      (q : ComposabilityRequest)
      → q ≡ old
      → (rs : List ComposableResource)
      → Triple Updating (delete_redundant env q.status.resources rs) Updating (Good env old)
  redundant-Good q same rs = rw same (delete_redundant-Good rs)

  missing-Good :
      (q : ComposabilityRequest)
      → q ≡ old
      → old.status.state ≡ RequestState.updating
      → old.meta.deletion_timestamp ≡ none
      → old.status.scalar_resource ≡ old.resource
      → (existed : List String)
      → Triple Updating (create_missing env q existed q.status.resources) Updating (Good env old)
  missing-Good q same s l a existed =
      rw same (create_missing-Good existed old.status.resources (λ _ h. h) s l a)

  bring_up-Good : Triple Updating (bring_up env) (Good env old) (Good env old)
  unfolding bring_up
  bring_up-Good = get-Triple (λ w (((log, same, s), l), a).
      bind-Triple (try_ok-Updating (env.managed_by w.request.meta.name)) (λ items.
        bind-Triple (redundant-Good w.request same items) (λ existed.
          then-Triple (missing-Good w.request same s l a existed) (
            if-Triple (all_online env w.request.status.resources) (go_running-Good w.request same)
              (λ _. wait-Good)))))

  clean_when_deleted-Good :
      (s : RequestState)
      → (s ≡ RequestState.updating) ⊎ (s ≡ RequestState.running)
      → Triple (Start env old s) (clean_when_deleted env) (Live env old s) (Good env old)
  unfolding clean_when_deleted finish_with_status
  clean_when_deleted-Good s (inl e) = record { apply = λ w h. ground arith }
  clean_when_deleted-Good s (inr e) = record { apply = λ w h. ground arith }

  -- The spec has changed: it is allocated anew.
  replan-Good :
      (s : RequestState)
      → (s ≡ RequestState.updating) ⊎ (s ≡ RequestState.running)
      → old.status.scalar_resource ≢ old.resource
      → Triple
          (Live env old s)
          (edit (set_state RequestState.node_allocating)
            >> (edit accept_spec >> finish_with_status env))
          (Good env old)
          (Good env old)
  unfolding finish_with_status
  replan-Good s (inl e) h = record { apply = λ w k. ground arith }
  replan-Good s (inr e) h = record { apply = λ w k. ground arith }

  pub handle_updating-Good :
      Triple
        (Start env old RequestState.updating)
        (handle_updating_state env)
        (Good env old)
        (Good env old)
  unfolding handle_updating_state
  handle_updating-Good = then-Triple (clean_when_deleted-Good RequestState.updating (inl refl)) (
      get-Triple (λ w ((log, same, s), l).
        if-Triple (w.request.status.scalar_resource == w.request.resource)
          (λ e. record { apply = λ v h. bring_up-Good.apply v (h, ground arith) })
          (λ e. replan-Good RequestState.updating (inl refl) (ground arith))))

  settle-running :
      Triple (Live env old RequestState.running) (settle env) (Good env old) (Good env old)
  unfolding try requeue_on_err
  settle-running = record { apply = λ w h. ground arith }

  pub handle_running-Good :
      Triple
        (Start env old RequestState.running)
        (handle_running_state env)
        (Good env old)
        (Good env old)
  unfolding handle_running_state
  handle_running-Good = then-Triple (clean_when_deleted-Good RequestState.running (inr refl)) (
      get-Triple (λ w ((log, same, s), l).
        if-Triple (w.request.status.scalar_resource == w.request.resource) (λ _. settle-running)
          (λ e. replan-Good RequestState.running (inr refl) (ground arith))))
