-- ===== src/Request/Writes/Cleaning.antt =====
-- The writes of `handleNoneState`, `handleCleaningState` and `handleDeletingState`.
use composable_resource_oper.Common.{
  sym, Option, none, some, List, [], ◌∷◌, ◌≡◌, arith, string_eq, Triple, then-Triple, get-Triple,
  ◌>>=◌,
}
use composable_resource_oper.Api.{
  Error, Result, RequestState, ComposableResource, ComposabilityRequest, details_eq,
}
use composable_resource_oper.Request.Effects.{
  Env, World, try, try_ok, requeue_on_err, finish_with_status, deleted,
}
use composable_resource_oper.Request.Handlers.{
  handle_none_state, settle, delete_all, clean, handle_cleaning_state, handle_deleting_state,
}
use composable_resource_oper.Request.Writes.Conditions.{Good, Start}

module _ (env : Env) (old : ComposabilityRequest) where
  pub handle_none-Good :
      Triple
        (Start env old RequestState.empty)
        (handle_none_state env)
        (Good env old)
        (Good env old)
  unfolding handle_none_state try requeue_on_err
  handle_none-Good = record { apply = λ w h. ground arith }

  abbrev Cleaning : World → Type 0
  Cleaning = Start env old RequestState.cleaning

  try-Cleaning : (e : Option Error) → Triple Cleaning (try env e) Cleaning (Good env old)
  unfolding try requeue_on_err
  try-Cleaning none = record { apply = λ w h. h }
  try-Cleaning (some e) = record { apply = λ w h. ground arith }

  delete_all-Good :
      (rs : List ComposableResource) → Triple Cleaning (delete_all env rs) Cleaning (Good env old)
  unfolding delete_all
  delete_all-Good [] = record { apply = λ w h. h }
  delete_all-Good (r ∷ rs) =
      then-Triple
        (record {
          apply = λ w h.
              let e = env.delete w.log r in
              (try-Cleaning e).apply (record w { log = deleted r e ∷ w.log }) (ground arith);
        })
        (delete_all-Good rs)

  settle-Cleaning : Triple Cleaning (settle env) (Good env old) (Good env old)
  unfolding try requeue_on_err
  settle-Cleaning = record { apply = λ w h. ground arith }

  clean-Good :
      (rs : List ComposableResource)
      → env.managed_by old.meta.name ≡ Result.ok rs
      → Triple Cleaning (clean env rs) (Good env old) (Good env old)
  unfolding finish_with_status
  clean-Good [] e = record { apply = λ w h. ground arith }
  clean-Good (r ∷ rs) e = then-Triple (delete_all-Good (r ∷ rs)) settle-Cleaning

  clean_read-Good :
      (x : Result (List ComposableResource))
      → env.managed_by old.meta.name ≡ x
      → Triple Cleaning (try_ok env x >>= clean env) (Good env old) (Good env old)
  unfolding try_ok requeue_on_err
  clean_read-Good (Result.ok items) e = clean-Good items e
  clean_read-Good (Result.err x) e = record { apply = λ w h. ground arith }

  clean_of-Good :
      (q : ComposabilityRequest)
      → q ≡ old
      → Triple Cleaning
          (try_ok env (env.managed_by q.meta.name) >>= clean env)
          (Good env old)
          (Good env old)
  clean_of-Good q same =
      clean_read-Good (env.managed_by q.meta.name) (λ i. env.managed_by (sym same i).meta.name)

  pub handle_cleaning-Good :
      Triple
        (Start env old RequestState.cleaning)
        (handle_cleaning_state env)
        (Good env old)
        (Good env old)
  unfolding handle_cleaning_state
  handle_cleaning-Good = get-Triple (λ w (log, same, s). clean_of-Good w.request same)

  pub handle_deleting-Good :
      Triple
        (Start env old RequestState.deleting)
        (handle_deleting_state env)
        (Good env old)
        (Good env old)
  unfolding handle_deleting_state try requeue_on_err
  handle_deleting-Good = record { apply = λ w h. ground arith }
