-- ===== src/Request/Totality/Updating.antt =====
-- The handlers of `composabilityrequest_controller.go` after the allocation return.
use composable_resource_oper.Common.{
  String, List, [], ◌==◌, contains, string_eq, bind-Spec, then-Spec, if-Spec, ◌>>◌, ◌∷◌,
}
use composable_resource_oper.Common.Dict.{has}
use composable_resource_oper.Api.{
  RequestState, ComposableResource, ComposabilityRequest, details_eq,
}
use composable_resource_oper.Request.Effects.{
  Env, edit, set_state, set_error, accept_spec, finish_with_status, deleted, created,
}
use composable_resource_oper.Request.Allocation.{Resources}
use composable_resource_oper.Request.Handlers.{
  delete_redundant, create_missing, all_online, bring_up, handle_updating_state,
  handle_running_state, delete_all, clean, settle, delete_resource, create_resource, new_resource,
  handle_cleaning_state, handle_deleting_state, remove_finalizer,
}
use composable_resource_oper.Request.Totality.Returning.{
  Quiet, Final, edit-Quiet, get-Quiet, skip-Quiet, pure-Quiet, after-Final, done-Final,
  update_status-Quiet, update-Quiet, try-Quiet, try_ok-Quiet, finish-Final,
}
use composable_resource_oper.Request.Totality.Allocating.{clean_when_deleted-Quiet}

module _ (env : Env) where
  delete_resource-Quiet : (r : ComposableResource) → Quiet (delete_resource env r)
  delete_resource-Quiet r = record {
    apply = λ w _.
        (try-Quiet env (env.delete w.log r)).apply
          (record w { log = deleted r (env.delete w.log r) ∷ w.log }) tt;
  }

  create_resource-Quiet : (r : ComposableResource) → Quiet (create_resource env r)
  create_resource-Quiet r = record {
    apply = λ w _.
        (try-Quiet env (env.create w.log r)).apply
          (record w { log = created r (env.create w.log r) ∷ w.log }) tt;
  }

  delete_redundant-Quiet :
      (d : Resources) (rs : List ComposableResource) → Quiet (delete_redundant env d rs)
  unfolding delete_redundant
  delete_redundant-Quiet d [] = pure-Quiet []
  delete_redundant-Quiet d (r ∷ rs) =
      if-Spec (has r.meta.name d)
        (bind-Spec (delete_redundant-Quiet d rs) (λ names. pure-Quiet (r.meta.name ∷ names)))
        (then-Spec (delete_resource-Quiet r) (delete_redundant-Quiet d rs))

  create_missing-Quiet :
      (q : ComposabilityRequest) (existed : List String) (d : Resources)
      → Quiet (create_missing env q existed d)
  unfolding create_missing
  create_missing-Quiet q existed [] = skip-Quiet
  create_missing-Quiet q existed ((name, v) ∷ d) =
      if-Spec (contains existed name) (create_missing-Quiet q existed d) (
        then-Spec (create_resource-Quiet (new_resource env q name v))
          (create_missing-Quiet q existed d))

  bring_up-Final : Final (bring_up env)
  unfolding bring_up
  bring_up-Final = bind-Spec get-Quiet (λ w.
      bind-Spec (try_ok-Quiet env (env.managed_by w.request.meta.name)) (λ items.
        bind-Spec (delete_redundant-Quiet w.request.status.resources items) (λ existed.
          then-Spec (create_missing-Quiet w.request existed w.request.status.resources) (
            if-Spec (all_online env w.request.status.resources)
              (then-Spec (edit-Quiet (set_state RequestState.running)) (
                then-Spec (edit-Quiet (set_error ""))
                  (then-Spec (edit-Quiet accept_spec) (finish-Final env))))
              (after-Final 30)))))

  replan-Final : Final (
      edit (set_state RequestState.node_allocating) >> (edit accept_spec >> finish_with_status env))
  replan-Final =
      then-Spec (edit-Quiet (set_state RequestState.node_allocating))
        (then-Spec (edit-Quiet accept_spec) (finish-Final env))

  pub handle_updating_state-Final : Final (handle_updating_state env)
  unfolding handle_updating_state
  handle_updating_state-Final = then-Spec (clean_when_deleted-Quiet env) (
      bind-Spec get-Quiet (λ w.
        if-Spec (w.request.status.scalar_resource == w.request.resource) bring_up-Final
          replan-Final))

  settle-Final : Final (settle env)
  settle-Final =
      then-Spec (edit-Quiet (set_error ""))
        (bind-Spec (update_status-Quiet env) (λ e. then-Spec (try-Quiet env e) (after-Final 30)))

  pub handle_running_state-Final : Final (handle_running_state env)
  unfolding handle_running_state
  handle_running_state-Final = then-Spec (clean_when_deleted-Quiet env) (
      bind-Spec get-Quiet (λ w.
        if-Spec (w.request.status.scalar_resource == w.request.resource) settle-Final replan-Final))

  delete_all-Quiet : (rs : List ComposableResource) → Quiet (delete_all env rs)
  unfolding delete_all
  delete_all-Quiet [] = skip-Quiet
  delete_all-Quiet (r ∷ rs) = then-Spec (delete_resource-Quiet r) (delete_all-Quiet rs)

  clean-Final : (rs : List ComposableResource) → Final (clean env rs)
  clean-Final [] = then-Spec (edit-Quiet (set_state RequestState.deleting)) (finish-Final env)
  clean-Final (r ∷ rs) = then-Spec (delete_all-Quiet (r ∷ rs)) settle-Final

  pub handle_cleaning_state-Final : Final (handle_cleaning_state env)
  unfolding handle_cleaning_state
  handle_cleaning_state-Final =
      bind-Spec get-Quiet
        (λ w. bind-Spec (try_ok-Quiet env (env.managed_by w.request.meta.name)) clean-Final)

  pub handle_deleting_state-Final : Final (handle_deleting_state env)
  unfolding handle_deleting_state
  handle_deleting_state-Final =
      then-Spec (edit-Quiet remove_finalizer)
        (bind-Spec (update-Quiet env) (λ e. then-Spec (try-Quiet env e) done-Final))
