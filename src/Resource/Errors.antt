-- ===== src/Resource/Errors.antt =====
-- How an error of a reconciliation of a ComposableResource is reported.
use composable_resource_oper.Common.{
  Option, none, true, false, Bool, Option-cases, ◌≡◌, ◌⊎◌, inl, inr, arith, body,
}
use composable_resource_oper.Api.{Error, Result, Outcome, Result-cases}
use composable_resource_oper.Resource.Effects.{Env, World, updated_status, requeue_on_err, failed}
use composable_resource_oper.Resource.Policy.{Follows}
use composable_resource_oper.Resource.Adapter.{new_adapter}
use composable_resource_oper.Resource.Reconcile.{
  dispatch, handle, reported, collected, perform_garbage_collection, reconcile_found,
}

-- An outcome with an error comes with a status that shows it, and that was sent last.
abbrev pub Reported : Outcome × World → Type 0
Reported (o, w) =
    (o ≡ record { requeue_after = o.requeue_after; error = none })
    ⊎ ((e : Error) × (x : Option Error) × (o ≡ failed e)
        × (w.resource.status.error ≡ e.message)
        × Follows (updated_status w.resource x) w.log)

module _ (env : Env) where
  requeue-Reported : (e : Error) (w : World) → Reported (body (requeue_on_err env e) w)
  unfolding requeue_on_err
  requeue-Reported e w =
      let r = (requeue_on_err env e w).1.resource in
      inr (e, env.update_status w.log r, ground arith, ground arith, ground arith)

  reported-Reported : (x : Outcome × World) → Reported (body (reported env x.0) x.1)
  reported-Reported (o, w) = elim (Option-cases o.error) [
    | inl n ↦ rw n (inl (ground arith))
    | inr (e, h) ↦ rw h (requeue-Reported e w)
  ]

  dispatch-Reported : (w : World) → Reported (body (dispatch env) w)
  unfolding dispatch
  dispatch-Reported w = elim (Result-cases (new_adapter env.getenv)) [
    | inl (p, e) ↦
        rw (e, dispatch) (reported-Reported (body (handle env w.resource.status.state) w))
    | inr (x, e) ↦ rw (e, dispatch) (requeue-Reported x w)
  ]

  collected-Reported : (x : Result Bool × World) → Reported (body (collected env x.0) x.1)
  collected-Reported (Result.err e, t) = requeue-Reported e t
  collected-Reported (Result.ok true, t) = inl (ground arith)
  collected-Reported (Result.ok false, t) = dispatch-Reported t

  -- Once the ComposableResource was read, a reconciliation that ends in an error has written that
  -- error's text to `Status.Error`, and its last call sent this status to the API server.
  pub reconcile_found-Reported : (w : World) → Reported (body (reconcile_found env) w)
  unfolding reconcile_found
  reconcile_found-Reported w = collected-Reported (body (perform_garbage_collection env) w)
