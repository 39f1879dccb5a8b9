-- ===== src/Resource/Writes/Collecting.antt =====
-- The writes of `performGarbageCollection`.
use composable_resource_oper.Common.{true, Bool, false}
use composable_resource_oper.Common.{◌≡◌, refl, arith}
use composable_resource_oper.Common.{Spec, bind-Spec, pure, ◌||◌, ◌∷◌}
use composable_resource_oper.Api.{Result, ResourceState, ComposableResource}
use composable_resource_oper.Resource.Effects.{Env, World, ask, looked_for_taint, got_node}
use composable_resource_oper.Resource.Policy.{NodeMissing}
use composable_resource_oper.Resource.Reconcile.{
  drop_taint, mark_deleting, request_deletion, collect, perform_garbage_collection,
}
use composable_resource_oper.Resource.Writes.Conditions.{Good, Fresh, Fresh→Good}

module _ (old : ComposableResource) where
  -- Where the garbage collection goes on to the handlers, it has left the object alone.
  abbrev pub Swept : Result Bool → World → Type 0
  Swept (Result.ok false) t = Fresh old t
  Swept (Result.ok true) t = Good old t
  Swept (Result.err e) t = Good old t

  abbrev Missing : World → Type 0
  Missing w = Fresh old w × NodeMissing w.log

  -- With the answer whether the object was marked for deletion by now.
  abbrev Marked : Bool → World → Type 0
  Marked false w = Missing w
  Marked true w =
      Good old w × NodeMissing w.log × (w.resource.status.state ≡ ResourceState.deleting)

  -- With the answers whether it was marked, and whether its deletion was asked for.
  abbrev Ended : Bool → Bool → World → Type 0
  Ended false false w = Fresh old w
  Ended _ _ w = Good old w

module _ (env : Env) (old : ComposableResource) where
  taint-Swept :
      Spec
        (Missing old)
        (ask env.has_device_taint looked_for_taint)
        (λ _ w. Missing old w)
        (Swept old)
  taint-Swept = record { apply = λ w h. ground arith }

  drop_taint-Swept :
      (t : Result Bool) → Spec (Missing old) (drop_taint env t) (λ _ w. Missing old w) (Swept old)
  drop_taint-Swept (Result.err e) = record {
    apply = λ w h. Fresh→Good old old.status.state w refl h.0;
  }
  drop_taint-Swept (Result.ok false) = record { apply = λ w h. h }
  drop_taint-Swept (Result.ok true) = record {
    apply = λ w h. ground (arith, Fresh→Good old old.status.state w refl h.0);
  }

  mark_deleting-Swept : Spec (Missing old) (mark_deleting env) (Marked old) (Swept old)
  unfolding mark_deleting
  mark_deleting-Swept = record {
    apply = λ w h. ground (arith, Fresh→Good old old.status.state w refl h.0);
  }

  request_deletion-Swept :
      (marked : Bool)
      → Spec (Marked old marked) (request_deletion env) (Ended old marked) (Swept old)
  unfolding request_deletion
  request_deletion-Swept false = record {
    apply = λ w h. ground (arith, Fresh→Good old old.status.state w refl h.0);
  }
  request_deletion-Swept true = record { apply = λ w h. ground arith }

  Ended-Swept :
      (marked deleted : Bool)
      → Spec
          (Ended old marked deleted)
          (pure (Result.ok (marked || deleted)))
          (Swept old)
          (Swept old)
  Ended-Swept false false = record { apply = λ w h. h }
  Ended-Swept false true = record { apply = λ w h. h }
  Ended-Swept true _ = record { apply = λ w h. h }

  collect-Swept : Spec (Missing old) (collect env) (Swept old) (Swept old)
  unfolding collect
  collect-Swept = bind-Spec taint-Swept λ t. bind-Spec (drop_taint-Swept t) λ _.
      bind-Spec mark_deleting-Swept
        λ marked. bind-Spec (request_deletion-Swept marked) λ deleted. Ended-Swept marked deleted

  pub garbage-Swept : Spec (Fresh old) (perform_garbage_collection env) (Swept old) (Swept old)
  unfolding perform_garbage_collection
  garbage-Swept = record {
    apply = λ w h. ground (
      arith,
      Fresh→Good old old.status.state w refl h,
      collect-Swept.apply (record w {
        log =
            got_node w.resource.spec.target_node (env.get_node w.log w.resource.spec.target_node)
            ∷ w.log;
      }),
    );
  }
