-- ===== src/Request/Totality/Returning.antt =====
-- The statements a pass of the request controller is made of: each of them returns.
use composable_resource_oper.Common.{
  ℕ, Option, none, some, ◌≢◌, arith, string_eq, Spec, bind-Spec, pure, skip, get, return, ◌>>=◌,
}
use composable_resource_oper.Api.{Error, Result, Outcome, ComposabilityRequest, details_eq}
use composable_resource_oper.Request.Effects.{
  Env, Act, Ending, returned, panicked, edit, done, after, update, update_status, requeue_on_err,
  try, try_ok, finish_with_status,
}

-- Whatever state it starts from, the statement returns with an outcome, if it returns.
abbrev pub Quiet : {A : Type 0} → Act A → Type 0
Quiet m = Spec (λ _. Unit {0}) m (λ _ _. Unit {0}) (λ o _. o ≢ panicked)

abbrev pub Final : Act Ending → Type 0
Final m = Spec (λ _. Unit {0}) m (λ o _. o ≢ panicked) (λ o _. o ≢ panicked)

returned-ends : (o : Outcome) → returned o ≢ panicked
returned-ends o = ground arith

pub edit-Quiet : (f : ComposabilityRequest → ComposabilityRequest) → Quiet (edit f)
edit-Quiet f = record { apply = λ w _. tt }

pub get-Quiet : Quiet get
get-Quiet = record { apply = λ w _. tt }

pub skip-Quiet : Quiet skip
skip-Quiet = record { apply = λ w _. tt }

pub pure-Quiet : {A : Type 0} (a : A) → Quiet (pure a)
pure-Quiet a = record { apply = λ w _. tt }

pub pure-Final : (o : Outcome) → Final (pure (returned o))
pure-Final o = record { apply = λ w _. returned-ends o }

pub after-Final : (n : ℕ) → Final (pure (after n))
after-Final n = record { apply = λ w _. ground arith }

pub done-Final : Final (pure done)
done-Final = record { apply = λ w _. ground arith }

module _ {A : Type 0} (m : Act Ending) where
  -- A function's outcome is returned from within another.
  return_of-Quiet : Final m → Quiet (m >>= λ o. return {A = A} o)
  return_of-Quiet h = bind-Spec h (λ o. record { apply = λ w p. p })

module _ (env : Env) where
  pub update_status-Quiet : Quiet (update_status env)
  update_status-Quiet = record { apply = λ w _. tt }

  pub update-Quiet : Quiet (update env)
  update-Quiet = record { apply = λ w _. tt }

  pub requeue-Final : (e : Error) → Final (requeue_on_err env e)
  unfolding requeue_on_err
  requeue-Final e = record { apply = λ w _. ground arith }

  pub try-Quiet : (o : Option Error) → Quiet (try env o)
  unfolding try
  try-Quiet none = skip-Quiet
  try-Quiet (some e) = return_of-Quiet (requeue_on_err env e) (requeue-Final e)

  pub try_ok-Quiet : {A : Type 0} (x : Result A) → Quiet (try_ok env x)
  unfolding try_ok
  try_ok-Quiet (Result.ok a) = pure-Quiet a
  try_ok-Quiet (Result.err e) = return_of-Quiet (requeue_on_err env e) (requeue-Final e)

  pub finish-Final : Final (finish_with_status env)
  unfolding finish_with_status
  finish-Final = record { apply = λ w _. ground arith }
