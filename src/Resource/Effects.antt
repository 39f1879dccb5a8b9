-- ===== src/Resource/Effects.antt =====
-- What a reconciliation of a ComposableResource does to the world: calls, and their answers.
use composable_resource_oper.Common.{String, Bool, Option, none, some, List, ◌∷◌, ℕ}
use composable_resource_oper.Common.{Action, next, pure, return, skip, ◌>>=◌, ◌>>◌}
use composable_resource_oper.Api.{Error, Result, Outcome, ComposableResource, ResourceState}

-- The calls that leave the controller, with what they were given and what they answered.
pub data Call : Type 0 where
  got_resource : Result ComposableResource → Call
  got_node : (node : String) → Option Error → Call
  updated : ComposableResource → Option Error → Call
  updated_status : ComposableResource → Option Error → Call
  deleted : ComposableResource → Option Error → Call
  added_resource : ComposableResource → Result (String × String) → Call
  removed_resource : ComposableResource → Option Error → Call
  checked_resource : ComposableResource → Option Error → Call
  checked_gpu_loads : (node : String) (gpu : Option String) → Option Error → Call
  checked_gpu_visible : ComposableResource → Result Bool → Call
  ran_nvidia_smi : (node : String) → Option Error → Call
  drained_gpu : (node gpu : String) → Option Error → Call
  restarted_daemonset : (namespace name : String) → Option Error → Call
  looked_for_taint : ComposableResource → Result Bool → Call
  created_taint : ComposableResource → Option Error → Call
  deleted_taint : ComposableResource → Option Error → Call

-- Everything outside the controller: the API server, the CDI provider and the functions of
-- internal/utils. An answer may depend on all calls made so far, the newest first.
pub record Env : Type 0 where
  pub get_resource : List Call → Result ComposableResource
  pub get_node : List Call → String → Option Error
  pub update : List Call → ComposableResource → Option Error
  pub update_status : List Call → ComposableResource → Option Error
  pub delete : List Call → ComposableResource → Option Error
  pub add_resource : List Call → ComposableResource → Result (String × String)
  -- `RemoveResource`, with the `Status.Error` that it leaves in its argument
  pub remove_resource : List Call → ComposableResource → Option Error × String
  pub check_resource : List Call → ComposableResource → Option Error
  pub check_no_gpu_loads : List Call → String → Option String → Option Error
  pub check_gpu_visible : List Call → ComposableResource → Result Bool
  pub run_nvidia_smi : List Call → String → Option Error
  pub drain_gpu : List Call → String → String → Option Error
  pub restart_daemonset : List Call → String → String → Option Error
  pub has_device_taint : List Call → ComposableResource → Result Bool
  pub create_device_taint : List Call → ComposableResource → Option Error
  pub delete_device_taint : List Call → ComposableResource → Option Error
  -- `os.Getenv`
  pub getenv : String → String

-- The object that the controller holds, and the calls made so far.
pub record World : Type 0 where
  pub resource : ComposableResource
  pub log : List Call

abbrev pub Act : Type 0 → Type 0
Act A = Action World Outcome A

-- A call on the held object, whose answer is logged.
abbrev pub ask :
    {R A : Type 0}
    → (List Call → ComposableResource → A)
    → (ComposableResource → A → Call)
    → Action World R A
ask f entry w =
    let a = f w.log w.resource in (next a, record w { log = entry w.resource a ∷ w.log })

abbrev pub edit :
    {R : Type 0} → (ComposableResource → ComposableResource) → Action World R (Unit {0})
edit f w = (next tt, record w { resource = f w.resource })

abbrev pub set_state : ResourceState → ComposableResource → ComposableResource
set_state s r = record r { status = record r.status { state = s } }

abbrev pub set_error : String → ComposableResource → ComposableResource
set_error e r = record r { status = record r.status { error = e } }

abbrev pub done : Outcome
done = record { requeue_after = none; error = none }

abbrev pub after : ℕ → Outcome
after n = record { requeue_after = some n; error = none }

abbrev pub failed : Error → Outcome
failed e = record { requeue_after = none; error = some e }

-- `return ctrl.Result{}, err`
abbrev pub outcome_of : Option Error → Outcome
outcome_of e = record { requeue_after = none; error = e }

module _ (env : Env) where
  abbrev pub update_status : {R : Type 0} → Action World R (Option Error)
  update_status = ask env.update_status updated_status

  abbrev pub update : {R : Type 0} → Action World R (Option Error)
  update = ask env.update updated

  abbrev pub delete : {R : Type 0} → Action World R (Option Error)
  delete = ask env.delete deleted

  -- `requeueOnErr`: the failure of its own update is only logged.
  unfoldable pub requeue_on_err : Error → Act Outcome
  requeue_on_err e = do edit (set_error e.message); ignored ← update_status; pure (failed e)

  -- `if err != nil { return r.requeueOnErr(…) }`
  unfoldable pub try : Option Error → Act (Unit {0})
  unfolding requeue_on_err
  try none = skip
  try (some e) = requeue_on_err e >>= λ o. return o

  unfoldable pub try_ok : {A : Type 0} → Result A → Act A
  unfolding requeue_on_err
  try_ok (Result.ok a) = pure a
  try_ok (Result.err e) = requeue_on_err e >>= λ o. return o

  -- `return ctrl.Result{}, r.Status().Update(ctx, resource)`
  unfoldable pub finish_with_status : Act Outcome
  finish_with_status = do e ← update_status; pure (outcome_of e)
