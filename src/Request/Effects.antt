-- ===== src/Request/Effects.antt =====
-- What a reconciliation of a ComposabilityRequest reads, and what it writes to the API server.
use composable_resource_oper.Common.{String, ℕ, Option, none, some, List, ◌∷◌}
use composable_resource_oper.Common.{Action, next, pure, return, skip, ◌>>=◌, ◌>>◌}
use composable_resource_oper.Api.{
  Error, Result, Outcome, RequestState, ComposableResource, ComposabilityRequest,
}
use composable_resource_oper.Nodes.{Node}
use composable_resource_oper.Request.Allocation.{Resources}

-- The writes, with what they were given and what they answered.
pub data Call : Type 0 where
  updated : ComposabilityRequest → Option Error → Call
  updated_status : ComposabilityRequest → Option Error → Call
  deleted_request : ComposabilityRequest → Option Error → Call
  created : ComposableResource → Option Error → Call
  deleted : ComposableResource → Option Error → Call

-- The reads are of one snapshot. What a write answers may depend on all writes before it, the
-- newest first.
pub record Env : Type 0 where
  pub get_request : String → Result ComposabilityRequest
  pub get_resource : String → Result ComposableResource
  pub get_node : String → Result Node
  -- the resources with the label "app.kubernetes.io/managed-by" of a request
  pub managed_by : String → Result (List ComposableResource)
  pub requests : Result (List ComposabilityRequest)
  pub nodes : Result (List Node)
  pub update : List Call → ComposabilityRequest → Option Error
  pub update_status : List Call → ComposabilityRequest → Option Error
  pub delete_request : List Call → ComposabilityRequest → Option Error
  pub create : List Call → ComposableResource → Option Error
  pub delete : List Call → ComposableResource → Option Error
  -- `time.Parse` with RFC 3339, in seconds
  pub parse_time : String → Option ℕ
  -- `GenerateComposableResourceName` of a type, call after call
  pub fresh_name : String → ℕ → String

pub record World : Type 0 where
  pub request : ComposabilityRequest
  pub log : List Call

-- How a handler ends: `panicked` is an index out of range.
pub data Ending : Type 0 where
  returned : Outcome → Ending
  panicked : Ending

abbrev pub Act : Type 0 → Type 0
Act A = Action World Ending A

abbrev pub edit :
    {R : Type 0} → (ComposabilityRequest → ComposabilityRequest) → Action World R (Unit {0})
edit f w = (next tt, record w { request = f w.request })

abbrev pub set_state : RequestState → ComposabilityRequest → ComposabilityRequest
set_state s q = record q { status = record q.status { state = s } }

abbrev pub set_error : String → ComposabilityRequest → ComposabilityRequest
set_error e q = record q { status = record q.status { error = e } }

abbrev pub set_resources : Resources → ComposabilityRequest → ComposabilityRequest
set_resources d q = record q { status = record q.status { resources = d } }

-- `Status.ScalarResource = Spec.Resource`
abbrev pub accept_spec : ComposabilityRequest → ComposabilityRequest
accept_spec q = record q { status = record q.status { scalar_resource = q.resource } }

abbrev pub done : Ending
done = returned (record { requeue_after = none; error = none })

abbrev pub after : ℕ → Ending
after n = returned (record { requeue_after = some n; error = none })

abbrev pub failed : Error → Ending
failed e = returned (record { requeue_after = none; error = some e })

-- A write of the held request, whose answer is logged.
abbrev pub ask :
    {R : Type 0}
    → (List Call → ComposabilityRequest → Option Error)
    → (ComposabilityRequest → Option Error → Call)
    → Action World R (Option Error)
ask f entry w = let a = f w.log w.request in (next a, record w { log = entry w.request a ∷ w.log })

module _ (env : Env) where
  abbrev pub update_status : {R : Type 0} → Action World R (Option Error)
  update_status = ask env.update_status updated_status

  abbrev pub update : Act (Option Error)
  update = ask env.update updated

  -- `requeueOnErr`: the failure of its own update is only logged.
  unfoldable pub requeue_on_err : Error → Act Ending
  requeue_on_err e = do edit (set_error e.message); ignored ← update_status; pure (failed e)

  -- `if err != nil { return r.requeueOnErr(…) }`
  unfoldable pub try : Option Error → Act (Unit {0})
  unfolding requeue_on_err
  try none = skip
  try (some e) = requeue_on_err e >>= λ o. return o

  unfoldable pub try_ok : {A : Type 0} → Result A → Act A
  unfolding requeue_on_err
  try_ok (Result.ok a) = pure a
  try_ok (Result.err e) = requeue_on_err e >>= λ o. return o

  -- `return ctrl.Result{}, r.Status().Update(ctx, request)`
  unfoldable pub finish_with_status : Act Ending
  finish_with_status = do
    e ← update_status
    pure (returned (record { requeue_after = none; error = e }))
