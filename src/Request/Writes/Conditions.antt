-- ===== src/Request/Writes/Conditions.antt =====
-- What a pass of the request controller keeps while it writes: the assertions of its handlers.
use composable_resource_oper.Common.{none, ◌≡◌, string_eq}
use composable_resource_oper.Api.{RequestState, ComposabilityRequest, details_eq}
use composable_resource_oper.Request.Effects.{Env, World}
use composable_resource_oper.Request.Policy.{Obeys, Judged, Permitted}

module _ (env : Env) (old : ComposabilityRequest) where
  abbrev pub Good : World → Type 0
  Good w = Obeys (Permitted env old) w.log × Judged env old w.request

  -- As it was read, in a state
  abbrev pub Start : RequestState → World → Type 0
  Start s w = Obeys (Permitted env old) w.log × (w.request ≡ old) × (old.status.state ≡ s)

  -- The same, where no deletion is pending
  abbrev pub Live : RequestState → World → Type 0
  Live s w = Start s w × (old.meta.deletion_timestamp ≡ none)
