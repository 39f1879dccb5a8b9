-- ===== src/Resource/Writes/Conditions.antt =====
-- What a pass of the resource controller keeps while it writes: the assertions of its handlers.
use composable_resource_oper.Common.{◌≡◌, arith}
use composable_resource_oper.Api.{ResourceState, ComposableResource}
use composable_resource_oper.Resource.Effects.{World}
use composable_resource_oper.Resource.Policy.{WritesWell, Judged}
use composable_resource_oper.Common.{Obeys}

module _ (old : ComposableResource) where
  abbrev pub Good : World → Type 0
  Good w = Obeys (WritesWell old) w.log × Judged old w.resource w.log

  abbrev pub In : ResourceState → World → Type 0
  In s w = Good w × (old.status.state ≡ s) × (w.resource.status.state ≡ s)

  abbrev pub Start : ResourceState → World → Type 0
  Start s w =
      Obeys (WritesWell old) w.log
      × (w.resource ≡ old)
      × (old.status.state ≡ s)
      × (w.resource.status.state ≡ s)

  -- The object is still the one that was read.
  abbrev pub Fresh : World → Type 0
  Fresh w = Obeys (WritesWell old) w.log × (w.resource ≡ old)

module _ (old : ComposableResource) where
  pub Start→In : (s : ResourceState) (w : World) → Start old s w → In old s w
  Start→In ResourceState.empty w h = ground arith
  Start→In _ w h = ground arith

  pub Fresh→Good : (s : ResourceState) (w : World) → old.status.state ≡ s → Fresh old w → Good old w
  Fresh→Good ResourceState.empty w e h = ground arith
  Fresh→Good _ w e h = ground arith
