-- ===== src/Resource/Writes/Attaching.antt =====
-- The writes of `handleNoneState`, `handleAttachingState` and `handleOnlineState`.
use composable_resource_oper.Common.{String}
use composable_resource_oper.Common.{arith}
use composable_resource_oper.Common.{Triple, then-Triple}
use composable_resource_oper.Api.{ResourceState, ComposableResource}
use composable_resource_oper.Resource.Effects.{Env}
use composable_resource_oper.Resource.Handlers.{
  handle_none_state, leave_attaching, attach_device, refresh_plugins, go_online,
  handle_attaching_state, handle_online_state,
}
use composable_resource_oper.Resource.Detaching.{env_kind}
use composable_resource_oper.Resource.Writes.Conditions.{Good, In, Start}

module _ (env : Env) (old : ComposableResource) where
  pub handle_none-Good :
      Triple (In old ResourceState.empty) (handle_none_state env) (Good old) (Good old)
  unfolding handle_none_state
  handle_none-Good = record { apply = λ w h. ground arith }

  leave_attaching-Good :
      Triple
        (In old ResourceState.attaching)
        (leave_attaching env)
        (In old ResourceState.attaching)
        (Good old)
  unfolding leave_attaching
  leave_attaching-Good = record { apply = λ w h. ground arith }

  attach_device-Good :
      Triple
        (In old ResourceState.attaching)
        (attach_device env)
        (In old ResourceState.attaching)
        (Good old)
  unfolding attach_device
  attach_device-Good = record { apply = λ w h. ground arith }

  refresh_plugins-Good :
      (kind : String)
      → Triple
          (In old ResourceState.attaching)
          (refresh_plugins env kind)
          (In old ResourceState.attaching)
          (Good old)
  unfolding refresh_plugins
  refresh_plugins-Good kind = record { apply = λ w h. ground arith }

  go_online-Good : Triple (In old ResourceState.attaching) (go_online env) (Good old) (Good old)
  unfolding go_online
  go_online-Good = record { apply = λ w h. ground arith }

  pub handle_attaching_state-Good :
      Triple (In old ResourceState.attaching) (handle_attaching_state env) (Good old) (Good old)
  unfolding handle_attaching_state
  handle_attaching_state-Good = then-Triple leave_attaching-Good (
      then-Triple attach_device-Good
        (then-Triple (refresh_plugins-Good (env_kind env)) go_online-Good))

  pub handle_online-Good :
      Triple (Start old ResourceState.online) (handle_online_state env) (Good old) (Good old)
  unfolding handle_online_state
  handle_online-Good = record { apply = λ w h. ground arith }
