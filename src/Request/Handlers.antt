-- ===== src/Request/Handlers.antt =====
-- The handlers of internal/controller/composabilityrequest_controller.go, one for each state.
use composable_resource_oper.Common.{
  String, Bool, true, false, Option, none, some, List, [], ◌∷◌, if◌then◌else◌, ◌==◌, ◌!=◌, contains,
  string_eq,
}
use composable_resource_oper.Common.{pure, return, skip, get, ◌>>=◌, ◌>>◌}
use composable_resource_oper.Common.Dict.{has}
use composable_resource_oper.Api.{
  ResourceState, RequestState, ComposableResource, ComposabilityRequest, ScalarResourceStatus,
  resource_state_eq, details_eq,
}
use composable_resource_oper.Nodes.{Node}
use composable_resource_oper.Request.Effects.{
  Env, Act, Ending, panicked, edit, set_state, set_error, set_resources, accept_spec, done, after,
  update, update_status, try, try_ok, finish_with_status, created, deleted,
}
use composable_resource_oper.Request.Allocation.{Resources, Keep, filtered, visit_all}
use composable_resource_oper.Request.Priority.{delete_surplus}
use composable_resource_oper.Request.Placement.{place, add_entries}

abbrev pub add_finalizer : ComposabilityRequest → ComposabilityRequest
add_finalizer q = record q { meta = record q.meta { has_finalizer = true } }

abbrev pub remove_finalizer : ComposabilityRequest → ComposabilityRequest
remove_finalizer q = record q { meta = record q.meta { has_finalizer = false } }

abbrev pub start : ComposabilityRequest → Keep
start q = record {
  to_allocate = q.resource.size;
  to_delete = 0;
  resources = q.status.resources;
  used_nodes = [];
  same_node = "";
}

module _ (env : Env) where
  unfoldable pub handle_none_state : Act Ending
  unfolding try finish_with_status
  handle_none_state = do
    w ← get
    if w.request.meta.has_finalizer
        then skip
        else (edit add_finalizer >> (update env >>= λ e. try env e))
    edit (set_state RequestState.node_allocating)
    edit (set_error "")
    edit accept_spec
    finish_with_status env

  -- The first statement of three handlers.
  unfoldable pub clean_when_deleted : Act (Unit {0})
  unfolding finish_with_status
  clean_when_deleted = do
    w ← get
    elim w.request.meta.deletion_timestamp [
      | none ↦ skip
      | some _ ↦
          edit (set_state RequestState.cleaning) >> (finish_with_status env >>= λ o. return o)
    ]

  -- Lines 474 to 484.
  unfoldable pub start_updating : List String → Act Ending
  unfolding finish_with_status
  start_updating nodes = do
    edit (λ q.
        set_resources (add_entries (env.fresh_name q.resource.type) 0 nodes q.status.resources) q)
    edit (set_state RequestState.updating)
    edit (set_error "")
    edit accept_spec
    finish_with_status env

  -- Lines 363 to 467, for the variables that the loops have left.
  unfoldable pub place_and_update :
      List ComposabilityRequest → List Node → Keep → Option Resources → Act Ending
  unfolding try_ok
  place_and_update requests nodes k none = return panicked
  place_and_update requests nodes k (some d) = do
    edit (set_resources d)
    w ← get
    chosen ← try_ok env (
        place env.get_node w.request.resource w.request.meta.name requests nodes
          (record k { resources = d }))
    start_updating chosen

  -- Lines 249 to 359, for the lists that were read.
  unfoldable pub reallocate :
      List ComposableResource → List ComposabilityRequest → List Node → Act Ending
  unfolding try
  reallocate items requests nodes = do
    w ← get
    let (k, e) = visit_all env.get_node w.request.resource (start w.request) items
    edit (set_resources k.resources)
    try env e
    place_and_update requests nodes k (delete_surplus env.parse_time k.to_delete items k.resources)

  unfoldable pub handle_node_allocating_state : Act Ending
  unfolding try_ok
  handle_node_allocating_state = do
    clean_when_deleted
    w ← get
    items ← try_ok env (env.managed_by w.request.meta.name)
    requests ← try_ok env env.requests
    nodes ← try_ok env env.nodes
    reallocate (filtered items) requests nodes

  abbrev pub delete_resource : ComposableResource → Act (Unit {0})
  delete_resource r w =
      let e = env.delete w.log r in try env e (record w { log = deleted r e ∷ w.log })

  -- Lines 509 to 519. The result holds the names of the resources that may stay.
  unfoldable pub delete_redundant : Resources → List ComposableResource → Act (List String)
  unfolding try
  delete_redundant d [] = pure []
  delete_redundant d (r ∷ rs) =
      if has r.meta.name d
      then (delete_redundant d rs >>= λ names. pure (r.meta.name ∷ names))
      else (delete_resource r >> delete_redundant d rs)

  abbrev pub new_resource :
      ComposabilityRequest → String → ScalarResourceStatus → ComposableResource
  new_resource q name v = record {
    meta = record {
      name = name;
      labels = ("app.kubernetes.io/managed-by", q.meta.name) ∷ [];
      annotations = [];
      has_finalizer = false;
      creation_timestamp = 0;
      deletion_timestamp = none;
    };
    spec = record {
      type = q.resource.type;
      model = q.resource.model;
      target_node = v.node_name;
      force_detach = q.resource.force_detach;
    };
    status = record { state = ResourceState.empty; error = ""; device_id = ""; cdi_device_id = "" };
  }

  abbrev pub create_resource : ComposableResource → Act (Unit {0})
  create_resource r w =
      let e = env.create w.log r in try env e (record w { log = created r e ∷ w.log })

  -- Lines 521 to 542.
  unfoldable pub create_missing : ComposabilityRequest → List String → Resources → Act (Unit {0})
  unfolding try
  create_missing q existed [] = skip
  create_missing q existed ((name, v) ∷ d) =
      if contains existed name
      then create_missing q existed d
      else (create_resource (new_resource q name v) >> create_missing q existed d)

  -- Lines 544 to 549.
  unfoldable pub all_online : Resources → Bool
  all_online [] = true
  all_online ((_, v) ∷ d) = if v.state != ResourceState.online then false else all_online d

  -- Lines 501 to 559.
  unfoldable pub bring_up : Act Ending
  unfolding try_ok finish_with_status
  bring_up = do
    w ← get
    items ← try_ok env (env.managed_by w.request.meta.name)
    existed ← delete_redundant w.request.status.resources items
    create_missing w.request existed w.request.status.resources
    if all_online w.request.status.resources
        then (edit (set_state RequestState.running)
            >> (edit (set_error "") >> (edit accept_spec >> finish_with_status env)))
        else pure (after 30)

  unfoldable pub handle_updating_state : Act Ending
  unfolding finish_with_status
  handle_updating_state = do
    clean_when_deleted
    w ← get
    if w.request.status.scalar_resource == w.request.resource
        then bring_up
        else (edit (set_state RequestState.node_allocating)
            >> (edit accept_spec >> finish_with_status env))

  -- `request.Status.Error = ""`, its update, and the return after 30 seconds
  abbrev pub settle : Act Ending
  settle = do edit (set_error ""); e ← update_status env; try env e; pure (after 30)

  unfoldable pub handle_running_state : Act Ending
  unfolding try finish_with_status
  handle_running_state = do
    clean_when_deleted
    w ← get
    if w.request.status.scalar_resource == w.request.resource
        then settle
        else (edit (set_state RequestState.node_allocating)
            >> (edit accept_spec >> finish_with_status env))

  -- Lines 600 to 604.
  unfoldable pub delete_all : List ComposableResource → Act (Unit {0})
  unfolding try
  delete_all [] = skip
  delete_all (r ∷ rs) = delete_resource r >> delete_all rs

  abbrev pub clean : List ComposableResource → Act Ending
  clean [] = edit (set_state RequestState.deleting) >> finish_with_status env
  clean (r ∷ rs) = delete_all (r ∷ rs) >> settle

  unfoldable pub handle_cleaning_state : Act Ending
  unfolding try_ok try finish_with_status
  handle_cleaning_state = do
    w ← get
    items ← try_ok env (env.managed_by w.request.meta.name)
    clean items

  unfoldable pub handle_deleting_state : Act Ending
  unfolding try
  handle_deleting_state = do edit remove_finalizer; e ← update env; try env e; pure done
