-- ===== src/Tests/Requests.antt =====
-- The controller of ComposabilityRequests, at concrete inputs.
use Prim.Native.String.{[], ◌∷◌, count}
use Prim.Native.Char.{code}
use Prim.Native.String.count
use composable_resource_oper.Common.{
  nat_eq, ap, sym, ◌∙◌, ℕ_discrete, string_dec, texts_differ, String, ℕ, zero, suc, Bool, none,
  some, List, [], ◌∷◌, true, false, refl, inl, arith, ◌≡◌, ◌≢◌, body, contains, string_eq, not,
  ◌&&◌, ◌==◌, if◌then◌else◌,
}
use composable_resource_oper.Common.Dict.{lookup, keys, has}
use composable_resource_oper.Api.{
  Result, ResourceState, RequestState, ComposableResource, ComposabilityRequest,
}
use composable_resource_oper.Nodes.{Node}
use composable_resource_oper.Request.Allocation.{
  Keep, visit_all, visit, keep_by_capacity, keep_by_policy,
}
use composable_resource_oper.Request.Priority.{delete_surplus}
use composable_resource_oper.Request.Effects.{Env, World, panicked, try, try_ok, finish_with_status}
use composable_resource_oper.Request.Policy.{Obeys, Permitted}
use composable_resource_oper.Request.Handlers.{
  start, reallocate, handle_updating_state, place_and_update, start_updating,
}
use composable_resource_oper.Request.Reconcile.{reconcile, sync_entry}
use composable_resource_oper.Request.Placement.{
  fresh_entry, place, place_together, place_apart, require_length, take_nodes, find_free_node,
  is_held,
}
use composable_resource_oper.Request.Writes.{reconcile-Permitted}
use composable_resource_oper.Request.Totality.{reconcile-total}
use composable_resource_oper.Request.Sizes.{Grown, reallocate-size}
use composable_resource_oper.Request.Choice.{
  Apart, Capable, FreeOf, place-Apart, find_free_node-free, place-nothing_left,
}
use composable_resource_oper.Request.Upkeep.{
  created_names, deleted_names, handle_updating_state-exact,
}
use composable_resource_oper.Request.Following.{follow, sync_entry-lookup}
use composable_resource_oper.Tests.Fixtures.{gpu, request, details}

abbrev node : String → Node
node name = record {
  name = name;
  cpu = some 8;
  memory = some 64;
  pods = some 100;
  ephemeral_storage = some 500;
}

abbrev nodes : List Node
nodes = node "node1" ∷ node "node2" ∷ []

abbrev gpu1 : String
gpu1 = "gpu1"

abbrev old_names : List String
old_names = "old" ∷ []

abbrev node_names : List String
node_names = "node1" ∷ "node2" ∷ []

-- "", "a", "aa" and so on
abbrev fresh : ℕ → String
fresh zero = ""
fresh (suc n) = "a" ∷ fresh n

count-fresh : (n : ℕ) → count (fresh n) ≡ n
count-fresh zero = refl
count-fresh (suc n) = count.cons "a" (fresh n) ∙ ap suc (count-fresh n)

fresh-inj : (j k : ℕ) → fresh j ≡ fresh k → j ≡ k
fresh-inj j k h = sym (count-fresh j) ∙ (ap count h ∙ count-fresh k)

fresh-new : (j : ℕ) → fresh j ≢ gpu1
fresh-new zero h = texts_differ refl h
fresh-new (suc j) h = ground (ap (λ s. starts s) h, arith)
  where
    starts : String → Bool
    starts [] = false
    starts (c ∷ s) = code c == 97

abbrev env : ComposabilityRequest → List ComposableResource → Env
env q items = record {
  get_request = λ _. Result.ok q;
  get_resource = λ _. Result.ok (gpu "gpu1" ResourceState.online "d1" none);
  get_node = λ name. Result.ok (node name);
  managed_by = λ _. Result.ok items;
  requests = Result.ok [];
  nodes = Result.ok nodes;
  update = λ _ _. none;
  update_status = λ _ _. none;
  delete_request = λ _ _. none;
  create = λ _ _. none;
  delete = λ _ _. none;
  parse_time = λ _. none;
  fresh_name = λ _. fresh;
}

abbrev apart : ComposabilityRequest
apart = request RequestState.node_allocating (details 2 "differentnode" "") []

abbrev updating : ComposabilityRequest
updating =
    request RequestState.updating (details 1 "samenode" "") (("gpu1", fresh_entry "node1") ∷ [])

reconcile-Permitted_example :
    Obeys
      (Permitted (env apart []) apart)
      (reconcile (env apart []) "request" (record { request = apart; log = [] })).1.log
reconcile-Permitted_example = reconcile-Permitted (env apart []) "request" apart apart refl

reconcile-total_example :
    (reconcile (env apart []) "request" (record { request = apart; log = [] })).0 ≢ panicked
reconcile-total_example =
    reconcile-total (env apart []) "request" (record { request = apart; log = [] })

handle_updating_state-exact_example :
    let w : World = record { request = updating; log = [] } in
    let e = env updating (gpu "old" ResourceState.online "d1" none ∷ []) in
    (contains (created_names (body (handle_updating_state e) w).1.log) gpu1
      ≡ (has gpu1 updating.status.resources && not (contains old_names gpu1)))
    × (contains (deleted_names (body (handle_updating_state e) w).1.log) gpu1
        ≡ (contains old_names gpu1 && not (has gpu1 updating.status.resources)))
handle_updating_state-exact_example =
    handle_updating_state-exact (env updating (gpu "old" ResourceState.online "d1" none ∷ []))
      (λ _ _. refl) (λ _ _. refl) (record { request = updating; log = [] })
      (gpu "old" ResourceState.online "d1" none ∷ []) gpu1 refl refl refl refl

abbrev get_node : String → Result Node
get_node name = Result.ok (node name)

abbrev keep_two : Keep
keep_two = start apart

two_nodes :
    place get_node apart.resource "request" [] nodes keep_two ≡ Result.ok ("node1" ∷ "node2" ∷ [])
unfolding place place_apart require_length take_nodes string_dec ℕ_discrete
two_nodes = refl

place-Apart_example : Apart get_node none [] ("node1" ∷ "node2" ∷ [])
place-Apart_example =
    place-Apart get_node apart.resource "request" [] nodes keep_two ("node1" ∷ "node2" ∷ []) refl
      two_nodes

abbrev together : ComposabilityRequest
together = request RequestState.node_allocating (details 2 "samenode" "") []

-- Another request holds the first node.
abbrev holder : ComposabilityRequest
holder = record updating { meta = record updating.meta { name = "holder" } }

found :
    find_free_node get_node together.resource "request" (holder ∷ []) nodes
    ≡ Result.ok (some "node2")
unfolding find_free_node is_held string_dec
found = refl

find_free_node-free_example :
    (contains node_names "node2" ≡ true)
    × Capable get_node none "node2"
    × FreeOf "request" (holder ∷ []) "node2"
find_free_node-free_example =
    find_free_node-free get_node together.resource "request" (holder ∷ []) nodes "node2" found

place-nothing_left_example :
    place get_node
      (details 0 "differentnode" "")
      "request"
      []
      nodes
      (start (request RequestState.node_allocating (details 0 "differentnode" "") []))
    ≢ Result.ok []
place-nothing_left_example =
    place-nothing_left get_node (details 0 "differentnode" "") "request" [] (node "node1")
      (node "node2" ∷ [])
      (start (request RequestState.node_allocating (details 0 "differentnode" "") [])) [] refl refl
      refl refl

sync_entry-lookup_example :
    let s = (gpu gpu1 ResourceState.online "d1" none).status in
    let d = updating.status.resources in
    (keys (sync_entry gpu1 s d) ≡ keys d)
    × (lookup gpu1 (sync_entry gpu1 s d)
        ≡ (if gpu1 == gpu1 then follow s (lookup gpu1 d) else lookup gpu1 d))
sync_entry-lookup_example =
    sync_entry-lookup gpu1 (gpu gpu1 ResourceState.online "d1" none).status
      updating.status.resources gpu1

abbrev one_of_two : ComposabilityRequest
one_of_two =
    request RequestState.node_allocating (details 2 "samenode" "")
      ((gpu1, fresh_entry "node1") ∷ [])

abbrev items : List ComposableResource
items = gpu gpu1 ResourceState.online "d1" none ∷ []

abbrev start_two : World
start_two = record { request = one_of_two; log = [] }

moved :
    (body (reallocate (env one_of_two items) items [] nodes) start_two).1.request.status.state
    ≡ RequestState.updating
unfolding reallocate visit_all visit keep_by_capacity keep_by_policy place_and_update delete_surplus
    place place_together start_updating try try_ok finish_with_status string_dec
moved = refl

reallocate-size_example :
    Grown
      (env one_of_two items)
      []
      nodes
      1
      start_two
      (body (reallocate (env one_of_two items) items [] nodes) start_two).1
reallocate-size_example =
    reallocate-size (env one_of_two items) [] nodes items start_two (inl refl)
      (
        refl,
        (refl, tt),
        (ground arith, refl, tt),
        refl,
        (λ j _. ground (arith, fresh-new j), fresh-inj),
      )
      moved
