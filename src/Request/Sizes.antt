-- ===== src/Request/Sizes.antt =====
-- How many entries a request has once `handleNodeAllocatingState` has allocated its nodes.
use composable_resource_oper.Common.{
  String, ℕ, suc, ◌+◌, ◌≤◌, false, Option, none, some, List, [], ◌∷◌, ◌≡◌, ◌⊎◌, refl, arith, length,
  length-replicate, string_eq, nat_eq, body, ◌>>=◌, ◌>>◌,
}
use composable_resource_oper.Common.Dict.{has, insert, has-insert, length-insert_new, NodupKeys}
use composable_resource_oper.Api.{
  Error, Result, RequestState, ComposableResource, ComposabilityRequest, ScalarResourceDetails,
  ScalarResourceStatus,
}
use composable_resource_oper.Nodes.{Node}
use composable_resource_oper.Request.Effects.{
  Env, World, Act, Ending, try, try_ok, requeue_on_err, finish_with_status, set_resources,
}
use composable_resource_oper.Request.Allocation.{Resources, Keep, visit_all}
use composable_resource_oper.Request.Priority.{delete_surplus}
use composable_resource_oper.Request.Placement.{
  find_free_node, place_on_target, place_on_found, place_together, take_nodes, require_length,
  place_apart, place, fresh_entry, add_entries,
}
use composable_resource_oper.Request.Handlers.{start, start_updating, place_and_update, reallocate}
use composable_resource_oper.Request.Counting.{
  visit_all-absent, Tracked, Counted, visit_all-Counted,
}
use composable_resource_oper.Request.Surplus.{delete_surplus-absent, delete_surplus-some}

-- The values that the custom resource definition allows
abbrev pub Placed : ScalarResourceDetails → Type 0
Placed d = (d.allocation_policy ≡ "samenode") ⊎ (d.allocation_policy ≡ "differentnode")

module _ (get_node : String → Result Node) (d : ScalarResourceDetails) (me : String)
    (qs : List ComposabilityRequest) (nodes : List Node) (k : Keep) where
  place_on_found-length :
      (n : ℕ) (x : Result (Option String)) (chosen : List String)
      → place_on_found get_node n x ≡ Result.ok chosen
      → length chosen ≡ n
  unfolding place_on_found
  place_on_found-length n (Result.err e) chosen h = ground arith
  place_on_found-length n (Result.ok none) chosen h = ground arith
  place_on_found-length n (Result.ok (some node)) chosen h = ground (arith, length-replicate n node)

  place_on_target-length :
      (n : ℕ) (chosen : List String)
      → place_on_target get_node d n ≡ Result.ok chosen
      → length chosen ≡ n
  unfolding place_on_target
  place_on_target-length n chosen h = ground (arith, length-replicate n d.target_node)

  place_together-length :
      (chosen : List String)
      → place_together get_node d me qs nodes k ≡ Result.ok chosen
      → length chosen ≡ k.to_allocate
  unfolding place_together
  place_together-length chosen h = ground (
    arith,
    length-replicate k.to_allocate k.same_node,
    place_on_found-length k.to_allocate (find_free_node get_node d me qs nodes) chosen,
  )

  require_length-length :
      (n : ℕ) (x : Result (List String)) (chosen : List String)
      → require_length get_node n x ≡ Result.ok chosen
      → length chosen ≡ n
  unfolding require_length
  require_length-length n (Result.err e) chosen h = ground arith
  require_length-length n (Result.ok c) chosen h = ground arith

  -- A placement that succeeds has a node for each resource that is to be allocated.
  pub place-length :
      (chosen : List String)
      → Placed d
      → place get_node d me qs nodes k ≡ Result.ok chosen
      → length chosen ≡ k.to_allocate
  unfolding place place_apart
  place-length chosen p h = ground (
    arith,
    place_together-length chosen,
    place_on_target-length k.to_allocate chosen,
    require_length-length k.to_allocate
        (take_nodes get_node d.other_spec k.to_allocate k.used_nodes [] nodes) chosen,
  )

-- Names that are new, from the `i`-th on.
abbrev pub Fresh : (ℕ → String) → ℕ → Resources → Type 0
Fresh fresh i d =
    ((j : ℕ) → i ≤ j → has (fresh j) d ≡ false) × ((j k : ℕ) → fresh j ≡ fresh k → j ≡ k)

Fresh-insert :
    (fresh : ℕ → String) (i : ℕ) (v : ScalarResourceStatus) (d : Resources)
    → Fresh fresh i d
    → Fresh fresh (suc i) (insert (fresh i) v d)
Fresh-insert fresh i v d (absent, inj) = (
  λ j h. ground (arith, has-insert (fresh j) (fresh i) v d, absent j (omega arith), inj j i),
  inj,
)

length-add_entries :
    (fresh : ℕ → String) (i : ℕ) (nodes : List String) (d : Resources)
    → Fresh fresh i d
    → length (add_entries fresh i nodes d) ≡ length nodes + length d
unfolding add_entries
length-add_entries fresh i [] d f = omega arith
length-add_entries fresh i (node ∷ nodes) d f = omega (
  arith,
  length-add_entries fresh (suc i) nodes (insert (fresh i) (fresh_entry node) d)
      (Fresh-insert fresh i (fresh_entry node) d f),
  length-insert_new (fresh i) (fresh_entry node) d (f.0 i (omega arith)),
)

module _ (env : Env) (requests : List ComposabilityRequest) (nodes : List Node) where
  start_updating-length :
      (chosen : List String) (w : World)
      → Fresh (env.fresh_name w.request.resource.type) 0 w.request.status.resources
      → length (body (start_updating env chosen) w).1.request.status.resources
        ≡ length chosen + length w.request.status.resources
  unfolding start_updating finish_with_status
  start_updating-length chosen w f =
      length-add_entries (env.fresh_name w.request.resource.type) 0 chosen
        w.request.status.resources f

  try_ok-length :
      (x : Result (List String)) (n : ℕ) (w : World)
      → ((chosen : List String) → x ≡ Result.ok chosen → length chosen ≡ n)
      → Fresh (env.fresh_name w.request.resource.type) 0 w.request.status.resources
      → w.request.status.state ≡ RequestState.node_allocating
      → (body (try_ok env x >>= start_updating env) w).1.request.status.state
        ≡ RequestState.updating
      → length (body (try_ok env x >>= start_updating env) w).1.request.status.resources
        ≡ n + length w.request.status.resources
  unfolding try_ok requeue_on_err
  try_ok-length (Result.ok chosen) n w h f s u =
      omega (arith, h chosen refl, start_updating-length chosen w f)
  try_ok-length (Result.err x) n w h f s u = absurd (ground arith)

  place_and_update-length :
      (k : Keep) (d : Resources) (w : World)
      → Placed w.request.resource
      → Fresh (env.fresh_name w.request.resource.type) 0 d
      → w.request.status.state ≡ RequestState.node_allocating
      → (body (place_and_update env requests nodes k (some d)) w).1.request.status.state
        ≡ RequestState.updating
      → length (body (place_and_update env requests nodes k (some d)) w).1.request.status.resources
        ≡ k.to_allocate + length d
  unfolding place_and_update
  place_and_update-length k d w p f s u =
      let k' = record k { resources = d } in
      try_ok-length (place env.get_node w.request.resource w.request.meta.name requests nodes k')
        k.to_allocate (record w { request = set_resources d w.request })
        (λ chosen.
          place-length env.get_node w.request.resource w.request.meta.name requests nodes k' chosen
            p)
        f s u

  try-moved :
      (o : Option Error) (m : Act Ending) (w : World)
      → w.request.status.state ≡ RequestState.node_allocating
      → (body (try env o >> m) w).1.request.status.state ≡ RequestState.updating
      → (o ≡ none) × ((body (try env o >> m) w).1 ≡ (body m w).1)
  unfolding try requeue_on_err
  try-moved none m w s u = (refl, refl)
  try-moved (some e) m w s u = absurd (ground arith)

  -- What `handleNodeAllocatingState` finds before its first allocation of a change: each entry of the status
  -- has its resource among those that are not on their way out.
  abbrev pub InStep : List ComposableResource → World → Type 0
  InStep items w =
      (w.request.status.state ≡ RequestState.node_allocating)
      × NodupKeys w.request.status.resources
      × Tracked w.request.status.resources items
      × (length w.request.status.resources ≡ length items)
      × Fresh (env.fresh_name w.request.resource.type) 0 w.request.status.resources

  -- What a step makes of the number of entries, for a request that had `before` of them.
  abbrev pub Grown : ℕ → World → World → Type 0
  Grown before w w' =
      (w.request.resource.size ≤ length w'.request.status.resources)
      × (before ≤ w.request.resource.size
          → length w'.request.status.resources ≡ w.request.resource.size)

  planned-size :
      (items : List ComposableResource) (k k' : Keep) (d : Resources) (w : World)
      → Placed w.request.resource
      → Counted k items k'
      → k.to_allocate ≡ w.request.resource.size
      → k.to_delete ≡ 0
      → length k.resources ≡ length items
      → length k'.resources ≤ length d + k'.to_delete
      → length d ≤ length k'.resources
      → Fresh (env.fresh_name w.request.resource.type) 0 d
      → w.request.status.state ≡ RequestState.node_allocating
      → (body (place_and_update env requests nodes k' (some d)) w).1.request.status.state
        ≡ RequestState.updating
      → Grown (length items) w (body (place_and_update env requests nodes k' (some d)) w).1
  planned-size items k k' d w p c a z l r g f s moved =
      let total = place_and_update-length k' d w p f s moved in
      (
        omega (arith, total, c.balance, c.surplus_bound, c.surplus_last),
        λ few. omega (arith, total, c.balance, c.surplus_bound, c.surplus_last),
      )

  -- Where a reallocation ends in `Updating`, the status has at least as many entries as the request
  -- wants, and has exactly as many where no more than these were there before. Before it, each entry
  -- has its resource, no other resource is there, and the names that are generated are new.
  pub reallocate-size :
      (items : List ComposableResource) (w : World)
      → Placed w.request.resource
      → InStep items w
      → (body (reallocate env items requests nodes) w).1.request.status.state
        ≡ RequestState.updating
      → Grown (length items) w (body (reallocate env items requests nodes) w).1
  unfolding reallocate
  reallocate-size items w p (s, u, t, l, f) moved =
      let k0 = start w.request in
      let d = w.request.resource in
      let k = (visit_all env.get_node d k0 items).0 in
      let e = (visit_all env.get_node d k0 items).1 in
      let w' = record w { request = set_resources k.resources w.request } in
      let o = delete_surplus env.parse_time k.to_delete items k.resources in
      let next = place_and_update env requests nodes k o in
      let (fine, same) = try-moved e next w' s moved in
      let c : Counted k0 items k =
        visit_all-Counted env.get_node d k0 items u t (λ i. (k, fine i)) in
      let (d', q, shorter, longer, v) =
        delete_surplus-some env.parse_time k.to_delete items k.resources
          (omega (arith, c.surplus_bound)) c.nodup in
      let f' : Fresh (env.fresh_name d.type) 0 d' = (
        λ j h.
            delete_surplus-absent env.parse_time k.to_delete items (env.fresh_name d.type j)
              k.resources d'
              (visit_all-absent env.get_node d (env.fresh_name d.type j) k0 items (f.0 j h)) q,
        f.1,
      ) in
      rw (same, q)
        (planned-size items k0 k d' w' p c refl refl l shorter longer f' s (rw (← q, ← same) moved))
