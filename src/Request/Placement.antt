-- ===== src/Request/Placement.antt =====
-- Lines 363 to 479 of internal/controller/composabilityrequest_controller.go: the nodes for the
-- resources that are still to be allocated, and their entries in the status.
use composable_resource_oper.Common.{
  String, ℕ, suc, Bool, true, false, not, Option, none, some, List, [], ◌∷◌, ◌++◌, ◌&&◌, ◌||◌,
  if◌then◌else◌, ◌==◌, ◌!=◌, contains, string_eq, nat_eq, length, replicate,
}
use composable_resource_oper.Common.Dict.{insert}
use composable_resource_oper.Api.{
  Result, ResourceState, ComposabilityRequest, ScalarResourceStatus, ScalarResourceDetails,
  NodeSpec,
}
use composable_resource_oper.Nodes.{
  Node, errorf, check_node_capacity_sufficient, check_node_existed,
}
use composable_resource_oper.Request.Allocation.{Resources, Keep}

-- Lines 413 to 425: the node that another request holds; "" if it holds none.
abbrev pub first_node : Resources → String
first_node [] = ""
first_node ((_, v) ∷ d) = v.node_name

abbrev pub held_node : ComposabilityRequest → String
held_node q =
    if q.resource.allocation_policy == "samenode"
    then (if q.resource.target_node == ""
        then first_node q.status.resources
        else q.resource.target_node)
    else ""

-- Lines 406 to 430.
unfoldable pub is_held : String → List ComposabilityRequest → String → Bool
is_held me [] node = false
is_held me (q ∷ qs) node = (q.meta.name != me && held_node q == node) || is_held me qs node

module _ (get_node : String → Result Node) where
  abbrev pub sufficient : Option NodeSpec → String → Result Bool
  sufficient none node = Result.ok true
  sufficient (some spec) node = check_node_capacity_sufficient get_node node spec

  -- Lines 365 to 385.
  unfoldable pub place_on_target : ScalarResourceDetails → ℕ → Result (List String)
  place_on_target d n = elim (check_node_existed get_node d.target_node) [
    | some _ ↦ Result.err (errorf "the target node does not existed")
    | none ↦ elim (sufficient d.other_spec d.target_node) [
      | Result.err e ↦ Result.err e
      | Result.ok false ↦ Result.err (errorf "TargetNode does not meet spec's requirements")
      | Result.ok true ↦ Result.ok (replicate n d.target_node)
    ]
  ]

  -- Lines 395 to 436: the first node with room that no other request holds.
  unfoldable pub find_free_node :
      ScalarResourceDetails
      → String
      → List ComposabilityRequest
      → List Node
      → Result (Option String)
  find_free_node d me qs [] = Result.ok none
  find_free_node d me qs (node ∷ nodes) =
      let rest = find_free_node d me qs nodes in
      elim (sufficient d.other_spec node.name) [
        | Result.err e ↦ Result.err e
        | Result.ok false ↦ rest
        | Result.ok true ↦ if is_held me qs node.name then rest else Result.ok (some node.name)
      ]

  abbrev insufficient : {A : Type 0} → Result A
  insufficient = Result.err (errorf "insufficient number of available nodes")

  -- Lines 432 to 441: `len(allocatingNodes) != resourcesToAllocate` is tested at the end.
  unfoldable pub place_on_found : ℕ → Result (Option String) → Result (List String)
  place_on_found n (Result.err e) = Result.err e
  place_on_found n (Result.ok (some node)) = Result.ok (replicate n node)
  place_on_found n (Result.ok none) = if n == 0 then Result.ok [] else insufficient

  -- Lines 386 to 443.
  unfoldable pub place_together :
      ScalarResourceDetails
      → String
      → List ComposabilityRequest
      → List Node
      → Keep
      → Result (List String)
  place_together d me qs nodes k = elim k.resources [
    | [] ↦ place_on_found k.to_allocate (find_free_node d me qs nodes)
    | _ ∷ _ ↦ Result.ok (replicate k.to_allocate k.same_node)
  ]

  -- Lines 445 to 461: the loop, from the nodes taken so far.
  unfoldable pub take_nodes :
      Option NodeSpec → ℕ → List String → List String → List Node → Result (List String)
  take_nodes spec n used taken [] = Result.ok taken
  take_nodes spec n used taken (node ∷ nodes) =
      let free = not (contains taken node.name) && not (contains used node.name) in
      let taken' = if free then taken ++ (node.name ∷ []) else taken in
      let skip = take_nodes spec n used taken nodes in
      let rest = take_nodes spec n used taken' nodes in
      elim (sufficient spec node.name) [
        | Result.err e ↦ Result.err e
        | Result.ok false ↦ skip
        | Result.ok true ↦ if length taken' == n then Result.ok taken' else rest
      ]

  -- Lines 463 to 466.
  unfoldable pub require_length : ℕ → Result (List String) → Result (List String)
  require_length n (Result.err e) = Result.err e
  require_length n (Result.ok nodes) = if length nodes == n then Result.ok nodes else insufficient

  unfoldable pub place_apart : ScalarResourceDetails → List Node → Keep → Result (List String)
  unfolding require_length take_nodes
  place_apart d nodes k =
      require_length k.to_allocate (take_nodes d.other_spec k.to_allocate k.used_nodes [] nodes)

  -- Lines 364 to 467.
  unfoldable pub place :
      ScalarResourceDetails
      → String
      → List ComposabilityRequest
      → List Node
      → Keep
      → Result (List String)
  unfolding place_on_target place_together place_on_found place_apart
  place d me qs nodes k =
      if d.allocation_policy == "samenode"
      then (if d.target_node == ""
          then place_together d me qs nodes k
          else place_on_target d k.to_allocate)
      else if d.allocation_policy == "differentnode"
      then place_apart d nodes k
      else Result.ok []

abbrev pub fresh_entry : String → ScalarResourceStatus
fresh_entry node = record {
  state = ResourceState.empty;
  device_id = "";
  cdi_device_id = "";
  node_name = node;
  error = "";
}

-- Lines 474 to 479, with the names that `GenerateComposableResourceName` gives one after another.
unfoldable pub add_entries : (ℕ → String) → ℕ → List String → Resources → Resources
add_entries fresh i [] d = d
add_entries fresh i (node ∷ nodes) d =
    add_entries fresh (suc i) nodes (insert (fresh i) (fresh_entry node) d)
