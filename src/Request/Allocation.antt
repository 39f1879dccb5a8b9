-- ===== src/Request/Allocation.antt =====
-- `handleNodeAllocatingState` of internal/controller/composabilityrequest_controller.go, from the
-- lists that it reads to the request that it writes. What it reads is one snapshot.
use composable_resource_oper.Common.{
  String, ℕ, ◌-◌, ◌+◌, Bool, true, false, not, Option, none, some, List, [], ◌∷◌, ◌&&◌, ◌||◌, ltb,
  if◌then◌else◌, ◌==◌, ◌!=◌, contains, string_eq, nat_eq, select,
}
use composable_resource_oper.Common.Dict.{Dict, erase}
use composable_resource_oper.Api.{
  Error, Result, ResourceState, ComposableResource, ScalarResourceStatus, ScalarResourceDetails,
  resource_state_eq,
}
use composable_resource_oper.Nodes.{Node, check_node_capacity_sufficient}

abbrev pub Resources : Type 0
Resources = Dict ScalarResourceStatus

-- Lines 227 to 235: leave out what is on its way out.
abbrev pub is_leaving : ResourceState → Bool
is_leaving ResourceState.detaching = true
is_leaving ResourceState.deleting = true
is_leaving _ = false

abbrev pub filtered : List ComposableResource → List ComposableResource
filtered = select (λ r. not (is_leaving r.status.state))

-- The variables of the first loop.
pub record Keep : Type 0 where
  pub to_allocate : ℕ
  pub to_delete : ℕ
  pub resources : Resources
  pub used_nodes : List String
  pub same_node : String

abbrev mismatched : ScalarResourceDetails → ComposableResource → Bool
mismatched d r =
    r.spec.type != d.type
    || (r.spec.model != d.model || force_differs d.force_detach r.spec.force_detach)
  where
    force_differs : Bool → Bool → Bool
    force_differs true b = not b
    force_differs false b = b

abbrev drop : Keep → ComposableResource → Keep
drop k r = record k { resources = erase r.meta.name k.resources }

abbrev keep : Keep → Keep
keep k = record k { to_allocate = k.to_allocate - 1 }

-- Lines 278 to 300.
unfoldable pub keep_by_policy : ScalarResourceDetails → Keep → ComposableResource → Keep
keep_by_policy d k r =
    let node = r.spec.target_node in
    if d.allocation_policy == "differentnode"
    then (if contains k.used_nodes node
        then drop k r
        else keep (record k { used_nodes = node ∷ k.used_nodes }))
    else if d.allocation_policy == "samenode"
    then (if k.same_node == ""
        then keep (record k { same_node = node })
        else if k.same_node != node
        then drop k r
        else keep k)
    else keep k

module _ (get_node : String → Result Node) (d : ScalarResourceDetails) where
  -- Lines 267 to 300. An error comes with the variables as they are.
  unfoldable pub keep_by_capacity : Keep → ComposableResource → Keep × Option Error
  unfolding keep_by_policy
  keep_by_capacity k r = elim d.other_spec [
    | none ↦ (keep_by_policy d k r, none)
    | some spec ↦ elim (check_node_capacity_sufficient get_node r.spec.target_node spec) [
      | Result.err e ↦ (k, some e)
      | Result.ok false ↦ (drop k r, none)
      | Result.ok true ↦ (keep_by_policy d k r, none)
    ]
  ]

  -- Lines 255 to 304: the body of the loop.
  unfoldable pub visit : Keep → ComposableResource → Keep × Option Error
  unfolding keep_by_capacity
  visit k r =
      if ltb 0 k.to_allocate
      then (if mismatched d r
          then (drop k r, none)
          else if d.target_node != "" && r.spec.target_node != d.target_node
          then (drop k r, none)
          else keep_by_capacity k r)
      else (record k { to_delete = k.to_delete + 1 }, none)

  unfoldable pub visit_all : Keep → List ComposableResource → Keep × Option Error
  visit_all k [] = (k, none)
  visit_all k (r ∷ rs) =
      let (k', e) = visit k r in elim e [ some x ↦ (k', some x) | none ↦ visit_all k' rs ]
