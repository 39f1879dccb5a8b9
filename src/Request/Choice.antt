-- ===== src/Request/Choice.antt =====
-- Which nodes `handleNodeAllocatingState` chooses.
use composable_resource_oper.Common.{
  Distinct, String, ℕ, ◌≤◌, true, false, not, ◌&&◌, Bool-cases, Option, some, List, [], ◌∷◌, ◌++◌,
  All, ◌≡◌, ◌≢◌, ◌⊎◌, inl, inr, refl, arith, length, length-append, ◌==◌, string_eq, nat_eq,
  contains, if◌then◌else◌, map, texts_differ, subst,
}
use composable_resource_oper.Api.{
  Result, Result-cases, ok_inj, ComposabilityRequest, ScalarResourceDetails, NodeSpec,
}
use composable_resource_oper.Nodes.{Node}
use composable_resource_oper.Request.Allocation.{Keep}
use composable_resource_oper.Request.Placement.{
  held_node, is_held, sufficient, find_free_node, take_nodes, require_length, place_apart, place,
}

-- No other request holds the node.
abbrev pub FreeOf : String → List ComposabilityRequest → String → Type 0
FreeOf me qs node = All (λ q. (q.meta.name ≡ me) ⊎ (held_node q ≢ node)) qs

is_held-FreeOf :
    (me : String) (qs : List ComposabilityRequest) (node : String)
    → is_held me qs node ≡ false
    → FreeOf me qs node
unfolding is_held
is_held-FreeOf me [] node h = tt
is_held-FreeOf me (q ∷ qs) node h = (ground arith, is_held-FreeOf me qs node (ground arith))

contains-append :
    (xs ys : List String) (a : String)
    → contains (xs ++ ys) a ≡ (if contains xs a then true else contains ys a)
contains-append [] ys a = refl
contains-append (x ∷ xs) ys a = ground (arith, contains-append xs ys a)

Distinct-append :
    (xs : List String) (a : String)
    → Distinct xs
    → contains xs a ≡ false
    → Distinct (xs ++ (a ∷ []))
Distinct-append [] a u h = (refl, tt)
Distinct-append (x ∷ xs) a (f, u) h =
    (ground (arith, contains-append xs (a ∷ []) x), Distinct-append xs a u (ground arith))

module _ (get_node : String → Result Node) (spec : Option NodeSpec) where
  -- A node that was read, with room for the request.
  abbrev pub Capable : String → Type 0
  Capable node = sufficient get_node spec node ≡ Result.ok true

  -- The nodes that differ from each other and from those in use, and have room.
  pub record Apart (used taken : List String) : Type 0 where
    pub distinct : Distinct taken
    pub unused : (node : String) → contains used node ≡ true → contains taken node ≡ false
    pub capable : (node : String) → contains taken node ≡ true → Capable node

  Apart-append :
      (used taken : List String) (node : String)
      → Apart used taken
      → Capable node
      → Apart used (
          if not (contains taken node) && not (contains used node)
          then taken ++ (node ∷ [])
          else taken)
  Apart-append used taken node a h = elim (Bool-cases (contains taken node)) [
    | inl t ↦ rw t a
    | inr t ↦ elim (Bool-cases (contains used node)) [
      | inl u ↦ rw (t, u) a
      | inr u ↦
          rw (t, u)
            (record {
              distinct = Distinct-append taken node a.distinct t;
              unused = λ x k. ground (arith, contains-append taken (node ∷ []) x, a.unused x);
              capable = λ x k. ground (arith, contains-append taken (node ∷ []) x, a.capable x);
            })
    ]
  ]

  take_nodes-Apart :
      (n : ℕ) (used taken : List String) (nodes : List Node) (chosen : List String)
      → Apart used taken
      → take_nodes get_node spec n used taken nodes ≡ Result.ok chosen
      → Apart used chosen
  unfolding take_nodes
  take_nodes-Apart n used taken [] chosen a h = subst (Apart used) (ok_inj h) a
  take_nodes-Apart n used taken (node ∷ nodes) chosen a h =
      elim (Result-cases (sufficient get_node spec node.name)) [
        | inr (x, e) ↦ absurd (ground arith)
        | inl (false, e) ↦ take_nodes-Apart n used taken nodes chosen a (ground arith)
        | inl (true, e) ↦
            let taken' =
              if not (contains taken node.name) && not (contains used node.name)
              then taken ++ (node.name ∷ [])
              else taken in
            let a' = Apart-append used taken node.name a e in
            elim (Bool-cases (length taken' == n)) [
              | inl l ↦ subst (Apart used) (ok_inj {a = taken'} (ground (l, arith))) a'
              | inr l ↦ take_nodes-Apart n used taken' nodes chosen a' (ground (l, arith))
            ]
      ]

module _ (get_node : String → Result Node) (spec : Option NodeSpec) where
  take_nodes-longer :
      (n : ℕ) (used taken : List String) (nodes : List Node) (chosen : List String)
      → take_nodes get_node spec n used taken nodes ≡ Result.ok chosen
      → length taken ≤ length chosen
  unfolding take_nodes
  take_nodes-longer n used taken [] chosen h = rw (ok_inj h) (omega arith)
  take_nodes-longer n used taken (node ∷ nodes) chosen h = ground (
    arith,
    length-append taken (node.name ∷ []),
    take_nodes-longer n used taken nodes chosen,
    take_nodes-longer n used (taken ++ (node.name ∷ [])) nodes chosen,
  )

differ : ◌≢◌ {A = String} "differentnode" "samenode"
differ = texts_differ refl

-- Under the policy "differentnode", the nodes chosen for the resources still to be allocated differ from
-- each other and from the nodes of the resources that stay, and each has room for `other_spec`.
pub place-Apart :
    (get_node : String → Result Node) (d : ScalarResourceDetails) (me : String)
    (qs : List ComposabilityRequest) (nodes : List Node) (k : Keep) (chosen : List String)
    → d.allocation_policy ≡ "differentnode"
    → place get_node d me qs nodes k ≡ Result.ok chosen
    → Apart get_node d.other_spec k.used_nodes chosen
unfolding place place_apart require_length
place-Apart get_node d me qs nodes k chosen p h =
    take_nodes-Apart get_node d.other_spec k.to_allocate k.used_nodes [] nodes chosen
      (record { distinct = tt; unused = λ _ _. refl; capable = λ _ c. ground arith })
      (ground (arith, differ))

-- With nothing left to allocate, the policy "differentnode" fails all the same where the first node has
-- room and is not in use: the length of the list is compared once that node is on it.
pub place-nothing_left :
    (get_node : String → Result Node) (d : ScalarResourceDetails) (me : String)
    (qs : List ComposabilityRequest) (node : Node) (nodes : List Node) (k : Keep)
    (chosen : List String)
    → d.allocation_policy ≡ "differentnode"
    → k.to_allocate ≡ 0
    → sufficient get_node d.other_spec node.name ≡ Result.ok true
    → contains k.used_nodes node.name ≡ false
    → place get_node d me qs (node ∷ nodes) k ≢ Result.ok chosen
unfolding place place_apart require_length take_nodes
place-nothing_left get_node d me qs node nodes k chosen p z c u h = ground (
  arith,
  differ,
  take_nodes-longer get_node d.other_spec k.to_allocate k.used_nodes (node.name ∷ []) nodes chosen,
)

module _ (get_node : String → Result Node) (d : ScalarResourceDetails) (me : String)
    (qs : List ComposabilityRequest) where
  -- The first node that has room and that no other request holds.
  pub find_free_node-free :
      (nodes : List Node) (node : String)
      → find_free_node get_node d me qs nodes ≡ Result.ok (some node)
      → (contains (map (λ n. n.name) nodes) node ≡ true)
        × Capable get_node d.other_spec node
        × FreeOf me qs node
  unfolding find_free_node
  find_free_node-free [] node h = absurd (ground arith)
  find_free_node-free (n ∷ nodes) node h =
      elim (Result-cases (sufficient get_node d.other_spec n.name)) [
        | inr (x, e) ↦ absurd (ground arith)
        | inl (false, e) ↦ ground (arith, find_free_node-free nodes node)
        | inl (true, e) ↦ elim (Bool-cases (is_held me qs n.name)) [
          | inl b ↦ ground (arith, find_free_node-free nodes node)
          | inr b ↦
              let same : n.name ≡ node = ground arith in
              (
                ground arith,
                subst (Capable get_node d.other_spec) same e,
                subst (FreeOf me qs) same (is_held-FreeOf me qs n.name b),
              )
        ]
      ]
