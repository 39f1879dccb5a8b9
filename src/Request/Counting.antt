-- ===== src/Request/Counting.antt =====
-- What the first loop of `handleNodeAllocatingState` counts.
use composable_resource_oper.Common.{
  String, suc, ◌+◌, ◌-◌, ◌≤◌, ◌<◌, true, false, none, List, [], ◌∷◌, ◌≡◌, ◌⊎◌, inl, inr, refl,
  arith, length, string_eq, contains, ap, Option-cases,
}
use composable_resource_oper.Common.Dict.{
  NodupKeys, erase, erase-NodupKeys, has, has-erase, length-erase,
}
use composable_resource_oper.Api.{Result, ComposableResource, ScalarResourceDetails}
use composable_resource_oper.Nodes.{Node}
use composable_resource_oper.Request.Allocation.{
  Resources, Keep, keep_by_policy, keep_by_capacity, visit, visit_all,
}

abbrev pub names : List ComposableResource → List String
names [] = []
names (r ∷ rs) = r.meta.name ∷ names rs

-- Every resource has its entry in the status, and no two have one name.
abbrev pub Tracked : Resources → List ComposableResource → Type 0
Tracked d [] = Unit {0}
Tracked d (r ∷ rs) =
    (has r.meta.name d ≡ true) × (contains (names rs) r.meta.name ≡ false) × Tracked d rs

Tracked-erase :
    (k : String) (d : Resources) (rs : List ComposableResource)
    → contains (names rs) k ≡ false
    → Tracked d rs
    → Tracked (erase k d) rs
Tracked-erase k d [] a h = tt
Tracked-erase k d (r ∷ rs) a h = ground (arith, Tracked-erase k d rs, has-erase r.meta.name k d)

-- The sums that the loop keeps, for resources with entries of their own.
pub record Counted (k : Keep) (items : List ComposableResource) (k' : Keep) : Type 0 where
  pub nodup : NodupKeys k'.resources
  pub balance :
      length k'.resources + length items + k'.to_allocate + k.to_delete
      ≡ length k.resources + k.to_allocate + k'.to_delete
  pub surplus_last : 0 < k'.to_allocate → k'.to_delete ≡ k.to_delete
  pub shrinks : k'.to_allocate ≤ k.to_allocate
  pub surplus_bound : k'.to_delete ≤ k.to_delete + (length items - k.to_allocate)

module _ (get_node : String → Result Node) (d : ScalarResourceDetails) where
  -- One round of the loop: a surplus resource is counted and stays, another stays and is counted
  -- as allocated, or loses its entry.
  abbrev Round : Keep → ComposableResource → Keep → Type 0
  Round k r k' =
      ((k.to_allocate ≡ 0)
        × (k'.to_allocate ≡ 0)
        × (k'.to_delete ≡ suc k.to_delete)
        × (k'.resources ≡ k.resources))
      ⊎ ((suc k'.to_allocate ≡ k.to_allocate)
          × (k'.to_delete ≡ k.to_delete)
          × (k'.resources ≡ k.resources))
      ⊎ ((0 < k.to_allocate)
          × (k'.to_allocate ≡ k.to_allocate)
          × (k'.to_delete ≡ k.to_delete)
          × (k'.resources ≡ erase r.meta.name k.resources))

  visit-Round :
      (k : Keep) (r : ComposableResource)
      → (visit get_node d k r).1 ≡ none
      → Round k r (visit get_node d k r).0
  unfolding visit
  visit-Round k r h = ground arith

  Round-Tracked :
      (k : Keep) (r : ComposableResource) (rs : List ComposableResource) (k' : Keep)
      → NodupKeys k.resources
      → Tracked k.resources (r ∷ rs)
      → Round k r k'
      → NodupKeys k'.resources × Tracked k'.resources rs
  Round-Tracked k r rs k' u (_, a, t) h = elim h [
    | inl s ↦ rw s.3 (u, t)
    | inr o ↦ elim o [
      | inl s ↦ rw s.2 (u, t)
      | inr s ↦
          rw s.3 (
            erase-NodupKeys r.meta.name k.resources u,
            Tracked-erase r.meta.name k.resources rs a t,
          )
    ]
  ]

  Round-Counted :
      (k : Keep) (r : ComposableResource) (rs : List ComposableResource) (k' k'' : Keep)
      → NodupKeys k.resources
      → has r.meta.name k.resources ≡ true
      → Round k r k'
      → Counted k' rs k''
      → Counted k (r ∷ rs) k''
  Round-Counted k r rs k' k'' u t h c = ground (arith, length-erase r.meta.name k.resources u)

  pub visit_all-Counted :
      (k : Keep) (rs : List ComposableResource) {k' : Keep}
      → NodupKeys k.resources
      → Tracked k.resources rs
      → visit_all get_node d k rs ≡ (k', none)
      → Counted k rs k'
  unfolding visit_all
  visit_all-Counted k [] {k'} u t e = rw (← ap (λ x. x.0) e) (record {
    nodup = u;
    balance = omega arith;
    surplus_last = λ _. refl;
    shrinks = omega arith;
    surplus_bound = omega arith;
  })
  visit_all-Counted k (r ∷ rs) {k'} u t e = elim (Option-cases (visit get_node d k r).1) [
    | inr (x, failed) ↦ absurd (ground arith)
    | inl h ↦
        let round = visit-Round k r h in
        let (u', t') = Round-Tracked k r rs (visit get_node d k r).0 u t round in
        Round-Counted k r rs (visit get_node d k r).0 k' u t.0 round
          (visit_all-Counted (visit get_node d k r).0 rs u' t' (ground arith))
  ]

  visit-surplus :
      (k : Keep) (r : ComposableResource) → (visit get_node d k r).0.to_delete ≤ suc k.to_delete
  unfolding visit keep_by_capacity keep_by_policy
  visit-surplus k r = ground arith

  -- The surplus is never more than there are resources.
  pub visit_all-surplus :
      (k : Keep) (rs : List ComposableResource)
      → (visit_all get_node d k rs).0.to_delete ≤ k.to_delete + length rs
  unfolding visit_all
  visit_all-surplus k [] = omega arith
  visit_all-surplus k (r ∷ rs) =
      ground (arith, visit-surplus k r, visit_all-surplus (visit get_node d k r).0 rs)

  visit-absent :
      (x : String) (k : Keep) (r : ComposableResource)
      → has x k.resources ≡ false
      → has x (visit get_node d k r).0.resources ≡ false
  unfolding visit keep_by_capacity keep_by_policy
  visit-absent x k r h = ground (arith, has-erase x r.meta.name k.resources)

  -- The loop adds no entry.
  pub visit_all-absent :
      (x : String) (k : Keep) (rs : List ComposableResource)
      → has x k.resources ≡ false
      → has x (visit_all get_node d k rs).0.resources ≡ false
  unfolding visit_all
  visit_all-absent x k [] h = h
  visit_all-absent x k (r ∷ rs) h =
      ground (arith, visit-absent x k r h, visit_all-absent x (visit get_node d k r).0 rs)
