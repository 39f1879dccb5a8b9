-- ===== src/Request/Surplus.antt =====
-- The deletion of surplus resources: it ends, and takes the right number.
use composable_resource_oper.Common.{
  String, ℕ, zero, suc, ◌+◌, ◌-◌, ◌≤◌, ◌<◌, false, Option, none, some, List, [], ◌∷◌, ◌≡◌, ◌≢◌,
  refl, arith, length, length-append, string_eq, nat_eq,
}
use composable_resource_oper.Common.Dict.{
  NodupKeys, erase, erase-NodupKeys, has, has-erase, length-erase_le,
}
use composable_resource_oper.Api.{ComposableResource}
use composable_resource_oper.Request.Allocation.{Resources}
use composable_resource_oper.Request.Priority.{
  PrioritizedResource, level, insert_sorted, sort, at_level, by_deletion_priority, delete_first,
  delete_surplus,
}

length-insert_sorted :
    (p : PrioritizedResource) (ps : List PrioritizedResource)
    → length (insert_sorted p ps) ≡ suc (length ps)
length-insert_sorted p [] = refl
length-insert_sorted p (q ∷ qs) = ground (arith, length-insert_sorted p qs)

length-sort : (ps : List PrioritizedResource) → length (sort ps) ≡ length ps
length-sort [] = refl
length-sort (p ∷ ps) = omega (arith, length-insert_sorted p (sort ps), length-sort ps)

level-lt : (r : ComposableResource) → level r < 5
unfolding level
level-lt r = ground arith

module _ (parse : String → Option ℕ) where
  length-at_levels :
      (rs : List ComposableResource)
      → length (at_level parse 0 rs)
          + length (at_level parse 1 rs)
          + length (at_level parse 2 rs)
          + length (at_level parse 3 rs)
          + length (at_level parse 4 rs)
        ≡ length rs
  unfolding at_level
  length-at_levels [] = refl
  length-at_levels (r ∷ rs) = ground (arith, length-at_levels rs, level-lt r)

  -- Every resource stands on one of the five lists.
  pub length-by_deletion_priority :
      (rs : List ComposableResource) → length (by_deletion_priority parse rs) ≡ length rs
  unfolding by_deletion_priority
  length-by_deletion_priority rs =
      omega (arith, length-append {0}, length-sort, length-at_levels rs)

delete_first-some :
    (n : ℕ) (ps : List PrioritizedResource) (d : Resources)
    → 0 < n
    → n ≤ length ps
    → NodupKeys d
    → (d' : Resources) × (delete_first n ps d ≡ some d')
      × (length d ≤ length d' + n)
      × (length d' ≤ length d)
      × NodupKeys d'
unfolding delete_first
delete_first-some n [] d pos h u = absurd (omega arith)
delete_first-some zero (p ∷ ps) d pos h u = elim pos [ ]
delete_first-some (suc zero) (p ∷ ps) d pos h u = (
  erase p.name d,
  ground arith,
  omega (arith, length-erase_le p.name d u),
  omega (arith, length-erase_le p.name d u),
  erase-NodupKeys p.name d u,
)
delete_first-some (suc (suc n)) (p ∷ ps) d pos h u =
    let (d', e, l, m, v) =
      delete_first-some (suc n) ps (erase p.name d) (omega arith) (omega arith)
        (erase-NodupKeys p.name d u) in
    (
      d',
      ground arith,
      omega (arith, length-erase_le p.name d u),
      omega (arith, length-erase_le p.name d u),
      v,
    )

-- With no more to delete than there are resources, the deletion ends without a panic, and takes at
-- most that many entries.
pub delete_surplus-some :
    (parse : String → Option ℕ) (n : ℕ) (items : List ComposableResource) (d : Resources)
    → n ≤ length items
    → NodupKeys d
    → (d' : Resources) × (delete_surplus parse n items d ≡ some d')
      × (length d ≤ length d' + n)
      × (length d' ≤ length d)
      × NodupKeys d'
unfolding delete_surplus
delete_surplus-some parse zero items d h u = (d, refl, omega arith, omega arith, u)
delete_surplus-some parse (suc n) items d h u =
    delete_first-some (suc n) (by_deletion_priority parse items) d (omega arith)
      (omega (arith, length-by_deletion_priority parse items)) u

delete_first-total :
    (n : ℕ) (ps : List PrioritizedResource) (d : Resources)
    → 0 < n
    → n ≤ length ps
    → delete_first n ps d ≢ none
unfolding delete_first
delete_first-total n [] d pos h = absurd (omega arith)
delete_first-total n (p ∷ ps) d pos h =
    ground (arith, delete_first-total (n - 1) ps (erase p.name d))

-- The indices of the loop stay within the five lists.
pub delete_surplus-total :
    (parse : String → Option ℕ) (n : ℕ) (items : List ComposableResource) (d : Resources)
    → n ≤ length items
    → delete_surplus parse n items d ≢ none
unfolding delete_surplus
delete_surplus-total parse zero items d h = ground arith
delete_surplus-total parse (suc n) items d h =
    delete_first-total (suc n) (by_deletion_priority parse items) d (omega arith)
      (omega (arith, length-by_deletion_priority parse items))

delete_first-absent :
    (x : String) (n : ℕ) (ps : List PrioritizedResource) (d d' : Resources)
    → has x d ≡ false
    → delete_first n ps d ≡ some d'
    → has x d' ≡ false
unfolding delete_first
delete_first-absent x n [] d d' h e = ground arith
delete_first-absent x n (p ∷ ps) d d' h e =
    ground (arith, has-erase x p.name d, delete_first-absent x (n - 1) ps (erase p.name d) d')

-- The deletion adds no entry.
pub delete_surplus-absent :
    (parse : String → Option ℕ) (n : ℕ) (items : List ComposableResource) (x : String)
    (d d' : Resources)
    → has x d ≡ false
    → delete_surplus parse n items d ≡ some d'
    → has x d' ≡ false
unfolding delete_surplus
delete_surplus-absent parse zero items x d d' h e = ground arith
delete_surplus-absent parse (suc n) items x d d' h e =
    delete_first-absent x (suc n) (by_deletion_priority parse items) d d' h e
