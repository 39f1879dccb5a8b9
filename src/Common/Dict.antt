-- ===== src/Common/Dict.antt =====
-- Go maps with text keys, as association lists. The order of the list stands for the order in
-- which `range` visits the map, so a theorem over every list covers every order.
use Prim.Native.String.{String}
use mathlib.Core.Path.{◌≡◌, refl}
use mathlib.Core.Bool.{Bool, true, false, ◌||◌}
use mathlib.Core.Option.{Option, none, some}
use mathlib.Core.List.{List, [], ◌∷◌}
use Prim.Native.Nat.{suc, ◌≤◌}
use native.Mathlib.Omega.{arith}
use composable_resource_oper.Common.Lists.{length}
use composable_resource_oper.Common.Equality.{if◌then◌else◌, ◌==◌, contains, string_eq}

abbrev pub Dict {ℓ} : Type ℓ → Type ℓ
Dict V = List (String × V)

module _ {ℓ} {V : Type ℓ} where
  abbrev pub keys : Dict V → List String
  keys [] = []
  keys ((k, _) ∷ d) = k ∷ keys d

  -- `d[k]`, with its second result
  abbrev pub lookup : String → Dict V → Option V
  lookup k [] = none
  lookup k ((j, v) ∷ d) = if j == k then some v else lookup k d

  abbrev pub has : String → Dict V → Bool
  has k d = contains (keys d) k

  -- `d[k] = v`
  abbrev pub insert : String → V → Dict V → Dict V
  insert k v [] = (k, v) ∷ []
  insert k v ((j, w) ∷ d) = if j == k then (k, v) ∷ d else (j, w) ∷ insert k v d

  -- `delete(d, k)`
  abbrev pub erase : String → Dict V → Dict V
  erase k [] = []
  erase k ((j, w) ∷ d) = let rest = erase k d in if j == k then rest else (j, w) ∷ rest

  -- A map holds a key once.
  abbrev pub NodupKeys : Dict V → Type 0
  NodupKeys [] = Unit {0}
  NodupKeys ((k, _) ∷ d) = (has k d ≡ false) × NodupKeys d

  pub lookup-insert :
      (j k : String) (v : V) (d : Dict V)
      → lookup j (insert k v d) ≡ (if k == j then some v else lookup j d)
  lookup-insert j k v [] = refl
  lookup-insert j k v (_ ∷ d) = ground (arith, lookup-insert j k v d)

  pub lookup-erase :
      (j k : String) (d : Dict V) → lookup j (erase k d) ≡ (if k == j then none else lookup j d)
  lookup-erase j k [] = ground arith
  lookup-erase j k (_ ∷ d) = ground (arith, lookup-erase j k d)

  pub has-insert : (j k : String) (v : V) (d : Dict V) → has j (insert k v d) ≡ (j == k || has j d)
  has-insert j k v [] = refl
  has-insert j k v (_ ∷ d) = ground (arith, has-insert j k v d)

  pub has-erase :
      (j k : String) (d : Dict V) → has j (erase k d) ≡ (if j == k then false else has j d)
  has-erase j k [] = ground arith
  has-erase j k (_ ∷ d) = ground (arith, has-erase j k d)

  pub lookup-has : (k : String) (v : V) (d : Dict V) → lookup k d ≡ some v → has k d ≡ true
  lookup-has k v [] h = ground arith
  lookup-has k v (_ ∷ d) h = ground (arith, lookup-has k v d)

  pub insert-NodupKeys : (k : String) (v : V) (d : Dict V) → NodupKeys d → NodupKeys (insert k v d)
  insert-NodupKeys k v [] _ = (refl, tt)
  insert-NodupKeys k v ((j, _) ∷ d) (fresh, u) =
      ground (arith, insert-NodupKeys k v d u, has-insert j k v d)

  pub erase-NodupKeys : (k : String) (d : Dict V) → NodupKeys d → NodupKeys (erase k d)
  erase-NodupKeys k [] _ = tt
  erase-NodupKeys k ((j, _) ∷ d) (fresh, u) = ground (arith, erase-NodupKeys k d u, has-erase j k d)

  erase_absent : (k : String) (d : Dict V) → has k d ≡ false → erase k d ≡ d
  erase_absent k [] h = refl
  erase_absent k ((j, _) ∷ d) h = ground (arith, erase_absent k d)

  -- Erasing a key drops its one entry.
  pub length-erase :
      (k : String) (d : Dict V) → NodupKeys d → has k d ≡ true → suc (length (erase k d)) ≡ length d
  length-erase k [] u h = cc
  length-erase k ((j, _) ∷ d) (fresh, u) h = ground (arith, length-erase k d u, erase_absent k d)

  pub length-erase_le :
      (k : String) (d : Dict V)
      → NodupKeys d
      → (length d ≤ suc (length (erase k d))) × (length (erase k d) ≤ length d)
  length-erase_le k [] u = omega arith
  length-erase_le k ((j, _) ∷ d) (fresh, u) =
      ground (arith, length-erase_le k d u, erase_absent k d)

  pub length-insert_new :
      (k : String) (v : V) (d : Dict V) → has k d ≡ false → length (insert k v d) ≡ suc (length d)
  length-insert_new k v [] h = refl
  length-insert_new k v ((j, _) ∷ d) h = ground (arith, length-insert_new k v d)

  pub length-insert_ge : (k : String) (v : V) (d : Dict V) → length d ≤ length (insert k v d)
  length-insert_ge k v [] = omega arith
  length-insert_ge k v ((j, _) ∷ d) = ground (arith, length-insert_ge k v d)

  -- Distinct keys among some names are no more than the names.
  pub length-NodupKeys :
      (names : List String) (d : Dict V)
      → NodupKeys d
      → ((k : String) → has k d ≡ true → contains names k ≡ true)
      → length d ≤ length names
  length-NodupKeys [] [] u h = omega arith
  length-NodupKeys [] ((k, _) ∷ d) u h = ground (arith, h k)
  length-NodupKeys (n ∷ names) d u h = ground (
    arith,
    length-erase_le n d u,
    length-NodupKeys names (erase n d) (erase-NodupKeys n d u)
        (λ k e. ground (arith, has-erase k n d, h k)),
  )
