-- ===== src/Common/Lists.antt =====
-- Lists measured by native numbers, and predicates on lists by recursion.
use Prim.Native.Nat.{ℕ, zero, suc, ◌+◌}
use mathlib.Core.Path.{◌≡◌, refl, ap}
use mathlib.Core.Bool.{Bool, cond}
use mathlib.Core.List.{List, [], ◌∷◌, ◌++◌}
use native.Mathlib.Omega.{arith}

module _ {ℓ} {A : Type ℓ} where
  abbrev pub length : List A → ℕ
  length [] = 0
  length (x ∷ xs) = suc (length xs)

  abbrev pub replicate : ℕ → A → List A
  replicate zero a = []
  replicate (suc n) a = a ∷ replicate n a

  -- The elements that pass a test.
  abbrev pub select : (A → Bool) → List A → List A
  select p [] = []
  select p (x ∷ xs) = cond (p x) (x ∷ select p xs) (select p xs)

  abbrev pub All {κ} : (A → Type κ) → List A → Type κ
  All P [] = Unit
  All P (x ∷ xs) = P x × All P xs

  -- Every element of a log, the newest first, obeys a policy, which sees those before it.
  abbrev pub Obeys : (A → List A → Type 0) → List A → Type 0
  Obeys P [] = Unit {0}
  Obeys P (x ∷ xs) = P x xs × Obeys P xs

  pub Obeys-map :
      (P Q : A → List A → Type 0)
      → ((x : A) (xs : List A) → P x xs → Q x xs)
      → (xs : List A) → Obeys P xs
      → Obeys Q xs
  Obeys-map P Q f [] h = tt
  Obeys-map P Q f (x ∷ xs) (h, hs) = (f x xs h, Obeys-map P Q f xs hs)

  pub length-append : (xs ys : List A) → length (xs ++ ys) ≡ length xs + length ys
  length-append [] ys = omega arith
  length-append (x ∷ xs) ys = omega (arith, length-append xs ys)

  pub length-replicate : (n : ℕ) (a : A) → length (replicate n a) ≡ n
  length-replicate zero a = refl
  length-replicate (suc n) a = ap suc (length-replicate n a)
