-- ===== src/Common/Splitting.antt =====
-- Joining texts and splitting them again.
use Prim.Native.Nat.{ℕ}
use Prim.Native.Char.{Char, code}
use Prim.Native.String.{String, [], ◌∷◌, ◌++◌}
use Prim.Native.String.append
use mathlib.Core.Path.{◌≡◌, refl}
use mathlib.Core.Logic.{◌≢◌}
use mathlib.Core.Bool.{Bool, true, false}
use mathlib.Core.List.{[], ◌∷◌}
use native.Mathlib.Omega.{arith}
use composable_resource_oper.Common.Equality.{◌==◌, nat_eq, if◌then◌else◌}
use composable_resource_oper.Common.Texts.{split}

-- The character with the code does not occur.
abbrev pub lacks : ℕ → String → Bool
lacks n [] = true
lacks n (c ∷ s) = if code c == n then false else lacks n s

nil-append : (b : String) → ([] ++ b) ≡ b
nil-append b = λ i. append.nil b i

cons-append : (x : Char) (a b : String) → ((x ∷ a) ++ b) ≡ x ∷ (a ++ b)
cons-append x a b = λ i. append.cons x a b i

-- A text without the separator is one part, up to the first separator after it.
pub split-append :
    (sep : ℕ) (a : String) (c : Char) (s : String)
    → lacks sep a ≡ true
    → code c ≡ sep
    → split sep (a ++ (c ∷ s)) ≡ a ∷ split sep s
split-append sep [] c s h e = rw nil-append (ground arith)
split-append sep (x ∷ a) c s h e = rw cons-append (ground (arith, split-append sep a c s))

-- The separator as a text of its own
pub split_join :
    (sep : ℕ) (a : String) (c : Char) (s : String)
    → lacks sep a ≡ true
    → code c ≡ sep
    → split sep (a ++ ((c ∷ []) ++ s)) ≡ a ∷ split sep s
split_join sep a c s h e = rw (cons-append, nil-append) (split-append sep a c s h e)

pub split_whole : (sep : ℕ) (a : String) → lacks sep a ≡ true → split sep a ≡ a ∷ []
split_whole sep [] h = refl
split_whole sep (x ∷ a) h = ground (arith, split_whole sep a)

pub lacks-append :
    (n : ℕ) (a b : String) → lacks n a ≡ true → lacks n b ≡ true → lacks n (a ++ b) ≡ true
lacks-append n [] b h k = rw nil-append k
lacks-append n (x ∷ a) b h k = rw cons-append (ground (arith, lacks-append n a b))

cons-ne_empty : (c : Char) (s t : String) → t ≡ c ∷ s → t ≢ ""
cons-ne_empty c s t h e = cc

pub append-ne_empty : (a : String) (c : Char) (s : String) → (a ++ (c ∷ s)) ≢ ""
append-ne_empty [] c s = cons-ne_empty c s _ (nil-append (c ∷ s))
append-ne_empty (x ∷ a) c s = cons-ne_empty x (a ++ (c ∷ s)) _ (cons-append x a (c ∷ s))

pub join-ne_empty : (a : String) (c : Char) (s : String) → (a ++ ((c ∷ []) ++ s)) ≢ ""
join-ne_empty a c s = rw (cons-append, nil-append) (append-ne_empty a c s)
