-- ===== src/Common/Flow.antt =====
-- Statements of a Go function: they change a state, and may return from the function early.

-- `next a`: go on with `a`. `exit r`: the function has returned `r`.
pub data Flow {ℓ κ} (R : Type ℓ) (A : Type κ) : Type (ℓ ⊔ κ) where
  next : A → Flow R A
  exit : R → Flow R A

abbrev pub Action : Type 0 → Type 0 → Type 0 → Type 0
Action S R A = S → Flow R A × S

module _ {S R A : Type 0} where
  abbrev pub pure : A → Action S R A
  pure a s = (next a, s)

  -- `return r`
  abbrev pub return : R → Action S R A
  return r s = (exit r, s)

abbrev pub skip : {S R : Type 0} → Action S R (Unit {0})
skip s = (next tt, s)

abbrev pub get : {S R : Type 0} → Action S R S
get s = (next s, s)

abbrev pub modify : {S R : Type 0} → (S → S) → Action S R (Unit {0})
modify f s = (next tt, f s)

module _ {S R A B : Type 0} where
  abbrev pub and_then : Flow R A → (A → Action S R B) → Action S R B
  and_then (next a) f s = f a s
  and_then (exit r) f s = (exit r, s)

  infixl 5 ◌>>=◌
  abbrev pub ◌>>=◌ : Action S R A → (A → Action S R B) → Action S R B
  ◌>>=◌ m f s = let (r, t) = m s in and_then r f t

infixl 5 ◌>>◌
abbrev pub ◌>>◌ : {S R B : Type 0} → Action S R (Unit {0}) → Action S R B → Action S R B
m >> k = m >>= λ _. k

abbrev pub result : {R : Type 0} → Flow R R → R
result (next r) = r
result (exit r) = r

-- A function whose last statement returns.
abbrev pub body : {S R : Type 0} → Action S R R → S → R × S
body m s = let (r, t) = m s in (result r, t)

-- A call of such a function.
abbrev pub call : {S R T : Type 0} → Action S R R → Action S T R
call m s = let (r, t) = m s in (next (result r), t)
