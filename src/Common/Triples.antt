-- ===== src/Common/Triples.antt =====
-- Postconditions of statements: one for going on, one for having returned.
use mathlib.Core.Path.{◌≡◌, refl}
use mathlib.Core.Bool.{Bool, true, false, cond}
use composable_resource_oper.Common.Flow.{
  Flow, next, exit, Action, and_then, ◌>>=◌, ◌>>◌, body, result, get,
}

abbrev pub Post : {S R A : Type 0} → (S → Type 0) → (S → Type 0) → Flow R A × S → Type 0
Post Q E (next a, t) = Q t
Post Q E (exit r, t) = E t

-- From `P`, the statement ends in `Q`, or has returned in `E`.
pub record Triple {S R A : Type 0} (P : S → Type 0) (m : Action S R A) (Q E : S → Type 0)
    : Type 0 where
  pub apply : (s : S) → P s → Post Q E (m s)

module _ {S R A B : Type 0} (Q Q' E : S → Type 0) where
  and_then-Post :
      (x : Flow R A × S) (f : A → Action S R B)
      → Post Q E x
      → ((a : A) (t : S) → Q t → Post Q' E (f a t))
      → Post Q' E (and_then x.0 f x.1)
  and_then-Post (next a, t) f p h = h a t p
  and_then-Post (exit r, t) f p h = p

module _ {S R : Type 0} (Q : S → Type 0) where
  body-Post_of : (x : Flow R R × S) → Post Q Q x → Q x.1
  body-Post_of (next r, t) h = h
  body-Post_of (exit r, t) h = h

module _ {S R : Type 0} {P Q : S → Type 0} where
  -- The caller of a function sees one postcondition.
  pub body-Triple : {m : Action S R R} → Triple P m Q Q → (s : S) → P s → Q (body m s).1
  body-Triple {m} t s h = body-Post_of Q (m s) (t.apply s h)

module _ {S R A B : Type 0} {P Q Q' E : S → Type 0} where
  pub bind-Triple :
      {m : Action S R A} {f : A → Action S R B}
      → Triple P m Q E
      → ((a : A) → Triple Q (f a) Q' E)
      → Triple P (m >>= f) Q' E
  bind-Triple {m} {f} p h = record {
    apply = λ s start. and_then-Post Q Q' E (m s) f (p.apply s start) (λ a. (h a).apply);
  }

module _ {S R B : Type 0} {P Q Q' E : S → Type 0} where
  pub then-Triple :
      {m : Action S R (Unit {0})} {k : Action S R B}
      → Triple P m Q E
      → Triple Q k Q' E
      → Triple P (m >> k) Q' E
  then-Triple p h = bind-Triple p (λ _. h)

module _ {S R B : Type 0} {P Q' E : S → Type 0} where
  -- What was read satisfies the precondition.
  pub get-Triple :
      {f : S → Action S R B} → ((s : S) → P s → Triple P (f s) Q' E) → Triple P (get >>= f) Q' E
  get-Triple h = record { apply = λ s start. (h s start).apply s start }

module _ {S R A : Type 0} {P Q E : S → Type 0} where
  pub if-Triple :
      (b : Bool) {m k : Action S R A}
      → (b ≡ true → Triple P m Q E)
      → (b ≡ false → Triple P k Q E)
      → Triple P (cond b m k) Q E
  if-Triple true p q = p refl
  if-Triple false p q = q refl

module _ {S R A : Type 0} (Q E G : S → Type 0) where
  Post-weaken :
      (x : Flow R A × S) → ((s : S) → Q s → G s) → ((s : S) → E s → G s) → Post Q E x → Post G G x
  Post-weaken (next a, t) f g h = f t h
  Post-weaken (exit r, t) f g h = g t h

module _ {S R A : Type 0} {P P' Q G : S → Type 0} where
  -- From a stronger precondition, to a weaker postcondition
  pub weaken-Triple :
      {m : Action S R A}
      → ((s : S) → P' s → P s)
      → ((s : S) → Q s → G s)
      → Triple P m Q Q
      → Triple P' m G G
  weaken-Triple {m} f g t = record {
    apply = λ s h. Post-weaken Q Q G (m s) g g (t.apply s (f s h));
  }

-- The same, where the postconditions speak of the values.
abbrev pub Ends : {S R A : Type 0} → (A → S → Type 0) → (R → S → Type 0) → Flow R A × S → Type 0
Ends Q E (next a, t) = Q a t
Ends Q E (exit r, t) = E r t

pub record Spec {S R A : Type 0} (P : S → Type 0) (m : Action S R A) (Q : A → S → Type 0)
    (E : R → S → Type 0) : Type 0 where
  pub apply : (s : S) → P s → Ends Q E (m s)

module _ {S R A B : Type 0} (Q : A → S → Type 0) (Q' : B → S → Type 0) (E : R → S → Type 0) where
  and_then-Ends :
      (x : Flow R A × S) (f : A → Action S R B)
      → Ends Q E x
      → ((a : A) (t : S) → Q a t → Ends Q' E (f a t))
      → Ends Q' E (and_then x.0 f x.1)
  and_then-Ends (next a, t) f p h = h a t p
  and_then-Ends (exit r, t) f p h = p

module _ {S R A B : Type 0} {P : S → Type 0} {Q : A → S → Type 0} {Q' : B → S → Type 0}
    {E : R → S → Type 0} where
  pub bind-Spec :
      {m : Action S R A} {f : A → Action S R B}
      → Spec P m Q E
      → ((a : A) → Spec (Q a) (f a) Q' E)
      → Spec P (m >>= f) Q' E
  bind-Spec {m} {f} p h = record {
    apply = λ s start. and_then-Ends Q Q' E (m s) f (p.apply s start) (λ a. (h a).apply);
  }

module _ {S R B : Type 0} {P Q : S → Type 0} {Q' : B → S → Type 0} {E : R → S → Type 0} where
  pub then-Spec :
      {m : Action S R (Unit {0})} {k : Action S R B}
      → Spec P m (λ _. Q) E
      → Spec Q k Q' E
      → Spec P (m >> k) Q' E
  then-Spec p h = bind-Spec p (λ _. h)

module _ {S R A : Type 0} {P : S → Type 0} {Q : A → S → Type 0} {E : R → S → Type 0} where
  pub if-Spec :
      (b : Bool) {m k : Action S R A} → Spec P m Q E → Spec P k Q E → Spec P (cond b m k) Q E
  if-Spec true p q = p
  if-Spec false p q = q

module _ {S R : Type 0} (Q : R → S → Type 0) where
  body-Spec_of : (x : Flow R R × S) → Ends Q Q x → Q (result x.0) x.1
  body-Spec_of (next r, t) h = h
  body-Spec_of (exit r, t) h = h

module _ {S R : Type 0} {P : S → Type 0} {Q : R → S → Type 0} where
  pub body-Spec : {m : Action S R R} → Spec P m Q Q → (s : S) → P s → Q (body m s).0 (body m s).1
  body-Spec {m} t s h = body-Spec_of Q (m s) (t.apply s h)

module _ {S R A B : Type 0} (Q : A → S → Type 0) (Q' E : S → Type 0) where
  and_then-Post_of :
      (x : Flow R A × S) (f : A → Action S R B)
      → Ends Q (λ _. E) x
      → ((a : A) (t : S) → Q a t → Post Q' E (f a t))
      → Post Q' E (and_then x.0 f x.1)
  and_then-Post_of (next a, t) f p h = h a t p
  and_then-Post_of (exit r, t) f p h = p

module _ {S R A B : Type 0} {P : S → Type 0} {Q : A → S → Type 0} {Q' E : S → Type 0} where
  -- What is known of the value of a statement serves the statements after it.
  pub value-Triple :
      {m : Action S R A} {f : A → Action S R B}
      → Spec P m Q (λ _. E)
      → ((a : A) → Triple (Q a) (f a) Q' E)
      → Triple P (m >>= f) Q' E
  value-Triple {m} {f} p h = record {
    apply = λ s start. and_then-Post_of Q Q' E (m s) f (p.apply s start) (λ a. (h a).apply);
  }

module _ {S R A : Type 0} (Q Q' : A → S → Type 0) (E E' : R → S → Type 0) where
  Ends-weaken :
      (x : Flow R A × S)
      → ((a : A) (s : S) → Q a s → Q' a s)
      → ((r : R) (s : S) → E r s → E' r s)
      → Ends Q E x
      → Ends Q' E' x
  Ends-weaken (next a, s) f g h = f a s h
  Ends-weaken (exit r, s) f g h = g r s h

module _ {S R A : Type 0} {P : S → Type 0} {Q Q' : A → S → Type 0} {E E' : R → S → Type 0} where
  pub weaken-Spec :
      {m : Action S R A}
      → ((a : A) (s : S) → Q a s → Q' a s)
      → ((r : R) (s : S) → E r s → E' r s)
      → Spec P m Q E
      → Spec P m Q' E'
  weaken-Spec {m} f g t = record { apply = λ s h. Ends-weaken Q Q' E E' (m s) f g (t.apply s h) }
