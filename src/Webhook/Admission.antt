-- ===== src/Webhook/Admission.antt =====
-- What the admission of a request means for the others.
use composable_resource_oper.Common.{
  String, string_dec, none, List, [], ◌∷◌, All, ◌≡◌, ◌≢◌, ◌⊎◌, ◌↔◌, inl, inr, arith, string_eq,
  texts_differ, refl, sym, subst,
}
use composable_resource_oper.Api.{Result, ComposabilityRequest}
use composable_resource_oper.Webhook.{
  check_apart, check_together, used_node, validate_request, Object, request, other, validate_create,
  validate_update, validate_delete,
}

-- Two requests for devices of one type and model that the operator cannot tell apart: both spread
-- over the nodes, or the first is for the one node that the second stands for.
abbrev pub Conflict : ComposabilityRequest → ComposabilityRequest → Type 0
Conflict r q =
    (q.meta.name ≢ r.meta.name)
    × (q.resource.type ≡ r.resource.type)
    × (q.resource.model ≡ r.resource.model)
    × (((r.resource.allocation_policy ≡ "differentnode")
          × (q.resource.allocation_policy ≡ "differentnode"))
        ⊎ ((r.resource.allocation_policy ≡ "samenode") × (used_node q ≡ r.resource.target_node)))

differ : ◌≢◌ {A = String} "differentnode" "samenode"
differ = texts_differ refl

check_apart_iff :
    (r : ComposabilityRequest) (qs : List ComposabilityRequest)
    → r.resource.allocation_policy ≡ "differentnode"
    → (check_apart r qs ≡ none) ↔ All (λ q. ¬ (Conflict r q)) qs
unfolding check_apart
check_apart_iff r [] p = (λ _. tt, λ _. refl)
check_apart_iff r (q ∷ qs) p =
    let (to, from) = check_apart_iff r qs p in
    (
      λ h. (λ c. ground (arith, differ, c), to (ground arith)),
      λ (n, ns). ground (arith, n, from ns),
    )

check_together_iff :
    (r : ComposabilityRequest) (qs : List ComposabilityRequest)
    → r.resource.allocation_policy ≡ "samenode"
    → (check_together r qs ≡ none) ↔ All (λ q. ¬ (Conflict r q)) qs
unfolding check_together
check_together_iff r [] p = (λ _. tt, λ _. refl)
check_together_iff r (q ∷ qs) p =
    let (to, from) = check_together_iff r qs p in
    (
      λ h. (λ c. ground (arith, differ, c), to (ground arith)),
      λ (n, ns). ground (arith, n, from ns),
    )

no_policy :
    (r : ComposabilityRequest) (qs : List ComposabilityRequest)
    → r.resource.allocation_policy ≢ "differentnode"
    → r.resource.allocation_policy ≢ "samenode"
    → All (λ q. ¬ (Conflict r q)) qs
no_policy r [] d s = tt
no_policy r (q ∷ qs) d s = (λ c. ground (arith, c), no_policy r qs d s)

-- A request is admitted exactly where it does not name a node to spread over, and conflicts with no
-- other request.
validate_request_iff :
    (qs : List ComposabilityRequest) (r : ComposabilityRequest)
    → (validate_request (Result.ok qs) r ≡ none) ↔ (
        (¬ ((r.resource.allocation_policy ≡ "differentnode") × (r.resource.target_node ≢ "")))
        × All (λ q. ¬ (Conflict r q)) qs)
unfolding validate_request
validate_request_iff qs r = elim (string_dec r.resource.allocation_policy "differentnode") [
  | yes d ↦
      let (to, from) = check_apart_iff r qs d in
      (λ h. (ground (arith, h), to (ground (arith, h))), λ (n, ns). ground (arith, n, from ns))
  | no d ↦ elim (string_dec r.resource.allocation_policy "samenode") [
    | yes s ↦
        let (to, from) = check_together_iff r qs s in
        (λ h. (ground (arith, h), to (ground (arith, h))), λ (n, ns). ground (arith, n, from ns))
    | no s ↦ (λ h. (ground (arith, h), no_policy r qs d s), λ k. ground arith)
  ]
]

-- The object is a request, the requests could be listed, and it may stand beside them.
unfoldable pub Admissible : Result (List ComposabilityRequest) → Object → Type 0
Admissible (Result.ok qs) (request r) =
    (¬ ((r.resource.allocation_policy ≡ "differentnode") × (r.resource.target_node ≢ "")))
    × All (λ q. ¬ (Conflict r q)) qs
Admissible _ _ = ⊥

validate_create_iff :
    (listed : Result (List ComposabilityRequest)) (o : Object)
    → (validate_create listed o ≡ none) ↔ Admissible listed o
unfolding validate_create validate_request Admissible
validate_create_iff (Result.ok qs) (request r) = validate_request_iff qs r
validate_create_iff (Result.err e) (request r) = ((λ h. ground arith), (λ h. absurd h))
validate_create_iff (Result.ok qs) (other go_type) = ((λ h. ground arith), (λ h. absurd h))
validate_create_iff (Result.err e) (other go_type) = ((λ h. ground arith), (λ h. absurd h))

validate_update_lem :
    (listed : Result (List ComposabilityRequest)) (old new : Object)
    → validate_update listed old new ≡ validate_create listed new
unfolding validate_update validate_create
validate_update_lem listed old (request r) = refl
validate_update_lem listed old (other go_type) = refl

-- The webhook admits a creation exactly where the object is a ComposabilityRequest, the requests
-- can be listed, and the request does not name a node to spread over and conflicts with no other;
-- it admits an update exactly where that holds of the new object, whatever the old one is; and it
-- admits every deletion.
pub validators_iff :
    (listed : Result (List ComposabilityRequest)) (old new : Object)
    → ((validate_create listed new ≡ none) ↔ Admissible listed new)
      × ((validate_update listed old new ≡ none) ↔ Admissible listed new)
      × (validate_delete old ≡ none)
unfolding validate_delete
validators_iff listed old new = (
  validate_create_iff listed new,
  subst (λ e. (e ≡ none) ↔ Admissible listed new) (sym (validate_update_lem listed old new))
      (validate_create_iff listed new),
  refl,
)

-- Two requests do not both spread devices of one type and model over the nodes.
abbrev pub Compatible : ComposabilityRequest → ComposabilityRequest → Type 0
Compatible r q =
    (q.meta.name ≡ r.meta.name)
    ⊎ (¬ (
        (r.resource.allocation_policy ≡ "differentnode")
        × (q.resource.allocation_policy ≡ "differentnode")
        × (q.resource.type ≡ r.resource.type)
        × (q.resource.model ≡ r.resource.model)))

abbrev pub AllCompatible : List ComposabilityRequest → Type 0
AllCompatible [] = Unit {0}
AllCompatible (q ∷ qs) = All (Compatible q) qs × AllCompatible qs

Conflict-Compatible :
    (r : ComposabilityRequest) (qs : List ComposabilityRequest)
    → All (λ q. ¬ (Conflict r q)) qs
    → All (Compatible r) qs
Conflict-Compatible r [] h = tt
Conflict-Compatible r (q ∷ qs) (n, ns) = elim (string_dec q.meta.name r.meta.name) [
  | yes e ↦ (inl e, Conflict-Compatible r qs ns)
  | no e ↦ (inr (λ c. n (ground (arith, c, e))), Conflict-Compatible r qs ns)
]

-- Among admitted requests of different names, at most one spreads devices of a type and model over
-- the nodes: an admission keeps it so.
pub validate_request-AllCompatible :
    (qs : List ComposabilityRequest) (r : ComposabilityRequest)
    → AllCompatible qs
    → validate_request (Result.ok qs) r ≡ none
    → AllCompatible (r ∷ qs)
validate_request-AllCompatible qs r a h =
    (Conflict-Compatible r qs (((validate_request_iff qs r).0 h).1), a)
