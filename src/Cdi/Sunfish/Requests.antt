-- ===== src/Cdi/Sunfish/Requests.antt =====
-- What the Sunfish client asks for, and when its calls succeed.
use composable_resource_oper.Common.{
  ℕ, true, none, [], ◌∷◌, ◌≡◌, ◌⊎◌, ◌↔◌, refl, inl, inr, arith, string_eq, nat_eq,
}
use composable_resource_oper.Api.{Result, Result-cases, ComposableResource}
use composable_resource_oper.Cdi.Sunfish.{
  CompositionRequest, Env, supported, composition, url, send_patch_request, add_resource,
  remove_resource,
}

-- The service accepted the request.
abbrev pub Accepted : Env → CompositionRequest → Type 0
Accepted env cr =
    (env.patch (url env, cr) ≡ Result.ok 200) ⊎ (env.patch (url env, cr) ≡ Result.ok 204)

-- The request for a number of GPUs of the model on the node
abbrev pub gpus : ComposableResource → ℕ → CompositionRequest
gpus r n = record {
  name = r.spec.target_node;
  members = record { request_count = n; proc_type = "GPU"; model = r.spec.model } ∷ [];
}

composition-gpus :
    (r : ComposableResource) (n : ℕ) → supported r.spec.model ≡ true → composition r n ≡ gpus r n
unfolding composition
composition-gpus r n s = rw s refl

module _ (env : Env) where
  send_patch_request-Accepted :
      (cr : CompositionRequest)
      → env.new_request (url env) ≡ none
      → ((send_patch_request env cr).1 ≡ (url env, cr) ∷ [])
        × (((send_patch_request env cr).0.2 ≡ none) ↔ Accepted env cr)
  unfolding send_patch_request
  send_patch_request-Accepted cr h = elim (Result-cases (env.patch (url env, cr))) [
    | inl (status, e) ↦ (ground arith, (λ k. ground arith, λ k. ground arith))
    | inr (x, e) ↦ (ground arith, (λ k. ground arith, λ k. ground arith))
  ]

  add_resource-gpus :
      (r : ComposableResource)
      → supported r.spec.model ≡ true
      → add_resource env r ≡ send_patch_request env (gpus r 1)
  unfolding add_resource
  add_resource-gpus r s = rw (composition-gpus r 1 s) refl

  remove_resource-gpus :
      (r : ComposableResource)
      → supported r.spec.model ≡ true
      → remove_resource env r
        ≡ ((send_patch_request env (gpus r 0)).0.2, (send_patch_request env (gpus r 0)).1)
  unfolding remove_resource
  remove_resource-gpus r s = rw (composition-gpus r 0 s) refl

  -- For a supported model `AddResource` asks once for one GPU of the model on the node and `RemoveResource`
  -- asks once for none, and each succeeds exactly where the service answers 200 or 204, when the request
  -- could be made.
  pub add_remove-Accepted :
      (r : ComposableResource)
      → supported r.spec.model ≡ true
      → env.new_request (url env) ≡ none
      → ((add_resource env r).1 ≡ (url env, gpus r 1) ∷ [])
        × (((add_resource env r).0.2 ≡ none) ↔ Accepted env (gpus r 1))
        × ((remove_resource env r).1 ≡ (url env, gpus r 0) ∷ [])
        × (((remove_resource env r).0 ≡ none) ↔ Accepted env (gpus r 0))
  add_remove-Accepted r s h =
      let (sent, succeeds) = send_patch_request-Accepted (gpus r 1) h in
      let (sent', succeeds') = send_patch_request-Accepted (gpus r 0) h in
      rw (add_resource-gpus r s, remove_resource-gpus r s) (sent, succeeds, sent', succeeds')
