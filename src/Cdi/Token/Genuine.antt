-- ===== src/Cdi/Token/Genuine.antt =====
-- Where the expiry of a token comes from.
use composable_resource_oper.Common.{
  String, ℕ, none, some, Option-cases, Bool-cases, ◌!=◌, nat_eq, refl, List, [], ◌∷◌, ◌≡◌, inl, inr,
  arith, split,
}
use composable_resource_oper.Api.{Result, Result-cases}
use composable_resource_oper.Cdi.{Response}
use composable_resource_oper.Cdi.Token.{Token, CachedToken, get_token}
use composable_resource_oper.Cdi.Token.Request.{
  Decoder, Env, ResponseToken, post_of, with_payload, with_parts, read_response, request_token,
}

module _ (decoder : Decoder) where
  -- The expiry stands in the payload, the second of the three parts of the access token.
  abbrev pub Genuine : Token → Type 0
  Genuine t =
      (header : String) × (payload : String) × (signature : String) × (bytes : String) × (split 46
          t.access_token
        ≡ header ∷ payload ∷ signature ∷ [])
      × (decoder.decode payload ≡ some bytes)
      × (decoder.read_expiry bytes ≡ some t.expiry)

  abbrev pub GenuineResult : Result Token → Type 0
  GenuineResult (Result.ok t) = Genuine t
  GenuineResult (Result.err e) = Unit {0}

  with_payload-Genuine :
      (t : ResponseToken) (a b c : String)
      → split 46 t.access_token ≡ a ∷ b ∷ c ∷ []
      → GenuineResult (with_payload decoder t b)
  with_payload-Genuine t a b c h = elim (Option-cases (decoder.decode b)) [
    | inl n ↦ rw (n, with_payload) tt
    | inr (bytes, d) ↦ elim (Option-cases (decoder.read_expiry bytes)) [
      | inl n ↦ rw (d, n, with_payload) tt
      | inr (expiry, x) ↦ rw (d, x, with_payload) (a, b, c, bytes, h, d, x)
    ]
  ]

  with_parts-Genuine :
      (t : ResponseToken) (parts : List String)
      → split 46 t.access_token ≡ parts
      → GenuineResult (with_parts decoder t parts)
  with_parts-Genuine t [] h = tt
  with_parts-Genuine t (a ∷ []) h = tt
  with_parts-Genuine t (a ∷ b ∷ []) h = tt
  with_parts-Genuine t (a ∷ b ∷ c ∷ d ∷ r) h = tt
  with_parts-Genuine t (a ∷ b ∷ c ∷ []) h = with_payload-Genuine t a b c h

  read_response-Genuine : (p : Response) → GenuineResult (read_response decoder p)
  unfolding read_response
  read_response-Genuine p = elim (Bool-cases (p.status_code != 200)) [
    | inl e ↦ rw e tt
    | inr e ↦ elim (Option-cases (decoder.read_token p.body)) [
      | inl n ↦ rw (e, n) tt
      | inr (t, k) ↦ rw (e, k) (with_parts-Genuine t (split 46 t.access_token) refl)
    ]
  ]

  request_token-Genuine : (env : Env) → GenuineResult (request_token decoder env).0
  unfolding request_token
  request_token-Genuine env = elim (Result-cases env.get_secret) [
    | inr (x, e) ↦ rw e tt
    | inl (secret, e) ↦ elim (Result-cases (env.post_form (post_of env.endpoint secret))) [
      | inr (x, k) ↦ rw (e, k) tt
      | inl (p, k) ↦ rw (e, k) (read_response-Genuine p)
    ]
  ]

  abbrev pub KeepsGenuine : CachedToken → Type 0
  KeepsGenuine c = elim c.token [ none ↦ Unit {0} | some t ↦ Genuine t ]

  module _ (env : ℕ → Env) where
    -- A cache that keeps no token, or one with the expiry that its access token tells, does so after
    -- `GetToken` too, and the token that is given out has that expiry; `Token` asks the identity manager
    -- each time a token is wanted anew, and its requests may be answered in different ways.
    pub get_token-KeepsGenuine :
        (now : ℕ) (c : CachedToken)
        → KeepsGenuine c
        → KeepsGenuine (get_token (λ i. (request_token decoder (env i)).0) now c).1
          × GenuineResult (get_token (λ i. (request_token decoder (env i)).0) now c).0
    unfolding get_token
    get_token-KeepsGenuine now c h = ground (arith, request_token-Genuine (env c.requests))
