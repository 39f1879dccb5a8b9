-- ===== src/Cdi/Token/Rotation.antt =====
-- When a token is asked for anew.
use composable_resource_oper.Common.{
  ◌<>◌, ◌+◌, ◌<◌, ◌≤◌, Option, none, Option-cases, Bool-cases, ℕ, suc, true, false, some, ◌≡◌, ◌⊎◌,
  inl, inr, arith,
}
use composable_resource_oper.Api.{Error, Result, Result-cases}
use composable_resource_oper.Nodes.{errorf}
use composable_resource_oper.Cdi.Token.{Token, CachedToken, is_valid, get_token}

module _ (new_token : ℕ → Result Token) where
  -- A token that was given out is kept, and given out again without a request as long as it is valid.
  get_token-again :
      (now later : ℕ) (c : CachedToken) (t : Token)
      → (get_token new_token now c).0 ≡ Result.ok t
      → is_valid later (some t) ≡ true
      → get_token new_token later (get_token new_token now c).1
        ≡ (Result.ok t, (get_token new_token now c).1)
  unfolding get_token
  get_token-again now later c t h v = ground arith

  -- There is no token, or it expires within the next 30 seconds.
  abbrev pub Stale : ℕ → Option Token → Type 0
  Stale now none = Unit {0}
  Stale now (some t) = t.expiry ≤ now + 30

  -- One request was made. The token that it answered is given out and kept; where it failed, an error
  -- is given out, and the kept token stays.
  abbrev pub Rotated : ℕ → CachedToken → Type 0
  Rotated now c =
      ((t : Token) × (new_token c.requests ≡ Result.ok t)
        × (get_token new_token now c
            ≡ (Result.ok t, record { token = some t; requests = suc c.requests })))
      ⊎ ((e x : Error) × (new_token c.requests ≡ Result.err e)
          × (get_token new_token now c
              ≡ (Result.err x, record { token = c.token; requests = suc c.requests })))

  get_token-Rotated : (now : ℕ) (c : CachedToken) → is_valid now c.token ≡ false → Rotated now c
  unfolding get_token
  get_token-Rotated now c v = elim (Result-cases (new_token c.requests)) [
    | inl (t, e) ↦ inl (t, e, ground (arith, v, e))
    | inr (x, e) ↦
        inr (x, errorf ("unable to rotate token: " <> x.message), e, ground (arith, v, e))
  ]

  -- A kept token that expires in more than 30 seconds is given out, without a request and with the
  -- cache as it was. Else one request is made: the token that it answers is given out and kept, and
  -- where it fails an error is given out, and the kept token stays.
  pub get_token-sources :
      (now : ℕ) (c : CachedToken)
      → ((t : Token) × (c.token ≡ some t)
          × (now + 30 < t.expiry)
          × (get_token new_token now c ≡ (Result.ok t, c)))
        ⊎ (Stale now c.token × Rotated now c)
  unfolding get_token
  get_token-sources now c = elim (Option-cases c.token) [
    | inl n ↦ inr (ground (arith, n), get_token-Rotated now c (ground (arith, n)))
    | inr (t, k) ↦ elim (Bool-cases (is_valid now (some t))) [
      | inl v ↦ inl (t, k, ground arith, ground arith)
      | inr v ↦ inr (ground (arith, k, v), get_token-Rotated now c (ground (arith, k, v)))
    ]
  ]
