-- ===== src/Cdi/Token.antt =====
-- internal/cdi/fti/token.go: the token that is kept between requests. Times are in seconds, and a
-- moment before the start of time is the start.
pub mod Rotation
pub mod Request
pub mod Genuine
use composable_resource_oper.Common.{
  String, ◌<>◌, ℕ, suc, ◌-◌, Bool, true, false, Option, none, some, ltb, if◌then◌else◌,
}
use composable_resource_oper.Api.{Error, Result}
use composable_resource_oper.Nodes.{errorf}

pub record Token : Type 0 where
  pub access_token : String
  pub token_type : String
  pub refresh_token : String
  pub expiry : ℕ

-- `token` of a CachedToken, and how often a new one was asked for
pub record CachedToken : Type 0 where
  pub token : Option Token
  pub requests : ℕ

abbrev pub leeway : ℕ
leeway = 30

-- `token != nil && token.Expiry.Add(-1*t.leeway).After(now)`
abbrev pub is_valid : ℕ → Option Token → Bool
is_valid now none = false
is_valid now (some t) = ltb now (t.expiry - leeway)

-- What `Token` answers when it is asked for the `i`-th time
module _ (new_token : ℕ → Result Token) where
  -- The two tests of `GetToken` see one token: no other goroutine runs in between.
  unfoldable pub get_token : ℕ → CachedToken → Result Token × CachedToken
  get_token now c = elim c.token [
    | none ↦ rotate c
    | some t ↦ if is_valid now (some t) then (Result.ok t, c) else rotate c
  ]
    where
      rotate : CachedToken → Result Token × CachedToken
      rotate c = elim (new_token c.requests) [
        | Result.err e ↦ (
          Result.err (errorf ("unable to rotate token: " <> e.message)),
          record c { requests = suc c.requests },
        )
        | Result.ok t ↦ (Result.ok t, record { token = some t; requests = suc c.requests })
      ]
