-- ===== src/Cdi/Token/Request.antt =====
-- `Token` of internal/cdi/fti/token.go: the request for a new token.
use composable_resource_oper.Common.{
  String, ◌<>◌, ℕ, Option, none, some, List, [], ◌∷◌, ◌!=◌, nat_eq, if◌then◌else◌, split,
}
use composable_resource_oper.Common.Dict.{Dict, lookup}
use composable_resource_oper.Api.{Result}
use composable_resource_oper.Nodes.{errorf}
use composable_resource_oper.Cdi.{Response}
use composable_resource_oper.Cdi.Token.{Token}

-- `token`, as far as it is used
pub record ResponseToken : Type 0 where
  pub access_token : String
  pub refresh_token : String
  pub token_type : String

-- A form that is posted, with its address
abbrev pub Post : Type 0
Post = String × Dict String

-- The decoding of JSON (the response, and the expiry in a payload) and of base64
pub record Decoder : Type 0 where
  pub read_token : String → Option ResponseToken
  pub decode : String → Option String
  pub read_expiry : String → Option ℕ

-- The cluster and the identity manager. A response may fail to be read, and that is a `Result.err`.
pub record Env : Type 0 where
  pub endpoint : String
  pub get_secret : Result (Dict String)
  pub post_form : Post → Result Response

-- `string(secret.Data[key])`
abbrev entry : String → Dict String → String
entry key secret = elim (lookup key secret) [ none ↦ "" | some v ↦ v ]

abbrev pub form : Dict String → Dict String
form secret =
    ("client_id", entry "client_id" secret)
    ∷ ("client_secret", entry "client_secret" secret)
    ∷ ("username", entry "username" secret)
    ∷ ("password", entry "password" secret)
    ∷ ("scope", "openid")
    ∷ ("response_type", "id_token token")
    ∷ ("grant_type", "password")
    ∷ []

abbrev pub post_of : String → Dict String → Post
post_of endpoint secret = (
  "https://"
      <> (endpoint
          <> ("id_manager/realms/" <> (entry "realm" secret <> "/protocol/openid-connect/token"))),
  form secret,
)

module _ (decoder : Decoder) where
  abbrev pub with_payload : ResponseToken → String → Result Token
  with_payload t payload = elim (decoder.decode payload) [
    | none ↦ Result.err (errorf "failed to decode id_manager payload")
    | some bytes ↦ elim (decoder.read_expiry bytes) [
      | none ↦ Result.err (errorf "failed to unmarshal id_manager json")
      | some expiry ↦ Result.ok (record {
        access_token = t.access_token;
        token_type = t.token_type;
        refresh_token = t.refresh_token;
        expiry = expiry;
      })
    ]
  ]

  -- The access token has three parts; the second is the payload.
  abbrev pub with_parts : ResponseToken → List String → Result Token
  with_parts t (header ∷ payload ∷ signature ∷ []) = with_payload t payload
  with_parts t _ = Result.err (errorf ("invalid access token: " <> t.access_token))

  unfoldable pub read_response : Response → Result Token
  read_response p =
      if p.status_code != 200
      then Result.err (errorf "http returned code")
      else (elim (decoder.read_token p.body) [
        | none ↦ Result.err (errorf "failed to read id_manager response body into Token")
        | some t ↦ with_parts t (split 46 t.access_token)
      ])

  -- With the forms that were posted
  unfoldable pub request_token : Env → Result Token × List Post
  unfolding read_response
  request_token env = elim env.get_secret [
    | Result.err e ↦ (Result.err e, [])
    | Result.ok secret ↦ (
      elim (env.post_form (post_of env.endpoint secret)) [
        | Result.err e ↦ Result.err e
        | Result.ok p ↦ read_response p
      ],
      post_of env.endpoint secret ∷ [],
    )
  ]
