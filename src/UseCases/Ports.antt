-- ===== src/UseCases/Ports.antt =====
-- ra-idp-go/internal/oauth2/ports and identitymanagement/ports: what the use cases are given. The
-- read-only repositories, the policy adapter, the token issuer, the hash and the random source are
-- functions or values of this record; the stores are those of `Stores`.
use regenerative_architectur.Base.{ℕ, String, Option, List}
use regenerative_architectur.Base.Int.{ℤ}
use regenerative_architectur.Spec.{Time}
use regenerative_architectur.Policy.{AuthzRequest, AuthzResponse}
use regenerative_architectur.Oauth2.Details.{AuthorizationDetail}
use regenerative_architectur.Oauth2.Records.{
  Act, Oauth2Client, User, SenderConstraint, RefreshTokenRecord, AuthorizationCodeRecord,
  DeviceAuthorization, AuthorizationRequest, Result,
}

-- The fields of ports.AccessTokenInput that the modelled use cases set.
pub record AccessTokenInput : Type 0 where
  pub client : Oauth2Client
  pub sub : String
  pub scopes : List String
  pub sender_constraint : Option SenderConstraint
  pub auth_time : ℤ
  pub amr : List String
  pub acr : String
  -- An empty list is the default audience.
  pub audiences : List String
  pub act : Option Act
  pub authorization_details : List AuthorizationDetail

pub record IdTokenInput : Type 0 where
  pub client : Oauth2Client
  pub user : User
  pub scopes : List String
  pub nonce : Option String
  pub auth_time : ℤ
  pub amr : List String
  pub acr : String
  pub at_hash_for : String

-- One draw of the random source: an opaque token, two UUIDs, a device code and a
-- user code, each of which may fail.
pub record Entropy : Type 0 where
  pub token : Result String
  pub id : Result String
  pub family_id : Result String
  pub device_code : Result String
  pub user_code : Result String

pub record Ports : Type 0 where
  -- `time.Now()`
  pub clock : Time
  -- OAuth2ClientRepository.FindByID, UserRepository.FindBySub
  pub find_client : String → String → Result (Option Oauth2Client)
  pub find_user : String → Result (Option User)
  -- `none` is a nil Authorizer.
  pub authorizer : Option (AuthzRequest → Result AuthzResponse)
  -- SignAccessToken returns the token and its jti.
  pub sign_access_token : AccessTokenInput → Result (String × String)
  pub sign_id_token : IdTokenInput → Result String
  pub access_token_ttl_seconds : ℕ
  -- hex(sha256(s)), and base64url(sha256(s)) without padding
  pub sha256_hex : String → String
  pub sha256_base64 : String → String
  -- `strings.ToUpper`
  pub to_upper : String → String
  -- The verdicts of the zog schemas of spec/validation.go: an error or none.
  pub validate_refresh_token : RefreshTokenRecord → Result (Unit {0})
  pub validate_code : AuthorizationCodeRecord → Result (Unit {0})
  pub validate_device : DeviceAuthorization → Result (Unit {0})
  pub validate_request : AuthorizationRequest → Result (Unit {0})
