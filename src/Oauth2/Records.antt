-- ===== src/Oauth2/Records.antt =====
-- ra-idp-go/internal/shared/spec/oauth2.go, users.go and oauth2/usecases/oauth_error.go: the records
-- that the token endpoint reads and writes.
use regenerative_architectur.Base.{ℕ, String, Bool, true, false, Option, none, some, List}
use regenerative_architectur.Base.Int.{ℤ}
use regenerative_architectur.Machines.CodeFlow.{AuthorizationCodeFlowState}
use regenerative_architectur.Machines.CodeRecord.{AuthorizationCodeRecordState}
use regenerative_architectur.Machines.DeviceFlow.{DeviceCodeFlowState}
use regenerative_architectur.Spec.{
  Time, ClientType, GrantType, SenderConstraintType, UserStatus, active,
}

pub record SenderConstraint : Type 0 where
  pub type : SenderConstraintType
  pub jkt : String
  pub x5t_s256 : String

-- The fields of spec.OAuth2Client that the use cases read.
pub record Oauth2Client : Type 0 where
  pub tenant_id : String
  pub client_id : String
  pub client_type : ClientType
  pub redirect_uris : List String
  pub grant_types : List GrantType
  pub scope : String
  pub require_pushed_authorization_requests : Bool

-- The fields of spec.User that the use cases read. `none` is an empty status.
pub record User : Type 0 where
  pub sub : String
  pub tenant_id : String
  pub status : Option UserStatus

abbrev pub effective_status : Option UserStatus → UserStatus
effective_status none = active
effective_status (some s) = s

abbrev is_active_status : UserStatus → Bool
is_active_status active = true
is_active_status _ = false

unfoldable pub is_active : User → Bool
is_active u = is_active_status (effective_status u.status)

pub record RefreshTokenRecord : Type 0 where
  pub id : String
  pub tenant_id : String
  pub hash : String
  pub family_id : String
  pub parent_id : Option String
  pub client_id : String
  pub sub : String
  pub scopes : List String
  pub issued_at : Time
  pub expires_at : Time
  pub absolute_expires_at : Time
  pub revoked : Bool
  pub rotated : Bool
  pub sender_constraint : Option SenderConstraint

-- The fields of spec.AuthorizationRequest that the use cases read or write. Its response type and its
-- challenge method have one value each.
pub record AuthorizationRequest : Type 0 where
  pub id : String
  pub tenant_id : String
  pub state : AuthorizationCodeFlowState
  pub client_id : String
  pub redirect_uri : String
  pub scope : String
  pub state_param : Option String
  pub nonce : Option String
  pub code_challenge : String
  pub prompt : Option String
  pub max_age : Option ℤ
  pub par_request_uri : Option String
  pub sub : Option String
  pub auth_time : Option ℤ
  pub amr : List String
  pub acr : Option String
  pub acr_values : Option String
  pub created_at : Time
  pub expires_at : Time

pub record AuthorizationCodeRecord : Type 0 where
  pub code : String
  pub tenant_id : String
  pub authorization_request_id : String
  pub client_id : String
  pub sub : String
  pub scopes : List String
  pub redirect_uri : String
  pub code_challenge : String
  pub nonce : Option String
  pub auth_time : ℤ
  pub amr : List String
  pub acr : Option String
  pub state : AuthorizationCodeRecordState
  pub issued_at : Time
  pub expires_at : Time
  pub redeemed_at : Option Time
  pub issued_family_id : Option String

pub record DeviceAuthorization : Type 0 where
  pub device_code_hash : String
  pub tenant_id : String
  pub user_code : String
  pub client_id : String
  pub scopes : List String
  pub state : DeviceCodeFlowState
  pub sub : Option String
  pub auth_time : Option ℤ
  pub interval_seconds : ℕ
  pub last_polled_at : Option Time
  pub issued_family_id : Option String
  pub issued_at : Time
  pub expires_at : Time

-- The claim `act` of RFC 8693: an actor, and the `act` nested in it where that is a map. Its other
-- entries are left out.
pub data Act : Type 0 where
  innermost : Option String → Act
  acting_for : Option String → Act → Act

-- The codes that NewOAuthError is called with; descriptions are left out.
pub data OauthError : Type 0 where
  invalid_request invalid_client invalid_grant invalid_scope unauthorized_client
        unsupported_response_type invalid_authorization_details expired_token slow_down
        authorization_pending access_denied server_error :
      OauthError

-- An error is one of the protocol's, or one that a port, a store or a validation returns.
pub data Error : Type 0 where
  oauth : OauthError → Error
  internal : String → Error

pub data Result {ℓ} (A : Type ℓ) : Type ℓ where
  ok : A → Result A
  err : Error → Result A
