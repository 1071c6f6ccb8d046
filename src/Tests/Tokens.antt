-- ===== src/Tests/Tokens.antt =====
-- Revocation and introspection on the deployment of the fixtures.
use regenerative_architectur.Base.{
  ◌≡◌, refl, arith, String, true, none, some, [], find, put, remove,
}
use regenerative_architectur.Base.Int.{ℤ}
use regenerative_architectur.Spec.{Time}
use regenerative_architectur.Oauth2.Records.{Result, ok}
use regenerative_architectur.Stores.Tenant.{default_tenant}
use regenerative_architectur.Stores.RefreshTokens.{new_refresh_token_store, find_by_hash}
use regenerative_architectur.Stores.RefreshTokens.Invariant.{Linked, new-Linked, save-Linked}
use regenerative_architectur.UseCases.Tokens.{
  IntrospectionResult, IntrospectInput, inactive, introspect_token, revoke_token,
}
use regenerative_architectur.UseCases.Tokens.Status.{
  revoke_token-family_inactive, revoke_token-access_inactive,
}
use regenerative_architectur.Tests.Fixtures.{ports, token_record, token_store, world}

abbrev access_claims : IntrospectionResult
access_claims = record {
  active = true;
  scope = "openid";
  client_id = "web";
  sub = "alice";
  aud = [];
  token_type = "Bearer";
  exp = ℤ.pos 2000;
  iat = ℤ.pos 900;
  jti = "jti";
  sender_constraint = none;
  act = none;
  may_act = none;
  authorization_details = [];
}

abbrev introspector : String → Result IntrospectionResult
introspector token = ok access_claims

abbrev from_unix : ℤ → Time
from_unix (ℤ.pos n) = n
from_unix (ℤ.negsuc n) = 0

abbrev question : IntrospectInput
question = record { token = "t1"; token_type_hint = "" }

known : find_by_hash world.refresh "t1" ≡ some token_record
unfolding world token_store find_by_hash find default_tenant put
known = refl

unknown : find_by_hash world.refresh "access" ≡ none
unfolding world token_store find_by_hash find default_tenant put remove
unknown = refl

linked : Linked world.refresh
unfolding world token_store find
linked =
    save-Linked token_record new_refresh_token_store (record { hash = refl; id = refl }) new-Linked

-- The refresh token "t1", revoked by its client.
revoke_token-family_inactive_example :
    (introspect_token ports introspector "acme" question 0
      (revoke_token ports from_unix introspector "acme" "web" "t1" 0 world).1).0
    ≡ ok inactive
revoke_token-family_inactive_example =
    revoke_token-family_inactive ports from_unix introspector "acme" "web" "t1" 0 world token_record
      "acme" question 0 token_record linked known refl refl refl known refl

-- The access token "access", revoked by its client.
revoke_token-access_inactive_example :
    (introspect_token ports introspector "acme"
      (record { token = "access"; token_type_hint = "access_token" })
      0
      (revoke_token ports from_unix introspector "acme" "web" "access" 0 world).1).0
    ≡ ok inactive
revoke_token-access_inactive_example =
    revoke_token-access_inactive ports from_unix introspector "acme" "web" "access" access_claims
      refl refl refl "access_token" 0 0 world unknown refl (omega arith)
