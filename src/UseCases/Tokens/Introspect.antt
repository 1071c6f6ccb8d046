-- ===== src/UseCases/Tokens/Introspect.antt =====
-- oauth2/usecases/introspect_token.go.
use regenerative_architectur.Base.{
  String, Bool, true, false, not, ◌&&◌, ◌||◌, Option, none, some, List, [], ◌==◌, if◌then◌else◌,
}
use regenerative_architectur.Base.Int.{ℤ}
use regenerative_architectur.Base.Words.{join}
use regenerative_architectur.Spec.{Time, before, or_clock, unix}
use regenerative_architectur.Stores.RefreshTokens.{find_by_hash}
use regenerative_architectur.Stores.Denylist.{AccessTokenDenylist, is_revoked}
use regenerative_architectur.Oauth2.Details.{AuthorizationDetail}
use regenerative_architectur.Oauth2.Records.{Act, SenderConstraint, RefreshTokenRecord, Result, ok}
use regenerative_architectur.UseCases.Monad.{World, M, ◌>>=◌, return, lift, read}
use regenerative_architectur.UseCases.Ports.{Ports}

-- What a TokenIntrospector says of an access token.
pub record IntrospectionResult : Type 0 where
  pub active : Bool
  pub scope : String
  pub client_id : String
  pub sub : String
  pub aud : List String
  pub token_type : String
  pub exp : ℤ
  pub iat : ℤ
  pub jti : String
  pub sender_constraint : Option SenderConstraint
  pub act : Option Act
  -- `none` is no claim; a claim without a textual sub counts as "".
  pub may_act : Option String
  pub authorization_details : List AuthorizationDetail

pub record IntrospectInput : Type 0 where
  pub token : String
  pub token_type_hint : String

pub record Confirmation : Type 0 where
  pub jkt : Option String
  pub x5t_s256 : Option String

pub record IntrospectionResponse : Type 0 where
  pub active : Bool
  pub scope : String
  pub client_id : String
  pub sub : String
  pub aud : List String
  pub token_type : String
  pub exp : ℤ
  pub iat : ℤ
  pub jti : String
  pub cnf : Option Confirmation
  pub act : Option Act
  pub authorization_details : List AuthorizationDetail

abbrev zero_seconds : ℤ
zero_seconds = ℤ.pos 0

unfoldable pub inactive : IntrospectionResponse
inactive = record {
  active = false;
  scope = "";
  client_id = "";
  sub = "";
  aud = [];
  token_type = "";
  exp = zero_seconds;
  iat = zero_seconds;
  jti = "";
  cnf = none;
  act = none;
  authorization_details = [];
}

abbrev present : String → Option String
present s = if s == "" then none else some s

abbrev pub confirmation : Option SenderConstraint → Option Confirmation
confirmation none = none
confirmation (some sc) = some (record { jkt = present sc.jkt; x5t_s256 = present sc.x5t_s256 })

unfoldable pub is_live : RefreshTokenRecord → Time → Bool
is_live rec now = not rec.revoked && not rec.rotated && before now rec.absolute_expires_at

unfoldable pub describe_refresh : RefreshTokenRecord → IntrospectionResponse
describe_refresh rec = record {
  active = true;
  scope = join rec.scopes;
  client_id = rec.client_id;
  sub = rec.sub;
  aud = [];
  token_type = "refresh_token";
  exp = unix rec.expires_at;
  iat = unix rec.issued_at;
  jti = rec.id;
  cnf = confirmation rec.sender_constraint;
  act = none;
  authorization_details = [];
}

-- The answer for a refresh token that the store knows.
unfoldable pub introspect_refresh : String → RefreshTokenRecord → Time → IntrospectionResponse
unfolding is_live describe_refresh inactive
introspect_refresh tenant_id rec now =
    if (rec.tenant_id == tenant_id) && is_live rec now then describe_refresh rec else inactive

unfoldable pub describe_access : IntrospectionResult → IntrospectionResponse
describe_access r = record {
  active = r.active;
  scope = r.scope;
  client_id = r.client_id;
  sub = r.sub;
  aud = r.aud;
  token_type = r.token_type;
  exp = r.exp;
  iat = r.iat;
  jti = r.jti;
  cnf = confirmation r.sender_constraint;
  act = r.act;
  authorization_details = r.authorization_details;
}

abbrev answer_access :
    IntrospectionResult → World → Bool × AccessTokenDenylist → Result IntrospectionResponse × World
answer_access r w (revoked, denied) =
    (ok (if revoked then inactive else describe_access r), record w { denylist = denied })

-- The answer for an access token: an active one is looked up in the denylist.
unfoldable pub introspect_access : Ports → IntrospectionResult → M IntrospectionResponse
unfolding is_revoked describe_access inactive
introspect_access d r w =
    if r.active && not (r.jti == "")
    then answer_access r w (is_revoked d.clock r.jti w.denylist)
    else (ok (describe_access r), w)

-- `introspector` is IntrospectAccessToken.
unfoldable pub introspect_token :
    Ports
    → (String → Result IntrospectionResult)
    → String
    → IntrospectInput
    → Time
    → M IntrospectionResponse
unfolding introspect_refresh introspect_access find_by_hash
introspect_token d introspector tenant_id input now0 = do
  let now = or_clock d.clock now0
  stored ← read (λ w.
      if (input.token_type_hint == "") || (input.token_type_hint == "refresh_token")
      then find_by_hash w.refresh (d.sha256_hex input.token)
      else none)
  elim stored [
    | some rec ↦ return (introspect_refresh tenant_id rec now)
    | none ↦ lift (introspector input.token) >>= introspect_access d
  ]
