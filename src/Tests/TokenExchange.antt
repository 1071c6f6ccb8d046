-- ===== src/Tests/TokenExchange.antt =====
-- Token exchange and narrowing of authorization details on the deployment of the fixtures.
use regenerative_architectur.Base.{
  ◌≡◌, refl, true, false, none, some, List, [], ◌∷◌, String, find, contains, all_in,
}
use regenerative_architectur.Base.Int.{ℤ}
use regenerative_architectur.Base.Words.{is_blank, join}
use regenerative_architectur.Spec.{Time, token_exchange, contains_grant}
use regenerative_architectur.Policy.{evaluate, action_rules, failed_rules, rule_holds}
use regenerative_architectur.Oauth2.Details.{
  AuthorizationDetail, AuthorizationDetailType, number, at_most, set, details_subset_of,
}
use regenerative_architectur.Oauth2.Details.Laws.{details_subset_of_trans}
use regenerative_architectur.Oauth2.Records.{Oauth2Client, Result, ok}
use regenerative_architectur.UseCases.Monad.{World}
use regenerative_architectur.UseCases.Ports.{Ports}
use regenerative_architectur.UseCases.Details.{DetailTypes}
use regenerative_architectur.UseCases.Tokens.{IntrospectionResult, revoke_token}
use regenerative_architectur.UseCases.TokenExchange.{
  ExchangeTokenInput, ExchangeTokenResult, Introspector, token_type_access_token_urn,
  exchange_token,
}
use regenerative_architectur.UseCases.TokenExchange.Exchanged.{Exchanged, exchange_token-Exchanged}
use regenerative_architectur.UseCases.TokenExchange.Stateless.{exchange_token-ignores_revocation}
use regenerative_architectur.Tests.Fixtures.{ports, web, world}

abbrev payment : AuthorizationDetail
payment = record {
  type = "payment";
  locations = [];
  actions = "read" ∷ "pay" ∷ [];
  datatypes = [];
  identifier = "";
  privileges = [];
  fields = ("amount", number (ℤ.pos 100)) ∷ [];
}

abbrev payment_type : AuthorizationDetailType
payment_type = record {
  type = "payment";
  rules =
      (record { name = "actions"; semantics = set; required = true; allowed = [] })
      ∷ (record { name = "amount"; semantics = at_most; required = false; allowed = [] })
      ∷ [];
  enabled = true;
}

abbrev smaller : AuthorizationDetail
smaller = record payment { fields = ("amount", number (ℤ.pos 50)) ∷ [] }

abbrev reading : AuthorizationDetail
reading = record smaller { actions = "read" ∷ [] }

abbrev payment_types : List (String × AuthorizationDetailType)
payment_types = ("payment", payment_type) ∷ []

smaller_within : details_subset_of (smaller ∷ []) (payment ∷ []) payment_types ≡ true
unfolding details_subset_of find all_in contains
smaller_within = refl

reading_within : details_subset_of (reading ∷ []) (smaller ∷ []) payment_types ≡ true
unfolding details_subset_of find all_in contains
reading_within = refl

-- Reading up to 50, within payments up to 50, within payments up to 100.
details_subset_of_trans_example :
    details_subset_of (reading ∷ []) (payment ∷ []) payment_types ≡ true
details_subset_of_trans_example =
    details_subset_of_trans (reading ∷ []) (smaller ∷ []) (payment ∷ []) payment_types
      reading_within smaller_within

abbrev gateway : Oauth2Client
gateway = record web { client_id = "gateway"; grant_types = token_exchange ∷ [] }

abbrev deployment : Ports
deployment = record ports { find_client = λ t i. ok (some gateway) }

abbrev subject_claims : IntrospectionResult
subject_claims = record {
  active = true;
  scope = "openid";
  client_id = "web";
  sub = "alice";
  aud = [];
  token_type = "access_token";
  exp = ℤ.pos 2000;
  iat = ℤ.pos 900;
  jti = "jti";
  sender_constraint = none;
  act = none;
  may_act = some "gateway";
  authorization_details = [];
}

abbrev introspector : Introspector
introspector token = ok (some subject_claims)

abbrev request : ExchangeTokenInput
request = record {
  client_id = "gateway";
  subject_token = "access";
  subject_token_type = "";
  actor_token = "";
  actor_token_type = "";
  resource = "https://api" ∷ [];
  scope = "";
  requested_token_type = "";
  proof_jkt = "";
  proof_x5t_s256 = "";
  authorization_details = [];
}

abbrev no_types : DetailTypes
no_types = none

abbrev after : World
after = (exchange_token deployment introspector no_types "acme" request 0 world).1

abbrev result : ExchangeTokenResult
result = record {
  access_token = "access";
  issued_token_type = token_type_access_token_urn;
  token_type = "Bearer";
  expires_in = 600;
  scope = "openid";
  authorization_details = [];
}

exchanged_token :
    exchange_token deployment introspector no_types "acme" request 0 world ≡ (ok result, after)
unfolding exchange_token is_blank evaluate action_rules failed_rules rule_holds contains_grant
    all_in contains join
exchanged_token = refl

-- The access token of "alice", exchanged by a gateway that its may_act names.
exchange_token-Exchanged_example :
    Exchanged deployment introspector no_types "acme" request 1000 result world after
exchange_token-Exchanged_example =
    exchange_token-Exchanged deployment introspector no_types "acme" request 0 world after result
      exchanged_token

abbrev from_unix : ℤ → Time
from_unix (ℤ.pos n) = n
from_unix (ℤ.negsuc n) = 0

abbrev introspect : String → Result IntrospectionResult
introspect token = ok subject_claims

-- The same, after its client revoked the access token.
exchange_token-ignores_revocation_example :
    (exchange_token deployment introspector no_types "acme" request 0
      (revoke_token deployment from_unix introspect "acme" "web" "access" 0 world).1).0
    ≡ (exchange_token deployment introspector no_types "acme" request 0 world).0
exchange_token-ignores_revocation_example =
    exchange_token-ignores_revocation deployment introspector no_types "acme" request 0 0 world
      from_unix introspect "web"
