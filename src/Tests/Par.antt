-- ===== src/Tests/Par.antt =====
-- A pushed request on the deployment of the fixtures.
use regenerative_architectur.Base.{
  ◌+◌, ◌≡◌, ◌≢◌, refl, String, none, some, List, [], ◌∷◌, find, if◌then◌else◌,
}
use regenerative_architectur.Spec.{seconds, before}
use regenerative_architectur.Oauth2.Events.{DomainEvent, par_stored}
use regenerative_architectur.Oauth2.Records.{ok}
use regenerative_architectur.Stores.Par.{ParStore, consume}
use regenerative_architectur.UseCases.Par.{
  Parameters, ParInput, ParResult, ParDeps, push_authorization_request,
}
use regenerative_architectur.UseCases.Par.RoundTrip.{consumed, push-consume}
use regenerative_architectur.Tests.Fixtures.{ports, draws}

abbrev deps : ParDeps
deps = record { unmarshal = λ raw. none; validate_par = λ rec. ok tt; types = none }

abbrev input : ParInput
input = record { client_id = "web"; parameters = ("scope", "openid") ∷ [] }

abbrev answer : ParResult
answer = record { request_uri = "urn:ietf:params:oauth:request_uri:t2"; expires_in = 90 }

abbrev after : ParStore Parameters
after = (push_authorization_request ports draws deps "acme" input 0 []).1

abbrev events : List DomainEvent
events = par_stored 1000 "acme" "urn:ietf:params:oauth:request_uri:t2" "web" ∷ []

pushed :
    push_authorization_request ports draws deps "acme" input 0 [] ≡ ((ok answer, events), after)
unfolding push_authorization_request find
pushed = refl

acme_named : ◌≢◌ {A = String} "acme" ""
acme_named e = cc

-- A request of the client "web", consumed at once.
push-consume_example : (consume 1000 answer.request_uri after).0 ≡ (
    if before (1000 + seconds 90) 1000
    then none
    else some (consumed "acme" input answer.request_uri 1000))
push-consume_example =
    push-consume ports draws deps "acme" input 0 1000 [] after answer events acme_named pushed
