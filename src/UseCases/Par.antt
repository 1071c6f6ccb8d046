-- ===== src/UseCases/Par.antt =====
-- ra-idp-go/internal/oauth2/usecases/push_authorization_request.go: PushAuthorizationRequest (RFC 9126),
-- over the PAR store.
pub mod RoundTrip
use Prim.Native.String.{◌++◌}
use regenerative_architectur.Base.{
  ℕ, ◌+◌, ◌≡◌, ◌≢◌, refl, sym, ap, ◌∙◌, String, Bool, true, false, inl, inr, Option, none, some,
  List, [], ◌∷◌, arith, ◌==◌, eq_iff, find, find-put_self, Option-cases, Bool-cases, if◌then◌else◌,
}
use regenerative_architectur.Spec.{Time, seconds, before, or_clock}
use regenerative_architectur.Oauth2.Details.{AuthorizationDetail}
use regenerative_architectur.Oauth2.Events.{DomainEvent, par_stored}
use regenerative_architectur.Oauth2.Records.{Oauth2Client, Result, ok, err, oauth, invalid_client}
use regenerative_architectur.Stores.Tenant.{default_tenant}
use regenerative_architectur.Stores.Par.{ParRecord, ParStore, save, consume}
use regenerative_architectur.UseCases.Ports.{Ports, Entropy}
use regenerative_architectur.UseCases.Details.{
  DetailTypes, and_then, parse_authorization_details, validate_authorization_details,
}

-- The parameters of the pushed request.
abbrev pub Parameters : Type 0
Parameters = List (String × String)

pub record ParInput : Type 0 where
  pub client_id : String
  pub parameters : Parameters

pub record ParResult : Type 0 where
  pub request_uri : String
  pub expires_in : ℕ

-- `m[k]` of a Go map of texts.
abbrev pub text_at : String → Parameters → String
text_at k m = elim (find k m) [ none ↦ "" | some v ↦ v ]

abbrev known_client : Option Oauth2Client → Result Oauth2Client
known_client none = err (oauth invalid_client)
known_client (some c) = ok c

-- What is outside of the source: the JSON decoder, the schema of the record, and the registered types.
pub record ParDeps : Type 0 where
  pub unmarshal : String → Option (List AuthorizationDetail)
  pub validate_par : ParRecord Parameters → Result (Unit {0})
  pub types : DetailTypes

-- The details that are pushed are checked at once.
unfoldable pub check_details : ParDeps → String → String → Result (Unit {0})
unfolding parse_authorization_details validate_authorization_details
check_details deps tenant_id raw =
    if raw == ""
    then ok tt
    else and_then (parse_authorization_details deps.unmarshal raw)
        (λ details. validate_authorization_details deps.types tenant_id details)

abbrev pub pushed_record : String → String → ParInput → Time → ParRecord Parameters
pushed_record tenant_id id input now = record {
  request_uri = "urn:ietf:params:oauth:request_uri:" ++ id;
  tenant_id = tenant_id;
  client_id = input.client_id;
  request = input.parameters;
  expires_at = now + seconds 90;
  used = false;
}

-- Everything up to the save.
unfoldable pub make_record :
    Ports → Entropy → ParDeps → String → ParInput → Time → Result (ParRecord Parameters)
unfolding check_details
make_record d e deps tenant_id input now =
    and_then (and_then (d.find_client tenant_id input.client_id) known_client) (λ c.
      and_then (check_details deps tenant_id (text_at "authorization_details" input.parameters))
        (λ _. and_then e.token (λ id.
          let rec = pushed_record tenant_id id input now in
          and_then (deps.validate_par rec) (λ _. ok rec))))

abbrev pub saved_par :
    Time
    → String
    → Result (ParRecord Parameters)
    → ParStore Parameters
    → (Result ParResult × List DomainEvent) × ParStore Parameters
saved_par now tenant_id (err x) s = ((err x, []), s)
saved_par now tenant_id (ok rec) s = (
  (
    ok (record { request_uri = rec.request_uri; expires_in = 90 }),
    par_stored now tenant_id rec.request_uri rec.client_id ∷ [],
  ),
  save rec s,
)

-- The answer with the events, and the store.
unfoldable pub push_authorization_request :
    Ports
    → Entropy
    → ParDeps
    → String
    → ParInput
    → Time
    → ParStore Parameters
    → (Result ParResult × List DomainEvent) × ParStore Parameters
unfolding make_record save
push_authorization_request d e deps tenant_id input now0 s =
    let now = or_clock d.clock now0 in
    saved_par now tenant_id (make_record d e deps tenant_id input now) s
