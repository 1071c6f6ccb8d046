-- ===== src/UseCases/Par/RoundTrip.antt =====
-- What is pushed comes back when it is consumed.
use regenerative_architectur.Base.{
  ◌+◌, ◌≡◌, ◌≢◌, refl, sym, ap, ◌∙◌, String, true, false, inl, inr, none, some, List, arith, eq_iff,
  find-put_self, Bool-cases, if◌then◌else◌,
}
use regenerative_architectur.Spec.{Time, seconds, before, or_clock}
use regenerative_architectur.Oauth2.Events.{DomainEvent}
use regenerative_architectur.Oauth2.Records.{Result, ok, err}
use regenerative_architectur.Stores.Tenant.{default_tenant}
use regenerative_architectur.Stores.Par.{ParRecord, ParStore, save, consume}
use regenerative_architectur.UseCases.Ports.{Ports, Entropy}
use regenerative_architectur.UseCases.Details.{and_then}
use regenerative_architectur.UseCases.Par.{
  Parameters, ParInput, ParResult, ParDeps, text_at, known_client, check_details, pushed_record,
  make_record, saved_par, push_authorization_request,
}

and_then-ok :
    {A B : Type 0} (r : Result A) (f : A → Result B) {b : B}
    → and_then r f ≡ ok b
    → (a : A) × (f a ≡ ok b)
and_then-ok (ok a) f h = (a, h)
and_then-ok (err x) f h = absurd (cc)

make_record-pushed :
    (d : Ports) (e : Entropy) (deps : ParDeps) (tenant_id : String) (input : ParInput) (now : Time)
    (rec : ParRecord Parameters)
    → make_record d e deps tenant_id input now ≡ ok rec
    → (id : String) × (rec ≡ pushed_record tenant_id id input now)
unfolding make_record
make_record-pushed d e deps tenant_id input now rec h0 =
    let (c, h1) =
      and_then-ok (and_then (d.find_client tenant_id input.client_id) known_client) _ h0 in
    let (_, h2) =
      and_then-ok (check_details deps tenant_id (text_at "authorization_details" input.parameters))
        _ h1 in
    let (id, h3) = and_then-ok e.token _ h2 in
    let (_, h4) = and_then-ok (deps.validate_par (pushed_record tenant_id id input now)) _ h3 in
    (id, cc)

saved_par-ok :
    (now : Time) (tenant_id : String) (x : Result (ParRecord Parameters)) (s : ParStore Parameters)
    {r : ParResult} {events : List DomainEvent} {s' : ParStore Parameters}
    → saved_par now tenant_id x s ≡ ((ok r, events), s')
    → (rec : ParRecord Parameters) × (x ≡ ok rec)
      × (r.request_uri ≡ rec.request_uri)
      × (s' ≡ save rec s)
saved_par-ok now tenant_id (ok rec) s {r} {events} {s'} h =
    let answer : ◌≡◌ {A = Result ParResult}
        (ok (record { request_uri = rec.request_uri; expires_in = 90 })) (ok r) =
      ap (λ y. y.0.0) h in
    let result : ◌≡◌ {A = ParResult} (record { request_uri = rec.request_uri; expires_in = 90 }) r =
      cc answer in
    (rec, refl, ap (λ y. y.request_uri) (sym result), ap (λ y. y.1) (sym h))
saved_par-ok now tenant_id (err x) s h = absurd (cc)

abbrev used_up : ParRecord Parameters → ParRecord Parameters
used_up rec = record rec { used = true }

abbrev stored : ParRecord Parameters → ParRecord Parameters
stored rec = record rec { tenant_id = default_tenant rec.tenant_id }

-- A fresh record is consumed until its expiry has passed.
consume-saved :
    (clock : Time) (rec : ParRecord Parameters) (s : ParStore Parameters)
    → rec.tenant_id ≢ ""
    → rec.used ≡ false
    → (consume clock rec.request_uri (save rec s)).0
      ≡ (if before rec.expires_at clock then none else some (record rec { used = true }))
unfolding consume save default_tenant
consume-saved clock rec s named fresh =
    let same : stored rec ≡ rec = ground (arith, eq_iff rec.tenant_id "") in
    elim (Bool-cases (before rec.expires_at clock)) [
      | inl late ↦
          rw (find-put_self rec.request_uri (stored rec) s, consume) (rw fresh (rw late refl))
      | inr in_time ↦
          rw (find-put_self rec.request_uri (stored rec) s, consume)
            (rw fresh (rw in_time (ap (λ x. some (used_up x)) same)))
    ]

-- The record that a pushed request is answered with.
abbrev pub consumed : String → ParInput → String → Time → ParRecord Parameters
consumed tenant_id input uri now = record {
  request_uri = uri;
  tenant_id = tenant_id;
  client_id = input.client_id;
  request = input.parameters;
  expires_at = now + seconds 90;
  used = true;
}

-- A request that was pushed comes back under the request_uri of the answer, with its client and all of
-- its parameters, when it is consumed within the 90 seconds that the answer tells, and not afterwards.
-- The tenant has a name.
pub push-consume :
    (d : Ports) (e : Entropy) (deps : ParDeps) (tenant_id : String) (input : ParInput)
    (now clock' : Time) (s s' : ParStore Parameters) (r : ParResult) (events : List DomainEvent)
    → tenant_id ≢ ""
    → push_authorization_request d e deps tenant_id input now s ≡ ((ok r, events), s')
    → (consume clock' r.request_uri s').0 ≡ (
        if before (or_clock d.clock now + seconds 90) clock'
        then none
        else some (consumed tenant_id input r.request_uri (or_clock d.clock now)))
unfolding push_authorization_request
push-consume d e deps tenant_id input now clock' s s' r events named h =
    let at = or_clock d.clock now in
    let (rec, made, uri, saved) =
      saved_par-ok at tenant_id (make_record d e deps tenant_id input at) s h in
    let (id, is_pushed) = make_record-pushed d e deps tenant_id input at rec made in
    let pushed = pushed_record tenant_id id input at in
    let same_uri : r.request_uri ≡ pushed.request_uri = uri ∙ ap (λ x. x.request_uri) is_pushed in
    let same_store : s' ≡ save pushed s = saved ∙ ap (λ x. save x s) is_pushed in
    ap (λ u. (consume clock' u s').0) same_uri
    ∙ ap (λ t. (consume clock' pushed.request_uri t).0) same_store
    ∙ consume-saved clock' pushed s named refl
    ∙ ap
        (λ u.
          if before (at + seconds 90) clock' then none else some (consumed tenant_id input u at))
        (sym same_uri)
