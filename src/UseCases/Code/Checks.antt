-- ===== src/UseCases/Code/Checks.antt =====
-- What a code exchange that succeeds has checked, and that a code is good for one exchange.
use regenerative_architectur.Base.{
  ◌<◌, ◌≡◌, refl, ap, ◌∙◌, String, Bool, true, not, ◌&&◌, Option, none, some, arith, ◌==◌, eq_iff,
  inl, inr, Option-cases,
}
use mathlib.Core.Path.{subst}
use regenerative_architectur.Spec.{Time, before}
use regenerative_architectur.Stores.AuthorizationCodes.{find_code}
use regenerative_architectur.Stores.RefreshTokens.{revoke_family}
use regenerative_architectur.Oauth2.Records.{
  Oauth2Client, User, is_active, AuthorizationCodeRecord, oauth, invalid_grant, ok, err,
}
use regenerative_architectur.UseCases.Monad.{World}
use regenerative_architectur.UseCases.Inversion.{
  lift_ok, some_ok, guard_ok, guard_else_ok, return_ok,
}
use regenerative_architectur.UseCases.Ports.{Ports}
use regenerative_architectur.UseCases.Code.Exchange.{
  ExchangeCodeInput, is_issued, refuse_used, verify_pkce_s256, check_code, code_parties,
}

-- The world after a used code was refused: the family that it had issued, if any, is revoked.
abbrev pub revoke_linked : Option String → World → World
revoke_linked none w = w
revoke_linked (some family) w = record w { refresh = revoke_family family w.refresh }

pub refuse_used-fails :
    {A : Type 0} (rec : AuthorizationCodeRecord) (w : World)
    → refuse_used {A = A} rec w ≡ (err (oauth invalid_grant), revoke_linked rec.issued_family_id w)
unfolding refuse_used
refuse_used-fails rec w = elim (Option-cases rec.issued_family_id) [
  | inl alone ↦ rw alone refl
  | inr (family, linked) ↦ rw linked refl
]

-- The code is known to the tenant, in time and not used; it was issued to this client for this redirect
-- URI, and the verifier is the one whose hash came with the authorization request.
pub record CodeChecked (d : Ports) (tenant_id : String) (input : ExchangeCodeInput) (w : World)
    (rec : AuthorizationCodeRecord) : Type 0 where
  pub known : find_code w.codes input.code ≡ some rec
  pub tenant : rec.tenant_id ≡ tenant_id
  pub unused : is_issued rec.state ≡ true
  pub in_time : d.clock < rec.expires_at
  pub issued_to : rec.client_id ≡ input.client_id
  pub redirect : rec.redirect_uri ≡ input.redirect_uri
  pub proof : d.sha256_base64 input.code_verifier ≡ rec.code_challenge

usable :
    (a : Bool) (clock until : Time)
    → (a && before clock until) ≡ true
    → (a ≡ true) × (clock < until)
usable a clock until h = ground arith

pkce :
    (d : Ports) (verifier challenge : String)
    → verify_pkce_s256 d verifier challenge ≡ true
    → d.sha256_base64 verifier ≡ challenge
unfolding verify_pkce_s256
pkce d verifier challenge h = (eq_iff _ _).0 h

pub check_code-CodeChecked :
    (d : Ports) (tenant_id : String) (input : ExchangeCodeInput) {w w' : World}
    {rec : AuthorizationCodeRecord}
    → check_code d tenant_id input w ≡ (ok rec, w')
    → (w ≡ w') × CodeChecked d tenant_id input w rec
unfolding check_code
check_code-CodeChecked d tenant_id input {w} {w'} {rec} h0 =
    let (_, h1) = guard_ok (not (input.code == "")) _ _ _ h0 in
    let (_, h2) = guard_ok (not (input.code_verifier == "")) _ _ _ h1 in
    let (_, h3) = guard_ok (not (input.redirect_uri == "")) _ _ _ h2 in
    let (r1, known, h4) = some_ok (find_code w.codes input.code) _ _ _ refl h3 in
    let (tenant, h5) = guard_ok (r1.tenant_id == tenant_id) _ _ _ h4 in
    let (unused, h6) =
      guard_else_ok (is_issued r1.state && before d.clock r1.expires_at) (refuse_used r1) w _
        (refuse_used-fails r1 w) h5 in
    let (issued_to, h7) = guard_ok (r1.client_id == input.client_id) _ _ _ h6 in
    let (redirect, h8) = guard_ok (r1.redirect_uri == input.redirect_uri) _ _ _ h7 in
    let (proved, h9) =
      guard_ok (verify_pkce_s256 d input.code_verifier r1.code_challenge) _ _ _ h8 in
    let (same, same_world) = return_ok h9 in
    (
      same_world,
      subst (λ r. CodeChecked d tenant_id input w r) same
          (record {
            known = known;
            tenant = (eq_iff _ _).0 tenant;
            unused = (usable _ _ _ unused).0;
            in_time = (usable (is_issued r1.state) _ _ unused).1;
            issued_to = (eq_iff _ _).0 issued_to;
            redirect = (eq_iff _ _).0 redirect;
            proof = pkce d input.code_verifier r1.code_challenge proved;
          }),
    )

-- The client is the tenant's, and the user the code was issued for may use the tenant.
pub record PartiesChecked (d : Ports) (tenant_id client_id sub : String) (c : Oauth2Client)
    (u : User) : Type 0 where
  pub client : d.find_client tenant_id client_id ≡ ok (some c)
  pub user : d.find_user sub ≡ ok (some u)
  pub tenant : u.tenant_id ≡ tenant_id
  pub active : is_active u ≡ true

pub code_parties-PartiesChecked :
    (d : Ports) (tenant_id client_id : String) (rec : AuthorizationCodeRecord) {w w' : World}
    {c : Oauth2Client} {u : User}
    → code_parties d tenant_id client_id rec w ≡ (ok (c, u), w')
    → (w ≡ w') × PartiesChecked d tenant_id client_id rec.sub c u
unfolding code_parties
code_parties-PartiesChecked d tenant_id client_id rec {w} {w'} {c} {u} h0 =
    let (found, is_found, h1) = lift_ok (d.find_client tenant_id client_id) _ _ h0 in
    let (c1, is_client, h2) = some_ok found _ _ _ refl h1 in
    let (owner, is_owner, h3) = lift_ok (d.find_user rec.sub) _ _ h2 in
    let (u1, is_user, h4) = some_ok owner _ _ _ refl h3 in
    let (tenant, h5) = guard_ok (u1.tenant_id == tenant_id) _ _ _ h4 in
    let (active, h6) = guard_ok (is_active u1) _ _ _ h5 in
    let (same, same_world) = return_ok h6 in
    (
      same_world,
      subst (λ p. PartiesChecked d tenant_id client_id rec.sub p.0 p.1) same
          (record {
            client = is_found ∙ ap (λ o. ok o) is_client;
            user = is_owner ∙ ap (λ o. ok o) is_user;
            tenant = (eq_iff _ _).0 tenant;
            active = active;
          }),
    )
