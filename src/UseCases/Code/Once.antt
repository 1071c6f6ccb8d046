-- ===== src/UseCases/Code/Once.antt =====
-- An authorization code is good for one exchange.
use regenerative_architectur.Base.{
  some_inj, ◌≡◌, ◌≢◌, refl, sym, ap, ◌∙◌, String, Bool, true, false, not, ◌&&◌, some, arith, ◌==◌,
  eq_iff,
}
use regenerative_architectur.Spec.{before}
use regenerative_architectur.Machines.CodeRecord.{AuthorizationCodeRecordState, redeemed}
use regenerative_architectur.Stores.AuthorizationCodes.{find_code, redeem_code}
use regenerative_architectur.Stores.AuthorizationCodes.Laws.{redeem_code-Redeemed, redeemed_at}
use regenerative_architectur.Oauth2.Records.{
  Oauth2Client, User, AuthorizationCodeRecord, oauth, invalid_grant, ok, err,
}
use regenerative_architectur.UseCases.Monad.{World}
use regenerative_architectur.UseCases.Inversion.{step_ok, some_ok, try_codes_ok}
use regenerative_architectur.UseCases.Ports.{Ports, Entropy}
use regenerative_architectur.UseCases.Code.Exchange.{
  ExchangeCodeInput, ExchangeCodeOutput, is_issued, refuse_used, check_code, code_parties,
  exchange_code_for_token,
}
use regenerative_architectur.UseCases.Code.Checks.{
  revoke_linked, refuse_used-fails, CodeChecked, check_code-CodeChecked, PartiesChecked,
  code_parties-PartiesChecked,
}
use regenerative_architectur.UseCases.Code.Kept.{StillRedeemed, issue_for_code-keeps}

is_given : (s : String) → s ≢ "" → not (s == "") ≡ true
is_given s h = ground (arith, eq_iff s "")

-- A code of the tenant that was redeemed before, or whose time has passed, is refused with invalid_grant
-- when it is presented with a verifier and a redirect URI; the family that it had issued, if any, is
-- revoked, and nothing else changes.
pub exchange_code_for_token-used_refused :
    (d : Ports) (e : Entropy) (tenant_id : String) (input : ExchangeCodeInput) (w : World)
    (rec : AuthorizationCodeRecord)
    → input.code ≢ ""
    → input.code_verifier ≢ ""
    → input.redirect_uri ≢ ""
    → find_code w.codes input.code ≡ some rec
    → rec.tenant_id ≡ tenant_id
    → (is_issued rec.state && before d.clock rec.expires_at) ≡ false
    → exchange_code_for_token d e tenant_id input w
      ≡ (err (oauth invalid_grant), revoke_linked rec.issued_family_id w)
unfolding exchange_code_for_token check_code
exchange_code_for_token-used_refused d e tenant_id input w rec code verifier uri known tenant used =
    rw (is_given _ code) (
      rw (is_given _ verifier) (
        rw (is_given _ uri) (
          rw known (
            rw ((eq_iff _ _).1 tenant)
              (rw used (rw (refuse_used-fails {A = Unit {0}} rec w) refl))))))

not_usable :
    (s : AuthorizationCodeRecordState) (b : Bool) → s ≡ redeemed → (is_issued s && b) ≡ false
not_usable s b h = rw h refl

-- What a code exchange that succeeds has checked, and that its code is spent.
pub record Exchanged (d : Ports) (tenant_id : String) (input : ExchangeCodeInput) (w w' : World)
    : Type 0 where
  pub rec : AuthorizationCodeRecord
  pub client : Oauth2Client
  pub user : User
  pub checked : CodeChecked d tenant_id input w rec
  pub parties : PartiesChecked d tenant_id input.client_id rec.sub client user
  pub spent : StillRedeemed input.code tenant_id w'

-- A code exchange that succeeds was made with a code that the tenant knows, that was not used and whose
-- time had not passed, by the client it was issued to and with the redirect URI and the verifier that
-- belong to it, for an active user of the tenant; afterwards the code's record is redeemed.
pub exchange_code_for_token-Exchanged :
    (d : Ports) (e : Entropy) (tenant_id : String) (input : ExchangeCodeInput) (w w' : World)
    (out : ExchangeCodeOutput)
    → exchange_code_for_token d e tenant_id input w ≡ (ok out, w')
    → Exchanged d tenant_id input w w'
unfolding exchange_code_for_token
exchange_code_for_token-Exchanged d e tenant_id input w w' out h0 =
    let (rec, v, checks, h1) = step_ok (check_code d tenant_id input w) _ h0 in
    let (same, checked) = check_code-CodeChecked d tenant_id input checks in
    let ((c, u), v1, who, h2) = step_ok (code_parties d tenant_id input.client_id rec v) _ h1 in
    let (same1, parties) = code_parties-PartiesChecked d tenant_id input.client_id rec who in
    let (answer, s, redemption, h3) =
      try_codes_ok (redeem_code input.code d.clock v1.codes) v1 _ h2 in
    let (rec', is_rec, h4) =
      some_ok answer (refuse_used rec) (record v1 { codes = s }) _
        (refuse_used-fails rec (record v1 { codes = s })) h3 in
    let r =
      redeem_code-Redeemed input.code d.clock v1.codes (redemption ∙ ap (λ o. (ok o, s)) is_rec) in
    record {
      rec = rec;
      client = c;
      user = u;
      checked = checked;
      parties = parties;
      spent =
          issue_for_code-keeps d e tenant_id c u rec' _ input.code (record v1 { codes = s }) w'
            (
              redeemed_at r.old d.clock,
              r.is,
              refl,
              ap (λ x. x.tenant_id)
                    (some_inj (
                      sym r.was
                      ∙ ap (λ x. find_code x.codes input.code) (sym (same ∙ same1))
                      ∙ checked.known))
                  ∙ checked.tenant,
            )
            h4;
    }

-- A code that was exchanged is refused with invalid_grant when it is presented again to the same
-- tenant with some verifier and redirect URI, by any client, at any time, in the state that the
-- exchange left; the family that is linked to it, if any, is then revoked, and nothing else changes.
-- No text of these is empty.
pub exchange_code_for_token-once :
    (d d' : Ports) (e e' : Entropy) (tenant_id : String) (input input' : ExchangeCodeInput)
    (w w' : World) (out : ExchangeCodeOutput)
    → exchange_code_for_token d e tenant_id input w ≡ (ok out, w')
    → input'.code ≡ input.code
    → input'.code ≢ ""
    → input'.code_verifier ≢ ""
    → input'.redirect_uri ≢ ""
    → (r : AuthorizationCodeRecord) × (find_code w'.codes input'.code ≡ some r)
      × (exchange_code_for_token d' e' tenant_id input' w'
          ≡ (err (oauth invalid_grant), revoke_linked r.issued_family_id w'))
exchange_code_for_token-once d d' e e' tenant_id input input' w w' out h same code verifier uri =
    let done = exchange_code_for_token-Exchanged d e tenant_id input w w' out h in
    let (r, found, state, tenant) = done.spent in
    let found' = ap (λ c. find_code w'.codes c) same ∙ found in
    (
      r,
      found',
      exchange_code_for_token-used_refused d' e' tenant_id input' w' r code verifier uri found'
          tenant (not_usable r.state (before d'.clock r.expires_at) state),
    )
