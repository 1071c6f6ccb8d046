-- ===== src/UseCases/Code/Replay.antt =====
-- A code that is presented again takes the refresh token back that it had given.
use mathlib.Core.Path.{subst}
use mathlib.Core.Option
use regenerative_architectur.Base.{
  some_inj, ◌≡◌, ◌≢◌, refl, sym, ap, ◌∙◌, String, List, true, some, eq_refl, contains, find,
  find-put_self, Option,
}
use regenerative_architectur.Spec.{Time, or_clock}
use regenerative_architectur.Stores.AuthorizationCodes.{
  AuthorizationCodeStore, find_code, link_family, redeem_code,
}
use regenerative_architectur.Stores.AuthorizationCodes.Laws.{redeem_code-Redeemed}
use regenerative_architectur.Stores.RefreshTokens.{
  RefreshTokenStore, find_by_hash, save, stored, revoke_in,
}
use regenerative_architectur.Stores.RefreshTokens.Invariant.{Linked, IsNew, save-Linked}
use regenerative_architectur.Stores.RefreshTokens.Laws.{
  find_by_hash-save, find_by_hash-revoke_family, revoke_in-revoked,
}
use regenerative_architectur.Oauth2.Records.{
  Oauth2Client, User, SenderConstraint, AuthorizationCodeRecord, RefreshTokenRecord, ok, err, oauth,
  invalid_grant,
}
use regenerative_architectur.UseCases.Monad.{World}
use regenerative_architectur.UseCases.Inversion.{step_ok, lift_ok, some_ok, return_ok, try_codes_ok}
use regenerative_architectur.UseCases.Ports.{Ports, Entropy}
use regenerative_architectur.UseCases.Refresh.{
  GeneratedRefreshToken, initial, generate_initial_refresh_token,
}
use regenerative_architectur.UseCases.Refresh.Rotation.{IsFresh}
use regenerative_architectur.UseCases.Code.Exchange.{
  ExchangeCodeInput, ExchangeCodeOutput, code_access_token, sign_id_token_for, refresh_token_for,
  refuse_used, issue_for_code, check_code, code_parties, exchange_code_for_token,
}
use regenerative_architectur.UseCases.Code.Checks.{
  revoke_linked, refuse_used-fails, check_code-CodeChecked, code_parties-PartiesChecked,
}
use regenerative_architectur.UseCases.Code.Kept.{
  sign_id_token_for-same, generate_initial-same, after_signing, after_grant,
}
use regenerative_architectur.UseCases.Code.Once.{exchange_code_for_token-once}

-- The record of a code names the family of the refresh token with a hash.
abbrev LeadsTo : String → String → World → Type 0
LeadsTo code hash w =
    (r : AuthorizationCodeRecord) × (t : RefreshTokenRecord) × (find_code w.codes code ≡ some r)
    × (r.issued_family_id ≡ some t.family_id)
    × (find_by_hash w.refresh hash ≡ some t)
    × Linked w.refresh

link_family-linked :
    (code family : String) (s t : AuthorizationCodeStore) (r : AuthorizationCodeRecord)
    → find_code s code ≡ some r
    → link_family code family s ≡ (ok tt, t)
    → find_code t code ≡ some (record r { issued_family_id = some family })
unfolding link_family find_code
link_family-linked code family s t r found e =
    let h = rw (found, link_family) at e in
    rw (sym (ap (λ p. p.1) h)) (find-put_self code (record r { issued_family_id = some family }) s)

-- The first record of a family is made of what was drawn.
generate_initial-drawn :
    (d : Ports) (e : Entropy) (client_id sub : String) (scopes : List String)
    (sc : Option SenderConstraint) (now : Time) (w w' : World) {g : GeneratedRefreshToken}
    → generate_initial_refresh_token d e client_id sub scopes sc now w ≡ (ok g, w')
    → (e.token ≡ ok g.token) × (g.rec.hash ≡ d.sha256_hex g.token) × (e.id ≡ ok g.rec.id)
unfolding generate_initial_refresh_token initial
generate_initial-drawn d e client_id sub scopes sc now w w' {g} h0 =
    let (token, is_token, h1) = lift_ok e.token _ _ h0 in
    let (id, is_id, h2) = lift_ok e.id _ _ h1 in
    let (family, _, h3) = lift_ok e.family_id _ _ h2 in
    let made = initial d token id family client_id sub scopes sc (or_clock d.clock now) in
    let (_, _, h4) = lift_ok (d.validate_refresh_token made) _ _ h3 in
    let same = (return_ok h4).0 in
    subst (λ x. (e.token ≡ ok x.token) × (x.rec.hash ≡ d.sha256_hex x.token) × (e.id ≡ ok x.rec.id))
      same (is_token, refl, is_id)

-- A new record is found under its hash.
save-found :
    (rec : RefreshTokenRecord) (s : RefreshTokenStore)
    → Linked s
    → find_by_hash (save rec s) rec.hash ≡ some (stored rec)
save-found rec s l = find_by_hash-save rec s rec.hash l ∙ rw (eq_refl rec.hash) refl

module _ (d : Ports) (e : Entropy) (tenant_id : String) (c : Oauth2Client) (u : User)
    (rec : AuthorizationCodeRecord) (sc : Option SenderConstraint) where
  refresh_token_for-LeadsTo :
      (now : Time) (w w' : World) (r : AuthorizationCodeRecord) {t : String}
      → contains rec.scopes "offline_access" ≡ true
      → find_code w.codes rec.code ≡ some r
      → Linked w.refresh
      → IsFresh d e w.refresh
      → refresh_token_for d e tenant_id c u rec sc now w ≡ (ok t, w')
      → LeadsTo rec.code (d.sha256_hex t) w'
  unfolding refresh_token_for
  refresh_token_for-LeadsTo now w w' r {t} wanted found l fresh h =
      let (g, v, made, h1) =
        step_ok (generate_initial_refresh_token d e c.client_id u.sub rec.scopes sc now w) _
          (rw (wanted, refresh_token_for) at h) in
      let same = generate_initial-same d e c.client_id u.sub rec.scopes sc now made in
      let (token, hash, id) =
        generate_initial-drawn d e c.client_id u.sub rec.scopes sc now _ _ made in
      let granted : RefreshTokenRecord = record (g.rec) { tenant_id = tenant_id } in
      let (_, s, linked, h2) =
        try_codes_ok (link_family rec.code g.rec.family_id v.codes)
          (after_grant d e tenant_id c u rec sc now rec.code g v) _ h1 in
      let (same_text, same_world) = return_ok h2 in
      let lv : Linked v.refresh = subst (λ x. Linked x.refresh) same l in
      let fv : IsFresh d e v.refresh = subst (λ x. IsFresh d e x.refresh) same fresh in
      let new : IsNew granted v.refresh = record {
        hash = ap (λ k. find k v.refresh.by_hash) hash ∙ fv.hash g.token token;
        id = fv.id g.rec.id id;
      } in
      let there =
        ap (λ k. find_by_hash (save granted v.refresh) k)
          (ap (λ k. d.sha256_hex k) (sym same_text) ∙ sym hash)
        ∙ save-found granted v.refresh lv in
      subst (λ x. LeadsTo rec.code (d.sha256_hex t) x) same_world
        (
          record r { issued_family_id = some g.rec.family_id },
          stored granted,
          link_family-linked rec.code g.rec.family_id v.codes s r
              (subst (λ x. find_code x.codes rec.code ≡ some r) same found) linked,
          refl,
          there,
          save-Linked granted v.refresh new lv,
        )

  issue_for_code-LeadsTo :
      (w w' : World) (r : AuthorizationCodeRecord) {out : ExchangeCodeOutput}
      → contains rec.scopes "offline_access" ≡ true
      → find_code w.codes rec.code ≡ some r
      → Linked w.refresh
      → IsFresh d e w.refresh
      → issue_for_code d e tenant_id c u rec sc w ≡ (ok out, w')
      → LeadsTo rec.code (d.sha256_hex out.refresh_token) w'
  unfolding issue_for_code
  issue_for_code-LeadsTo w w' r {out} wanted found l fresh h0 =
      let (signed, _, h1) = lift_ok (d.sign_access_token (code_access_token c u rec sc)) _ _ h0 in
      let (id_token, v, id_signed, h2) =
        step_ok
          (sign_id_token_for d c u rec signed.0 (after_signing d tenant_id c u rec sc signed.1 w)) _
          h1 in
      let same = sign_id_token_for-same d c u rec signed.0 id_signed in
      let (refresh, v', drawn, h3) =
        step_ok (refresh_token_for d e tenant_id c u rec sc d.clock v) _ h2 in
      let leads =
        refresh_token_for-LeadsTo d.clock v v' r wanted
          (subst (λ x. find_code x.codes rec.code ≡ some r) same found)
          (subst (λ x. Linked x.refresh) same l) (subst (λ x. IsFresh d e x.refresh) same fresh)
          drawn in
      let (same_out, same_world) = return_ok h3 in
      subst (λ x. LeadsTo rec.code (d.sha256_hex out.refresh_token) x) same_world
        (subst (λ o. LeadsTo rec.code (d.sha256_hex o.refresh_token) v') same_out leads)

-- A code that was exchanged for a refresh token is traced to it afterwards.
exchange_code_for_token-LeadsTo :
    (d : Ports) (e : Entropy) (tenant_id : String) (input : ExchangeCodeInput) (w w' : World)
    (out : ExchangeCodeOutput) (rec : AuthorizationCodeRecord)
    → exchange_code_for_token d e tenant_id input w ≡ (ok out, w')
    → find_code w.codes input.code ≡ some rec
    → rec.code ≡ input.code
    → contains rec.scopes "offline_access" ≡ true
    → Linked w.refresh
    → IsFresh d e w.refresh
    → LeadsTo input.code (d.sha256_hex out.refresh_token) w'
unfolding exchange_code_for_token
exchange_code_for_token-LeadsTo d e tenant_id input w w' out rec h0 known key wanted l fresh =
    let (r0, v, checks, h1) = step_ok (check_code d tenant_id input w) _ h0 in
    let (same, checked) = check_code-CodeChecked d tenant_id input checks in
    let ((c, u), v1, who, h2) = step_ok (code_parties d tenant_id input.client_id r0 v) _ h1 in
    let (same1, _) = code_parties-PartiesChecked d tenant_id input.client_id r0 who in
    let (answer, s, redemption, h3) =
      try_codes_ok (redeem_code input.code d.clock v1.codes) v1 _ h2 in
    let (rec', is_rec, h4) =
      some_ok answer (refuse_used r0) (record v1 { codes = s }) _
        (refuse_used-fails r0 (record v1 { codes = s })) h3 in
    let r =
      redeem_code-Redeemed input.code d.clock v1.codes (redemption ∙ ap (λ o. (ok o, s)) is_rec) in
    let unchanged : w ≡ v1 = same ∙ same1 in
    let old : r.old ≡ rec =
      some_inj (sym r.was ∙ ap (λ x. find_code x.codes input.code) (sym unchanged) ∙ known) in
    let own : rec'.code ≡ input.code = ap (λ x. x.code) r.answer ∙ ap (λ x. x.code) old ∙ key in
    let scopes : contains rec'.scopes "offline_access" ≡ true =
      ap (λ x. contains x.scopes "offline_access") r.answer
      ∙ ap (λ x. contains x.scopes "offline_access") old
      ∙ wanted in
    subst (λ k. LeadsTo k (d.sha256_hex out.refresh_token) w') own
      (issue_for_code-LeadsTo d e tenant_id c u rec' _ (record v1 { codes = s }) w' _ scopes
        (ap (λ k. find_code s k) own ∙ r.is) (subst (λ x. Linked x.refresh) unchanged l)
        (subst (λ x. IsFresh d e x.refresh) unchanged fresh) h4)

-- When a code that was exchanged for a refresh token is presented again to the tenant, with some
-- verifier and redirect URI, it is refused with invalid_grant, and the refresh token that the exchange
-- had returned is revoked in the store. The code had the scope offline_access and is stored under its
-- own text, the indexes of the refresh store agree, and the random source drew what the store does not
-- hold. No text of these is empty.
pub exchange_code_for_token-replay_revokes :
    (d d' : Ports) (e e' : Entropy) (tenant_id : String) (input input' : ExchangeCodeInput)
    (w w' : World) (out : ExchangeCodeOutput) (rec : AuthorizationCodeRecord)
    → exchange_code_for_token d e tenant_id input w ≡ (ok out, w')
    → find_code w.codes input.code ≡ some rec
    → rec.code ≡ input.code
    → contains rec.scopes "offline_access" ≡ true
    → Linked w.refresh
    → IsFresh d e w.refresh
    → input'.code ≡ input.code
    → input'.code ≢ ""
    → input'.code_verifier ≢ ""
    → input'.redirect_uri ≢ ""
    → ((exchange_code_for_token d' e' tenant_id input' w').0 ≡ err (oauth invalid_grant))
      × (t : RefreshTokenRecord) × (find_by_hash
            (exchange_code_for_token d' e' tenant_id input' w').1.refresh
            (d.sha256_hex out.refresh_token)
          ≡ some t)
      × (t.revoked ≡ true)
exchange_code_for_token-replay_revokes d d' e e' tenant_id input input' w w' out rec h known key
      wanted l fresh again code verifier uri =
    let (q, found, refused) =
      exchange_code_for_token-once d d' e e' tenant_id input input' w w' out h again code verifier
        uri in
    let (r, t, at, names, stored_t, l') =
      exchange_code_for_token-LeadsTo d e tenant_id input w w' out rec h known key wanted l fresh in
    let same : q ≡ r = some_inj (sym found ∙ ap (λ k. find_code w'.codes k) again ∙ at) in
    let revoked =
      refused
      ∙ ap (λ o. (err (oauth invalid_grant), revoke_linked o w'))
          (ap (λ x. x.issued_family_id) same ∙ names) in
    (
      ap (λ p. p.0) revoked,
      revoke_in t.family_id t,
      ap (λ p. find_by_hash p.1.refresh (d.sha256_hex out.refresh_token)) revoked
          ∙ find_by_hash-revoke_family t.family_id w'.refresh _ l'
          ∙ ap (λ o. Option.map (revoke_in t.family_id) o) stored_t,
      revoke_in-revoked t.family_id t refl,
    )
