-- ===== src/UseCases/Code/Kept.antt =====
-- What follows the redemption of a code leaves its record redeemed.
use mathlib.Core.Path.{subst}
use regenerative_architectur.Base.{
  ◌≡◌, sym, ap, ◌∙◌, String, true, Option, some, List, ◌∷◌, arith, ◌==◌, eq_iff, contains, find,
  put, find-put, inl, inr, Option-cases, Bool-cases,
}
use regenerative_architectur.Spec.{Time, or_clock}
use regenerative_architectur.Machines.CodeRecord.{redeemed}
use regenerative_architectur.Stores.AuthorizationCodes.{
  AuthorizationCodeStore, find_code, link_family,
}
use regenerative_architectur.Stores.RefreshTokens.{save}
use regenerative_architectur.Oauth2.Records.{
  Oauth2Client, User, SenderConstraint, AuthorizationCodeRecord, Result, ok,
}
use regenerative_architectur.Oauth2.Events.{
  authorization_code_redeemed, refresh_token_issued, access_token_issued,
}
use regenerative_architectur.UseCases.Senders.{tag_of}
use regenerative_architectur.UseCases.Monad.{World}
use regenerative_architectur.UseCases.Inversion.{step_ok, lift_ok, return_ok, try_codes_ok}
use regenerative_architectur.UseCases.Ports.{Ports, Entropy}
use regenerative_architectur.UseCases.Refresh.{
  GeneratedRefreshToken, initial, generate_initial_refresh_token,
}
use regenerative_architectur.UseCases.Code.Exchange.{
  ExchangeCodeOutput, code_access_token, sign_id_token_for, refresh_token_for, issue_for_code,
}

-- The code's record stays redeemed, for the same tenant.
abbrev pub StillRedeemed : String → String → World → Type 0
StillRedeemed code tenant_id w =
    (r : AuthorizationCodeRecord) × (find_code w.codes code ≡ some r)
    × (r.state ≡ redeemed)
    × (r.tenant_id ≡ tenant_id)

link_family-keeps :
    (code tenant_id other family : String) (s t : AuthorizationCodeStore)
    (r : AuthorizationCodeRecord)
    → find_code s code ≡ some r
    → r.state ≡ redeemed
    → r.tenant_id ≡ tenant_id
    → link_family other family s ≡ (ok tt, t)
    → (r' : AuthorizationCodeRecord) × (find_code t code ≡ some r')
      × (r'.state ≡ redeemed)
      × (r'.tenant_id ≡ tenant_id)
unfolding link_family find_code
link_family-keeps code tenant_id other family s t r found state tenant e =
    elim (Option-cases (find other s)) [
      | inl missing ↦ absurd (ground (arith, missing, e))
      | inr (q, at) ↦
          let q' = record q { issued_family_id = some family } in
          let e1 : ◌≡◌ {A = Result (Unit {0}) × AuthorizationCodeStore} (ok tt, put other q' s)
              (ok tt, t) =
            ground (arith, at, e) in
          let same : put other q' s ≡ t = cc in
          elim (Bool-cases (code == other)) [
            | inl own ↦
                let is_r : q ≡ r = ground (arith, eq_iff code other, own, at, found) in
                (
                  q',
                  rw (sym same) (ground (arith, find-put code other q' s, own)),
                  ap (λ x. x.state) is_r ∙ state,
                  ap (λ x. x.tenant_id) is_r ∙ tenant,
                )
            | inr differs ↦ (
              r,
              rw (sym same) (ground (arith, find-put code other q' s, differs, found)),
              state,
              tenant,
            )
          ]
    ]

pub sign_id_token_for-same :
    (d : Ports) (c : Oauth2Client) (u : User) (rec : AuthorizationCodeRecord) (access : String)
    {w w' : World} {t : String}
    → sign_id_token_for d c u rec access w ≡ (ok t, w')
    → w ≡ w'
unfolding sign_id_token_for
sign_id_token_for-same d c u rec access h = elim (Bool-cases (contains rec.scopes "openid")) [
  | inl wanted ↦ ap (λ p. p.1) (rw (wanted, sign_id_token_for) at h)
  | inr unwanted ↦ ap (λ p. p.1) (rw (unwanted, sign_id_token_for) at h)
]

pub generate_initial-same :
    (d : Ports) (e : Entropy) (client_id sub : String) (scopes : List String)
    (sc : Option SenderConstraint) (now : Time) {w w' : World} {g : GeneratedRefreshToken}
    → generate_initial_refresh_token d e client_id sub scopes sc now w ≡ (ok g, w')
    → w ≡ w'
unfolding generate_initial_refresh_token
generate_initial-same d e client_id sub scopes sc now {w} {w'} {g} h0 =
    let (token, _, h1) = lift_ok e.token _ _ h0 in
    let (id, _, h2) = lift_ok e.id _ _ h1 in
    let (family, _, h3) = lift_ok e.family_id _ _ h2 in
    let (_, _, h4) =
      lift_ok
        (d.validate_refresh_token
          (initial d token id family client_id sub scopes sc (or_clock d.clock now)))
        _ _ h3 in
    (return_ok h4).1

module _ (d : Ports) (e : Entropy) (tenant_id : String) (c : Oauth2Client) (u : User)
    (rec : AuthorizationCodeRecord) (sc : Option SenderConstraint) (now : Time)
    (code : String) where
  -- The refresh token is saved for the tenant, and its issue is logged.
  abbrev pub after_grant : GeneratedRefreshToken → World → World
  after_grant g v =
      let granted = record (g.rec) { tenant_id = tenant_id } in
      record v {
        refresh = save granted v.refresh;
        events =
            refresh_token_issued now tenant_id granted.id granted.family_id c.client_id u.sub
            ∷ v.events;
      }

  refresh_token_for-offline :
      (w w' : World) {t : String}
      → contains rec.scopes "offline_access" ≡ true
      → StillRedeemed code tenant_id w
      → refresh_token_for d e tenant_id c u rec sc now w ≡ (ok t, w')
      → StillRedeemed code tenant_id w'
  unfolding refresh_token_for
  refresh_token_for-offline w w' {t} wanted (r, found, state, tenant) h =
      let (g, v, made, h1) =
        step_ok (generate_initial_refresh_token d e c.client_id u.sub rec.scopes sc now w) _
          (rw (wanted, refresh_token_for) at h) in
      let same = generate_initial-same d e c.client_id u.sub rec.scopes sc now made in
      let (_, s, linked, h2) =
        try_codes_ok (link_family rec.code g.rec.family_id v.codes) (after_grant g v) _ h1 in
      let kept =
        link_family-keeps code tenant_id rec.code g.rec.family_id v.codes s r
          (subst (λ x. find_code x.codes code ≡ some r) same found) state tenant linked in
      subst (λ x. StillRedeemed code tenant_id x) (return_ok h2).1 kept

  refresh_token_for-keeps :
      (w w' : World) {t : String}
      → StillRedeemed code tenant_id w
      → refresh_token_for d e tenant_id c u rec sc now w ≡ (ok t, w')
      → StillRedeemed code tenant_id w'
  unfolding refresh_token_for
  refresh_token_for-keeps w w' still h = elim (Bool-cases (contains rec.scopes "offline_access")) [
    | inl wanted ↦ refresh_token_for-offline w w' wanted still h
    | inr unwanted ↦
        subst (λ x. StillRedeemed code tenant_id x)
          (ap (λ p. p.1) (rw (unwanted, refresh_token_for) at h)) still
  ]

-- The two events that follow the access token.
abbrev pub after_signing :
    Ports
    → String
    → Oauth2Client
    → User
    → AuthorizationCodeRecord
    → Option SenderConstraint
    → String
    → World
    → World
after_signing d tenant_id c u rec sc jti w = record w {
  events =
      authorization_code_redeemed d.clock tenant_id c.client_id u.sub
      ∷ access_token_issued d.clock tenant_id jti c.client_id u.sub rec.scopes (tag_of sc)
      ∷ w.events;
}

pub issue_for_code-keeps :
    (d : Ports) (e : Entropy) (tenant_id : String) (c : Oauth2Client) (u : User)
    (rec : AuthorizationCodeRecord) (sc : Option SenderConstraint) (code : String) (w w' : World)
    {out : ExchangeCodeOutput}
    → StillRedeemed code tenant_id w
    → issue_for_code d e tenant_id c u rec sc w ≡ (ok out, w')
    → StillRedeemed code tenant_id w'
unfolding issue_for_code
issue_for_code-keeps d e tenant_id c u rec sc code w w' (r, found, state, tenant) h0 =
    let (signed, _, h1) = lift_ok (d.sign_access_token (code_access_token c u rec sc)) _ _ h0 in
    let (id_token, v, id_signed, h2) =
      step_ok
        (sign_id_token_for d c u rec signed.0 (after_signing d tenant_id c u rec sc signed.1 w)) _
        h1 in
    let same = sign_id_token_for-same d c u rec signed.0 id_signed in
    let (refresh, v', drawn, h3) =
      step_ok (refresh_token_for d e tenant_id c u rec sc d.clock v) _ h2 in
    let kept =
      refresh_token_for-keeps d e tenant_id c u rec sc d.clock code v v'
        (subst (λ x. StillRedeemed code tenant_id x) same (r, found, state, tenant)) drawn in
    subst (λ x. StillRedeemed code tenant_id x) (return_ok h3).1 kept
