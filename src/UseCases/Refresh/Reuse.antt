-- ===== src/UseCases/Refresh/Reuse.antt =====
-- What RefreshTokens answers when a token is presented that it should not accept, a second time or by
-- the wrong client.
use mathlib.Core.Path.{subst}
use mathlib.Core.Option
use regenerative_architectur.Base.{
  ◌≡◌, refl, String, true, false, ◌||◌, some, ◌∷◌, arith, ◌==◌, eq_iff, inl, inr, ◌≢◌, ◌⊎◌, ap, ◌∙◌,
  if◌then◌else◌, Bool-cases,
}
use regenerative_architectur.Spec.{Time, or_clock}
use regenerative_architectur.Stores.RefreshTokens.{find_by_hash, revoke_family}
use regenerative_architectur.Stores.RefreshTokens.Invariant.{Linked}
use regenerative_architectur.Stores.RefreshTokens.Laws.{find_by_hash-revoke_family}
use regenerative_architectur.Oauth2.Records.{
  Oauth2Client, RefreshTokenRecord, Error, oauth, invalid_grant, Result, ok, err,
}
use regenerative_architectur.Oauth2.Events.{refresh_token_reuse_detected}
use regenerative_architectur.UseCases.Monad.{World}
use regenerative_architectur.UseCases.Inversion.{step_ok}
use regenerative_architectur.UseCases.Ports.{Ports, Entropy}
use regenerative_architectur.UseCases.Refresh.Domain.{is_refresh_token_replay}
use regenerative_architectur.UseCases.Refresh.Handler.{
  RefreshInput, RefreshResult, refresh_tokens, check_refresh,
}
use regenerative_architectur.UseCases.Refresh.Checks.{Checked, Permitted, check_refresh-Checked}
use regenerative_architectur.UseCases.Refresh.Issue.{Issued, issue_refreshed-Issued}

-- The state after a reuse was detected.
abbrev pub after_reuse : String → String → RefreshTokenRecord → Time → World → World
after_reuse tenant_id client_id rec now w = record w {
  refresh = revoke_family rec.family_id w.refresh;
  events = refresh_token_reuse_detected now tenant_id rec.family_id rec.id client_id ∷ w.events;
}

module _ (d : Ports) (tenant_id : String) (input : RefreshInput) (now : Time) (w : World)
    (c : Oauth2Client) (rec : RefreshTokenRecord)
    (client : d.find_client tenant_id input.client_id ≡ ok (some c))
    (known : find_by_hash w.refresh (d.sha256_hex input.refresh_token) ≡ some rec) where
  pub check-other_tenant :
      (rec.tenant_id == tenant_id) ≡ false
      → check_refresh d tenant_id input now w ≡ (err (oauth invalid_grant), w)
  unfolding check_refresh
  check-other_tenant other = rw client (rw known (rw other refl))

  check-other_client :
      (rec.tenant_id == tenant_id) ≡ true
      → (rec.client_id == c.client_id) ≡ false
      → check_refresh d tenant_id input now w
        ≡ (err (oauth invalid_grant), after_reuse tenant_id c.client_id rec now w)
  unfolding check_refresh
  check-other_client same other = rw client (rw known (rw same (rw other refl)))

  check-replay :
      (rec.tenant_id == tenant_id) ≡ true
      → (rec.client_id == c.client_id) ≡ true
      → (rec.rotated || rec.revoked) ≡ true
      → check_refresh d tenant_id input now w
        ≡ (err (oauth invalid_grant), after_reuse tenant_id c.client_id rec now w)
  unfolding check_refresh is_refresh_token_replay
  check-replay same own used = rw client (rw known (rw same (rw own (rw used refl))))

pub refresh_tokens-check_err :
    (d : Ports) (e : Entropy) (tenant_id : String) (input : RefreshInput) (now : Time) (w v : World)
    {x : Error}
    → check_refresh d tenant_id input (or_clock d.clock now) w ≡ (err x, v)
    → refresh_tokens d e tenant_id input now w ≡ (err x, v)
unfolding refresh_tokens
refresh_tokens-check_err d e tenant_id input now w v h = rw h refl

-- A record of the family, revoked.
abbrev pub revoked_with : String → RefreshTokenRecord → RefreshTokenRecord
revoked_with family r = if r.family_id == family then record r { revoked = true } else r

-- A refresh that was refused because of a reuse: every token that is found under some hash and belongs
-- to the family of the record is revoked, every other one is as before, and the reuse is logged.
pub record ReuseRefused {A : Type 0} (tenant_id client_id : String) (rec : RefreshTokenRecord)
    (now : Time) (w : World) (after : Result A × World) : Type 0 where
  pub answer : after.0 ≡ err (oauth invalid_grant)
  pub tokens :
      (h : String)
      → find_by_hash after.1.refresh h
        ≡ Option.map (revoked_with rec.family_id) (find_by_hash w.refresh h)
  pub logged :
      after.1.events
      ≡ refresh_token_reuse_detected now tenant_id rec.family_id rec.id client_id ∷ w.events
  pub codes : after.1.codes ≡ w.codes
  pub requests : after.1.requests ≡ w.requests
  pub devices : after.1.devices ≡ w.devices
  pub denylist : after.1.denylist ≡ w.denylist

after_reuse-ReuseRefused :
    {A : Type 0} (tenant_id client_id : String) (rec : RefreshTokenRecord) (now : Time) (w : World)
    (after : Result A × World)
    → Linked w.refresh
    → after ≡ (err (oauth invalid_grant), after_reuse tenant_id client_id rec now w)
    → ReuseRefused tenant_id client_id rec now w after
after_reuse-ReuseRefused tenant_id client_id rec now w after l e = record {
  answer = ap (λ x. x.0) e;
  tokens = λ h.
      ap (λ x. find_by_hash x.1.refresh h) e
      ∙ find_by_hash-revoke_family rec.family_id w.refresh h l;
  logged = ap (λ x. x.1.events) e;
  codes = ap (λ x. x.1.codes) e;
  requests = ap (λ x. x.1.requests) e;
  devices = ap (λ x. x.1.devices) e;
  denylist = ap (λ x. x.1.denylist) e;
}

-- The record was issued to another client, or it was rotated or revoked before.
abbrev pub IsMisused : Oauth2Client → RefreshTokenRecord → Type 0
IsMisused c rec = (rec.client_id ≢ c.client_id) ⊎ ((rec.rotated ≡ true) ⊎ (rec.revoked ≡ true))

misused_by_owner :
    (c : Oauth2Client) (rec : RefreshTokenRecord)
    → IsMisused c rec
    → (rec.client_id == c.client_id) ≡ true
    → (rec.rotated || rec.revoked) ≡ true
misused_by_owner c rec (inl other) own = absurd (other ((eq_iff _ _).0 own))
misused_by_owner c rec (inr (inl rotated)) own = rw rotated refl
misused_by_owner c rec (inr (inr revoked)) own = ground (arith, revoked)

pub refresh_tokens-misused :
    (d : Ports) (e : Entropy) (tenant_id : String) (input : RefreshInput) (now : Time) (w : World)
    (c : Oauth2Client) (rec : RefreshTokenRecord)
    → d.find_client tenant_id input.client_id ≡ ok (some c)
    → find_by_hash w.refresh (d.sha256_hex input.refresh_token) ≡ some rec
    → rec.tenant_id ≡ tenant_id
    → IsMisused c rec
    → refresh_tokens d e tenant_id input now w
      ≡ (err (oauth invalid_grant), after_reuse tenant_id c.client_id rec (or_clock d.clock now) w)
refresh_tokens-misused d e tenant_id input now w c rec client known tenant misused =
    let same = (eq_iff _ _).1 tenant in
    elim (Bool-cases (rec.client_id == c.client_id)) [
      | inr other ↦
          refresh_tokens-check_err d e tenant_id input now w _
            (check-other_client d tenant_id input _ w c rec client known same other)
      | inl own ↦ refresh_tokens-check_err d e tenant_id input now w _ (
          check-replay d tenant_id input _ w c rec client known same own
            (misused_by_owner c rec misused own))
    ]

-- A refresh token of the tenant that is presented by another client than its own, or that was rotated
-- or revoked before, is refused with invalid_grant. Afterwards every token of its family that is found
-- under some hash is revoked and every other token is as before, the reuse is logged, and no other store
-- changes. The indexes of the store agree.
pub refresh_tokens-ReuseRefused :
    (d : Ports) (e : Entropy) (tenant_id : String) (input : RefreshInput) (now : Time) (w : World)
    (c : Oauth2Client) (rec : RefreshTokenRecord)
    → Linked w.refresh
    → d.find_client tenant_id input.client_id ≡ ok (some c)
    → find_by_hash w.refresh (d.sha256_hex input.refresh_token) ≡ some rec
    → rec.tenant_id ≡ tenant_id
    → IsMisused c rec
    → ReuseRefused tenant_id c.client_id rec
        (or_clock d.clock now)
        w
        (refresh_tokens d e tenant_id input now w)
refresh_tokens-ReuseRefused d e tenant_id input now w c rec l client known tenant misused =
    after_reuse-ReuseRefused tenant_id c.client_id rec (or_clock d.clock now) w
      (refresh_tokens d e tenant_id input now w) l
      (refresh_tokens-misused d e tenant_id input now w c rec client known tenant misused)

-- A refresh that succeeds passed its checks: the client is the tenant's, the token is stored for the
-- tenant and that client, neither rotated nor revoked and within the absolute lifetime of its family, and
-- its user is active in the tenant. The policy permitted it: unless another authorizer decides, the
-- client declares the refresh grant, and a token with a sender constraint came with the thumbprint
-- that it is bound to. It rotated the token to a successor made of what the random source
-- drew, whose text it returns, with the token's scopes.
pub refresh_tokens-ok :
    (d : Ports) (e : Entropy) (tenant_id : String) (input : RefreshInput) (now : Time)
    {w w' : World} {res : RefreshResult}
    → refresh_tokens d e tenant_id input now w ≡ (ok res, w')
    → (c : Oauth2Client) × (rec : RefreshTokenRecord) × Checked d tenant_id input
        (or_clock d.clock now)
        w
        c
        rec
      × Permitted d c rec input (or_clock d.clock now)
      × Issued d e (or_clock d.clock now) rec w w' res
unfolding refresh_tokens
refresh_tokens-ok d e tenant_id input now {w} {w'} {res} h0 =
    let ((c, rec), v, checks, h1) =
      step_ok (check_refresh d tenant_id input (or_clock d.clock now) w) _ h0 in
    let (same, checked, permitted) = check_refresh-Checked d tenant_id input _ checks in
    let issued = issue_refreshed-Issued d e tenant_id _ c rec h1 in
    (
      c,
      rec,
      checked,
      permitted,
      subst (λ x. Issued d e (or_clock d.clock now) rec x w' res) same issued,
    )
