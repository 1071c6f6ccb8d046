-- ===== src/UseCases/Refresh/Rotation.antt =====
-- What a refresh that succeeds leaves in the store: the token it was called with is spent, and the new
-- one continues its family.
use mathlib.Core.Option
use mathlib.Core.Path.{subst}
use regenerative_architectur.Base.{
  some_inj, ◌≡◌, ◌≢◌, ◌≤◌, refl, sym, ap, ◌∙◌, String, true, false, none, some, find, arith, ◌==◌,
  eq_iff, inl, inr,
}
use regenerative_architectur.Spec.{Time, or_clock}
use regenerative_architectur.Stores.RefreshTokens.{
  RefreshTokenStore, find_by_hash, revoke_family, revoke_in, mark_rotated, stored,
}
use regenerative_architectur.Stores.Tenant.{default_tenant}
use regenerative_architectur.Stores.RefreshTokens.Invariant.{Linked, IsNew, rotate-Linked}
use regenerative_architectur.Stores.RefreshTokens.Laws.{
  revoke_in-revoked, find_by_hash-revoke_family, Rotated, rotate-Rotated,
}
use regenerative_architectur.Oauth2.Records.{
  Oauth2Client, RefreshTokenRecord, oauth, invalid_grant, ok, err,
}
use regenerative_architectur.UseCases.Monad.{World}
use regenerative_architectur.UseCases.Ports.{Ports, Entropy}
use regenerative_architectur.UseCases.Refresh.Domain.{successor, is_refresh_token_replay}
use regenerative_architectur.UseCases.Refresh.Handler.{RefreshInput, RefreshResult, refresh_tokens}
use regenerative_architectur.UseCases.Refresh.Checks.{Checked}
use regenerative_architectur.UseCases.Refresh.Reuse.{
  refresh_tokens-ok, refresh_tokens-misused, check-other_tenant, refresh_tokens-check_err,
}

-- The random source draws a token and an identifier that the store does not hold.
pub record IsFresh (d : Ports) (e : Entropy) (s : RefreshTokenStore) : Type 0 where
  pub hash : (t : String) → e.token ≡ ok t → find (d.sha256_hex t) s.by_hash ≡ none
  pub id : (i : String) → e.id ≡ ok i → find i s.by_id ≡ none

-- A record continues another's family.
pub record Continues (parent r : RefreshTokenRecord) : Type 0 where
  pub live : (r.rotated ≡ false) × (r.revoked ≡ false)
  pub parent_id : r.parent_id ≡ some parent.id
  pub family : r.family_id ≡ parent.family_id
  pub client : r.client_id ≡ parent.client_id
  pub user : r.sub ≡ parent.sub
  pub scopes : r.scopes ≡ parent.scopes
  pub sender : r.sender_constraint ≡ parent.sender_constraint
  pub absolute : r.absolute_expires_at ≡ parent.absolute_expires_at
  pub in_time : r.expires_at ≤ parent.absolute_expires_at

successor-Continues :
    (d : Ports) (token id : String) (parent : RefreshTokenRecord) (now : Time)
    → Continues parent (stored (successor d token id parent now))
unfolding successor
successor-Continues d token id parent now = record {
  live = (refl, refl);
  parent_id = refl;
  family = refl;
  client = refl;
  user = refl;
  scopes = refl;
  sender = refl;
  absolute = refl;
  in_time = ground arith;
}

tenant_differs :
    (tenant_id : String) (r : RefreshTokenRecord)
    → r.tenant_id ≡ ""
    → tenant_id ≢ "default"
    → ((stored r).tenant_id == tenant_id) ≡ false
unfolding default_tenant
tenant_differs tenant_id r h other =
    ground (arith, eq_iff r.tenant_id "", eq_iff "default" tenant_id)

module _ (d : Ports) (e : Entropy) (tenant_id : String) (input : RefreshInput) (now : Time)
    (w w' : World) (res : RefreshResult)
    (done : refresh_tokens d e tenant_id input now w ≡ (ok res, w')) (linked : Linked w.refresh)
    (fresh : IsFresh d e w.refresh) where
  -- The record that was presented, and the store after it was rotated.
  abbrev drawn_at : Time
  drawn_at = or_clock d.clock (or_clock d.clock now)

  spent :
      (c : Oauth2Client) × (rec : RefreshTokenRecord) × (id : String) × Checked d tenant_id input
        (or_clock d.clock now)
        w
        c
        rec
      × Rotated
          (d.sha256_hex input.refresh_token)
          rec
          (successor d res.refresh_token id rec drawn_at)
          w.refresh
          w'.refresh
      × Linked w'.refresh
  unfolding successor
  spent =
      let (c, rec, checked, _, issued) = refresh_tokens-ok d e tenant_id input now done in
      let new = successor d res.refresh_token issued.id rec drawn_at in
      let is_new : IsNew new w.refresh = record {
        hash = fresh.hash res.refresh_token issued.drawn_token;
        id = fresh.id issued.id issued.drawn_id;
      } in
      (
        c,
        rec,
        issued.id,
        checked,
        rotate-Rotated (d.sha256_hex input.refresh_token) rec new w.refresh checked.known is_new
            linked issued.rotated,
        subst (λ s. Linked s) (ap (λ p. p.1) issued.rotated)
            (rotate-Linked rec.id new w.refresh is_new linked),
      )

  -- A refresh token is good for one refresh: when it is presented again by the same client, at any time
  -- and in the state that the first refresh left, the answer is invalid_grant, and the token that the
  -- first refresh had returned is revoked in the store. The random source is assumed not to have drawn
  -- a token or an identifier that the store holds, and the store's two indexes to agree.
  pub refresh_tokens-single_use :
      (e' : Entropy) (input' : RefreshInput) (now' : Time)
      → input'.client_id ≡ input.client_id
      → input'.refresh_token ≡ input.refresh_token
      → ((refresh_tokens d e' tenant_id input' now' w').0 ≡ err (oauth invalid_grant))
        × (r : RefreshTokenRecord) × (find_by_hash
              (refresh_tokens d e' tenant_id input' now' w').1.refresh
              (d.sha256_hex res.refresh_token)
            ≡ some r)
        × (r.revoked ≡ true)
  unfolding is_refresh_token_replay revoke_family successor
  refresh_tokens-single_use e' input' now' same_client same_token =
      let (c, rec, id, checked, rotated, linked') = spent in
      let again =
        refresh_tokens-misused d e' tenant_id input' now' w' c (mark_rotated rec)
          (ap (λ i. d.find_client tenant_id i) same_client ∙ checked.client)
          (ap (λ t. find_by_hash w'.refresh (d.sha256_hex t)) same_token ∙ rotated.old)
          checked.tenant (inr (inl refl)) in
      let new = successor d res.refresh_token id rec drawn_at in
      (
        ap (λ p. p.0) again,
        revoke_in rec.family_id (stored new),
        ap (λ p. find_by_hash p.1.refresh (d.sha256_hex res.refresh_token)) again
            ∙ find_by_hash-revoke_family rec.family_id w'.refresh _ linked'
            ∙ ap (λ o. Option.map (revoke_in rec.family_id) o) rotated.successor,
        revoke_in-revoked rec.family_id (stored new) refl,
      )

  -- The token that a refresh returns is stored as a live record of the family of the one presented, with
  -- that one as its parent: client, user, scopes, sender constraint and absolute expiry are the parent's,
  -- and its own expiry is not after the absolute one. The assumptions are those of the single use.
  pub refresh_tokens-successor :
      (parent : RefreshTokenRecord)
      → find_by_hash w.refresh (d.sha256_hex input.refresh_token) ≡ some parent
      → (r : RefreshTokenRecord) × (find_by_hash w'.refresh (d.sha256_hex res.refresh_token)
          ≡ some r)
        × Continues parent r
  unfolding successor
  refresh_tokens-successor parent known =
      let (c, rec, id, checked, rotated, linked') = spent in
      let same : rec ≡ parent = some_inj (sym checked.known ∙ known) in
      (
        stored (successor d res.refresh_token id rec drawn_at),
        rotated.successor,
        subst (λ p. Continues p (stored (successor d res.refresh_token id rec drawn_at))) same
            (successor-Continues d res.refresh_token id rec drawn_at),
      )

  -- Outside the tenant named default, the token that a refresh returns is refused with invalid_grant
  -- when the same client presents it to the same tenant in the state that the refresh left: its record
  -- is stored under the default tenant. The assumptions are those of the single use.
  pub refresh_tokens-tenant_lost :
      (e' : Entropy) (input' : RefreshInput) (now' : Time)
      → tenant_id ≢ "default"
      → input'.client_id ≡ input.client_id
      → input'.refresh_token ≡ res.refresh_token
      → refresh_tokens d e' tenant_id input' now' w' ≡ (err (oauth invalid_grant), w')
  unfolding successor
  refresh_tokens-tenant_lost e' input' now' other same_client same_token =
      let (c, rec, id, checked, rotated, linked') = spent in
      refresh_tokens-check_err d e' tenant_id input' now' w' w' (
        check-other_tenant d tenant_id input' _ w' c
          (stored (successor d res.refresh_token id rec drawn_at))
          (ap (λ i. d.find_client tenant_id i) same_client ∙ checked.client)
          (ap (λ t. find_by_hash w'.refresh (d.sha256_hex t)) same_token ∙ rotated.successor)
          (tenant_differs tenant_id (successor d res.refresh_token id rec drawn_at) refl other))
