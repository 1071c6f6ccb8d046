-- ===== src/UseCases/Refresh/Progress.antt =====
-- A refresh for which everything is in order succeeds.
use regenerative_architectur.Base.{◌≡◌, ◌<◌, refl, String, true, false, some, arith, eq_iff}
use regenerative_architectur.Spec.{Time, or_clock}
use regenerative_architectur.Policy.{AuthzResponse}
use regenerative_architectur.Stores.RefreshTokens.{RefreshTokenStore, rotate}
use regenerative_architectur.Stores.RefreshTokens.Invariant.{Linked, IsNew}
use regenerative_architectur.Stores.RefreshTokens.Laws.{rotate-live}
use regenerative_architectur.Oauth2.Records.{Oauth2Client, RefreshTokenRecord, ok}
use regenerative_architectur.UseCases.Monad.{World}
use regenerative_architectur.UseCases.Ports.{Ports, Entropy}
use regenerative_architectur.UseCases.Refresh.Domain.{
  successor, rotate_refresh_token, is_refresh_token_replay, is_refresh_token_absolute_expired,
}
use regenerative_architectur.UseCases.Refresh.Handler.{
  RefreshInput, RefreshResult, refresh_request, authorize, access_token_input, check_refresh,
  issue_refreshed, refresh_tokens,
}
use regenerative_architectur.Base.Words.{join}
use regenerative_architectur.UseCases.Senders.{token_type_of}
use regenerative_architectur.UseCases.Refresh.Rotation.{IsFresh}
use regenerative_architectur.UseCases.Refresh.Checks.{Checked}

not_absolute :
    (clock : Time) (r : RefreshTokenRecord) (now : Time)
    → or_clock clock now < r.absolute_expires_at
    → is_refresh_token_absolute_expired clock r now ≡ false
unfolding is_refresh_token_absolute_expired
not_absolute clock r now h = ground arith

not_replay :
    (r : RefreshTokenRecord)
    → r.rotated ≡ false
    → r.revoked ≡ false
    → is_refresh_token_replay r ≡ false
unfolding is_refresh_token_replay
not_replay r h k = ground (arith, h, k)

module _ (d : Ports) (tenant_id : String) (input : RefreshInput) (now : Time) (w : World)
    (c : Oauth2Client) (rec : RefreshTokenRecord) (checked : Checked d tenant_id input now w c rec)
    (decision : AuthzResponse)
    (decided : authorize d (refresh_request c rec input now) ≡ ok decision)
    (permit : decision.permit ≡ true) where
  check_refresh-succeeds : check_refresh d tenant_id input now w ≡ (ok (c, rec), w)
  unfolding check_refresh
  check_refresh-succeeds =
      let (u, owner) = checked.owner in
      rw (checked.client, check_refresh)
        (rw checked.known (
          rw ((eq_iff _ _).1 checked.tenant) (
            rw ((eq_iff _ _).1 checked.issued_to) (
              rw (not_replay rec checked.not_rotated checked.not_revoked) (
                rw (not_absolute d.clock rec now checked.in_time) (
                  rw owner.known (
                    rw ((eq_iff _ _).1 owner.tenant)
                      (rw owner.active (rw decided (rw permit refl))))))))))

-- What the second half is given: a token and an identifier, a valid record and a signature.
pub record CanIssue (d : Ports) (e : Entropy) (now : Time) (c : Oauth2Client)
    (rec : RefreshTokenRecord) : Type 0 where
  pub token : String
  pub id : String
  pub access : String × String
  pub drawn_token : e.token ≡ ok token
  pub drawn_id : e.id ≡ ok id
  pub valid : d.validate_refresh_token (successor d token id rec (or_clock d.clock now)) ≡ ok tt
  pub signed : d.sign_access_token (access_token_input c rec now) ≡ ok access

-- The answer of a refresh that issued a token and an access token.
abbrev pub answer_of : Ports → String → String → RefreshTokenRecord → RefreshResult
answer_of d token access rec = record {
  access_token = access;
  refresh_token = token;
  token_type = token_type_of rec.sender_constraint;
  expires_in = d.access_token_ttl_seconds;
  scope = join rec.scopes;
}

issue_refreshed-succeeds :
    (d : Ports) (e : Entropy) (tenant_id : String) (now : Time) (c : Oauth2Client)
    (rec new stored : RefreshTokenRecord) (w : World) (s : RefreshTokenStore)
    (can : CanIssue d e now c rec)
    → successor d can.token can.id rec (or_clock d.clock now) ≡ new
    → rotate rec.id new w.refresh ≡ (ok (some stored), s)
    → (issue_refreshed d e tenant_id now c rec w).0 ≡ ok (answer_of d can.token can.access.0 rec)
unfolding issue_refreshed rotate_refresh_token
issue_refreshed-succeeds d e tenant_id now c rec new stored w s can is_new rotated =
    rw can.drawn_token
      (rw can.drawn_id (rw can.valid (rw is_new (rw rotated (rw can.signed refl)))))

-- A refresh with a token that passes the checks, which the policy permits, returns an access token and a
-- new refresh token, when the random source draws identifiers that the store does not hold, the new
-- record is valid and the access token is signed. The expiry of the token's own record (`expires_at`)
-- is no condition: only the absolute expiry of its family is.
pub refresh_tokens-succeeds :
    (d : Ports) (e : Entropy) (tenant_id : String) (input : RefreshInput) (now : Time) (w : World)
    (c : Oauth2Client) (rec : RefreshTokenRecord) (decision : AuthzResponse)
    (can : CanIssue d e (or_clock d.clock now) c rec)
    → Checked d tenant_id input (or_clock d.clock now) w c rec
    → authorize d (refresh_request c rec input (or_clock d.clock now)) ≡ ok decision
    → decision.permit ≡ true
    → Linked w.refresh
    → IsFresh d e w.refresh
    → (refresh_tokens d e tenant_id input now w).0 ≡ ok (answer_of d can.token can.access.0 rec)
unfolding refresh_tokens successor
refresh_tokens-succeeds d e tenant_id input now w c rec decision can checked decided permit linked
      fresh =
    let at = or_clock d.clock now in
    let new = successor d can.token can.id rec (or_clock d.clock at) in
    let is_new : IsNew new w.refresh = record {
      hash = fresh.hash can.token can.drawn_token;
      id = fresh.id can.id can.drawn_id;
    } in
    let (t, rotated) =
      rotate-live (d.sha256_hex input.refresh_token) rec new w.refresh checked.known is_new linked
        checked.not_rotated checked.not_revoked in
    rw (check_refresh-succeeds d tenant_id input at w c rec checked decision decided permit)
      (issue_refreshed-succeeds d e tenant_id at c rec new _ w t can refl rotated)
