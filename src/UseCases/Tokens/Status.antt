-- ===== src/UseCases/Tokens/Status.antt =====
-- How revocation, rotation and introspection agree.
use mathlib.Core.Option
use regenerative_architectur.Base.{
  ◌≡◌, ◌≤◌, refl, ap, ◌∙◌, String, true, false, ◌||◌, ◌↔◌, none, some, List, ◌∷◌, arith, ◌==◌,
  eq_iff, find-put_self, inl, inr, Bool-cases,
}
use regenerative_architectur.Base.Int.{ℤ}
use regenerative_architectur.Spec.{Time, or_clock}
use regenerative_architectur.Stores.RefreshTokens.{find_by_hash, revoke_family, revoke_in}
use regenerative_architectur.Stores.RefreshTokens.Invariant.{Linked}
use regenerative_architectur.Stores.RefreshTokens.Laws.{
  revoke_in-revoked, find_by_hash-revoke_family,
}
use regenerative_architectur.Stores.Denylist.{add, is_revoked}
use regenerative_architectur.Oauth2.Records.{RefreshTokenRecord, Result, ok}
use regenerative_architectur.Oauth2.Events.{token_revoked}
use regenerative_architectur.UseCases.Monad.{World}
use regenerative_architectur.UseCases.Ports.{Ports}
use regenerative_architectur.UseCases.Refresh.{
  is_refresh_token_replay, is_refresh_token_absolute_expired,
}
use regenerative_architectur.UseCases.Tokens.Introspect.{
  IntrospectionResult, IntrospectInput, inactive, is_live, introspect_refresh, describe_refresh,
  introspect_access, introspect_token,
}
use regenerative_architectur.UseCases.Tokens.Revoke.{
  revoke_token, revoke_refresh_token, revoke_access_token,
}

-- Introspection calls a stored refresh token active exactly when it belongs to the tenant, is no replay
-- and is within its absolute lifetime: the tests of the refresh grant.
pub introspect_refresh-active_iff :
    (clock : Time) (tenant_id : String) (rec : RefreshTokenRecord) (now : Time)
    → ((introspect_refresh tenant_id rec (or_clock clock now)).active ≡ true) ↔ (
        (rec.tenant_id ≡ tenant_id)
        × (is_refresh_token_replay rec ≡ false)
        × (is_refresh_token_absolute_expired clock rec now ≡ false))
unfolding introspect_refresh is_live describe_refresh inactive is_refresh_token_replay
    is_refresh_token_absolute_expired
introspect_refresh-active_iff clock tenant_id rec now =
    ground (arith, eq_iff rec.tenant_id tenant_id)

module _ (d : Ports) (introspector : String → Result IntrospectionResult) (tenant_id : String)
    (w : World) where
  introspect_token-known :
      (input : IntrospectInput) (now : Time) (rec : RefreshTokenRecord)
      → ((input.token_type_hint == "") || (input.token_type_hint == "refresh_token")) ≡ true
      → find_by_hash w.refresh (d.sha256_hex input.token) ≡ some rec
      → introspect_token d introspector tenant_id input now w
        ≡ (ok (introspect_refresh tenant_id rec (or_clock d.clock now)), w)
  unfolding introspect_token
  introspect_token-known input now rec hint known = rw hint (rw known refl)

introspect_refresh-revoked :
    (tenant_id : String) (rec : RefreshTokenRecord) (now : Time)
    → rec.revoked ≡ true
    → introspect_refresh tenant_id rec now ≡ inactive
unfolding introspect_refresh is_live inactive
introspect_refresh-revoked tenant_id rec now h = ground (arith, h)

-- The world after a client revoked one of its refresh tokens.
abbrev after_revoke : RefreshTokenRecord → Time → World → World
after_revoke rec now w = record w {
  refresh = revoke_family rec.family_id w.refresh;
  events = token_revoked now rec.tenant_id "refresh_token" rec.id "client_initiated" ∷ w.events;
}

module _ (d : Ports) (from_unix : ℤ → Time) (introspector : String → Result IntrospectionResult)
    (tenant_id client_id : String) where
  revoke_token-refresh :
      (token : String) (now : Time) (w : World) (rec : RefreshTokenRecord)
      → find_by_hash w.refresh (d.sha256_hex token) ≡ some rec
      → rec.tenant_id ≡ tenant_id
      → rec.client_id ≡ client_id
      → revoke_token d from_unix introspector tenant_id client_id token now w
        ≡ (ok tt, after_revoke rec (or_clock d.clock now) w)
  unfolding revoke_token revoke_refresh_token
  revoke_token-refresh token now w rec known tenant client =
      rw known (rw ((eq_iff _ _).1 tenant) (rw ((eq_iff _ _).1 client) refl))

  -- After a client revoked one of its refresh tokens, introspection calls every refresh token of the
  -- same family inactive, in the state that the revocation left, for a caller of any tenant and with
  -- no hint or the hint refresh_token. The indexes of the store agree.
  pub revoke_token-family_inactive :
      (token : String) (now : Time) (w : World) (rec : RefreshTokenRecord) (tenant' : String)
      (input : IntrospectInput) (now' : Time) (other : RefreshTokenRecord)
      → Linked w.refresh
      → find_by_hash w.refresh (d.sha256_hex token) ≡ some rec
      → rec.tenant_id ≡ tenant_id
      → rec.client_id ≡ client_id
      → ((input.token_type_hint == "") || (input.token_type_hint == "refresh_token")) ≡ true
      → find_by_hash w.refresh (d.sha256_hex input.token) ≡ some other
      → other.family_id ≡ rec.family_id
      → (introspect_token d introspector tenant' input now'
          (revoke_token d from_unix introspector tenant_id client_id token now w).1).0
        ≡ ok inactive
  revoke_token-family_inactive token now w rec tenant' input now' other linked known tenant client
        hint known' same =
      let after = after_revoke rec (or_clock d.clock now) w in
      let found : find_by_hash after.refresh (d.sha256_hex input.token)
          ≡ some (revoke_in rec.family_id other) =
        find_by_hash-revoke_family rec.family_id w.refresh _ linked
        ∙ ap (λ o. Option.map (revoke_in rec.family_id) o) known' in
      let answer =
        introspect_token-known d introspector tenant' after input now'
          (revoke_in rec.family_id other) hint found in
      ap (λ p. (introspect_token d introspector tenant' input now' p.1).0)
        (revoke_token-refresh token now w rec known tenant client)
      ∙ ap (λ p. p.0) answer
      ∙ ap (λ r. ok r)
          (introspect_refresh-revoked tenant' (revoke_in rec.family_id other) _
            (revoke_in-revoked rec.family_id other same))

denied_in_time :
    (clock until : Time) (jti : String) (denied : List (String × Time))
    → clock ≤ until
    → (is_revoked clock jti (add jti until denied)).0 ≡ true
unfolding is_revoked add
denied_in_time clock until jti denied h =
    rw (find-put_self jti until denied, is_revoked) (ground arith)

module _ (d : Ports) (from_unix : ℤ → Time) (introspector : String → Result IntrospectionResult)
    (tenant_id client_id token : String) (r : IntrospectionResult)
    (says : introspector token ≡ ok r) (live : r.active ≡ true)
    (named : (r.jti == "") ≡ false) where
  abbrev after_denied : Time → World → World
  after_denied now w = record w {
    denylist = add r.jti (from_unix r.exp) w.denylist;
    events = token_revoked now tenant_id "access_token" r.jti "client_initiated" ∷ w.events;
  }

  revoke_token-access :
      (now : Time) (w : World)
      → find_by_hash w.refresh (d.sha256_hex token) ≡ none
      → r.client_id ≡ client_id
      → revoke_token d from_unix introspector tenant_id client_id token now w
        ≡ (ok tt, after_denied (or_clock d.clock now) w)
  unfolding revoke_token revoke_access_token
  revoke_token-access now w unknown client =
      rw unknown
        (rw (says, revoke_access_token) (rw live (rw named (rw ((eq_iff _ _).1 client) refl))))

  introspect_token-denied :
      (hint : String) (now now' : Time) (w : World)
      → find_by_hash w.refresh (d.sha256_hex token) ≡ none
      → d.clock ≤ from_unix r.exp
      → (introspect_token d introspector tenant_id
          (record { token = token; token_type_hint = hint })
          now'
          (after_denied now w)).0
        ≡ ok inactive
  unfolding introspect_token introspect_access
  introspect_token-denied hint now now' w unknown in_time =
      elim (Bool-cases ((hint == "") || (hint == "refresh_token"))) [
        | inl both ↦ rw both (
            rw unknown (
              rw says
                (rw live (rw named (rw (denied_in_time d.clock _ r.jti w.denylist in_time) refl)))))
        | inr access ↦ rw access (
            rw says
              (rw live (rw named (rw (denied_in_time d.clock _ r.jti w.denylist in_time) refl))))
      ]

  -- After a client revoked an access token of its own that the introspector calls active and that
  -- has an identifier, introspection calls it inactive up to the token's expiry, in the state that
  -- the revocation left and whatever hint is given. The token's text is no refresh token of the
  -- store.
  pub revoke_token-access_inactive :
      (hint : String) (now now' : Time) (w : World)
      → find_by_hash w.refresh (d.sha256_hex token) ≡ none
      → r.client_id ≡ client_id
      → d.clock ≤ from_unix r.exp
      → (introspect_token d introspector tenant_id
          (record { token = token; token_type_hint = hint })
          now'
          (revoke_token d from_unix introspector tenant_id client_id token now w).1).0
        ≡ ok inactive
  revoke_token-access_inactive hint now now' w unknown client in_time =
      ap
        (λ p.
          (introspect_token d introspector tenant_id
            (record { token = token; token_type_hint = hint }) now' p.1).0)
        (revoke_token-access now w unknown client)
      ∙ introspect_token-denied hint (or_clock d.clock now) now' w unknown in_time
