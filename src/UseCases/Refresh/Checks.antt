-- ===== src/UseCases/Refresh/Checks.antt =====
-- What the checks of RefreshTokens establish.
use mathlib.Core.Path.{subst}
use mathlib.Core.Option
use regenerative_architectur.Base.{
  ◌<◌, ◌≡◌, String, true, false, some, arith, ◌==◌, eq_iff, not, sym, ap, ◌∙◌, ◌⊎◌, inl, inr, Bool,
  Option, none, some_inj, Option-cases, refl,
}
use regenerative_architectur.Spec.{
  Time, or_clock, SenderConstraintType, dpop, mtls, refresh_token, contains_grant,
}
use regenerative_architectur.Policy.{AuthzRequest, AuthzResponse, evaluate}
use regenerative_architectur.Policy.Safety.{evaluate-MayRefresh_iff}
use regenerative_architectur.Stores.RefreshTokens.{find_by_hash}
use regenerative_architectur.Oauth2.Records.{
  Oauth2Client, User, is_active, SenderConstraint, RefreshTokenRecord, Result, ok, invalid_grant,
}
use regenerative_architectur.UseCases.Monad.{World, M, ◌>>=◌, ◌>>◌, return, guard, lift}
use regenerative_architectur.UseCases.Inversion.{
  lift_ok, some_ok, guard_ok, guard_else_ok, return_ok,
}
use regenerative_architectur.UseCases.Ports.{Ports}
use regenerative_architectur.UseCases.Refresh.Domain.{
  is_refresh_token_replay, is_refresh_token_absolute_expired,
}
use regenerative_architectur.UseCases.Refresh.Handler.{
  RefreshInput, refresh_request, authorize, check_refresh, proof_of,
}

-- The owner of a token may use the tenant.
pub record IsOwner (d : Ports) (tenant_id : String) (sub : String) (u : User) : Type 0 where
  pub known : d.find_user sub ≡ ok (some u)
  pub tenant : u.tenant_id ≡ tenant_id
  pub active : is_active u ≡ true

pub record Checked (d : Ports) (tenant_id : String) (input : RefreshInput) (now : Time) (w : World)
    (c : Oauth2Client) (rec : RefreshTokenRecord) : Type 0 where
  pub client : d.find_client tenant_id input.client_id ≡ ok (some c)
  pub known : find_by_hash w.refresh (d.sha256_hex input.refresh_token) ≡ some rec
  pub tenant : rec.tenant_id ≡ tenant_id
  pub issued_to : rec.client_id ≡ c.client_id
  pub not_rotated : rec.rotated ≡ false
  pub not_revoked : rec.revoked ≡ false
  pub in_time : or_clock d.clock now < rec.absolute_expires_at
  pub owner : (u : User) × IsOwner d tenant_id rec.sub u

abbrev Authorizer : Type 0
Authorizer = AuthzRequest → Result AuthzResponse

-- The thumbprint that comes with a refresh, and the one that the token is bound to.
abbrev presented : SenderConstraintType → RefreshInput → String
presented dpop input = input.proof_jkt
presented mtls input = input.proof_x5t_s256

abbrev bound_key : SenderConstraintType → SenderConstraint → String
bound_key dpop sc = sc.jkt
bound_key mtls sc = sc.x5t_s256

-- The client may use the refresh grant, with the proof of the key that the token is bound to.
pub record MayUse (c : Oauth2Client) (rec : RefreshTokenRecord) (input : RefreshInput)
    : Type 0 where
  pub declared : contains_grant c.grant_types refresh_token ≡ true
  pub proved :
      (rec.sender_constraint ≡ none)
      ⊎ ((sc : SenderConstraint) × (rec.sender_constraint ≡ some sc)
          × (presented sc.type input ≡ bound_key sc.type sc))

-- The policy permitted the refresh; where no other authorizer stands in for the program's own policy,
-- that says what the client may do.
pub record Permitted (d : Ports) (c : Oauth2Client) (rec : RefreshTokenRecord)
    (input : RefreshInput) (now : Time) : Type 0 where
  pub decision : AuthzResponse
  pub decided : authorize d (refresh_request c rec input now) ≡ ok decision
  pub permit : decision.permit ≡ true
  pub own_policy : ((call : Authorizer) × (d.authorizer ≡ some call)) ⊎ MayUse c rec input

live_fields :
    (r : RefreshTokenRecord)
    → not (is_refresh_token_replay r) ≡ true
    → (r.rotated ≡ false) × (r.revoked ≡ false)
unfolding is_refresh_token_replay
live_fields r h = ground arith

before_absolute :
    (clock : Time) (r : RefreshTokenRecord) (now : Time)
    → not (is_refresh_token_absolute_expired clock r now) ≡ true
    → or_clock clock now < r.absolute_expires_at
unfolding is_refresh_token_absolute_expired
before_absolute clock r now h = ground arith

proved_key :
    (t : SenderConstraintType) (sc : SenderConstraint) (input : RefreshInput)
    → proof_of t sc input ≡ true
    → presented t input ≡ bound_key t sc
proved_key dpop sc input h = sym ((eq_iff _ _).0 h)
proved_key mtls sc input h = sym ((eq_iff _ _).0 h)

evaluate-MayUse :
    (clock : Time) (c : Oauth2Client) (rec : RefreshTokenRecord) (input : RefreshInput) (now : Time)
    → (evaluate clock (refresh_request c rec input now)).permit ≡ true
    → MayUse c rec input
unfolding refresh_request
evaluate-MayUse clock c rec input now h =
    let m = (evaluate-MayRefresh_iff clock (refresh_request c rec input now) refl).0 h in
    record {
      declared = m.declared;
      proved = elim (Option-cases rec.sender_constraint) [
        | inl unbound ↦ inl unbound
        | inr (sc, is) ↦ elim m.proved [
          | inl unbound ↦ absurd (cc (ap (λ o. Option.map (λ x. x.type) o) is, unbound))
          | inr proof ↦
              let e : ◌≡◌ {A = Option Bool} (some (proof_of sc.type sc input)) (some true) =
                sym (ap (λ o. Option.map (λ x. proof_of x.type x input) o) is) ∙ proof in
              inr (sc, is, proved_key sc.type sc input (some_inj e))
        ]
      ];
    }

authorize-own_policy :
    (d : Ports) (c : Oauth2Client) (rec : RefreshTokenRecord) (input : RefreshInput) (now : Time)
    (decision : AuthzResponse)
    → authorize d (refresh_request c rec input now) ≡ ok decision
    → decision.permit ≡ true
    → ((call : Authorizer) × (d.authorizer ≡ some call)) ⊎ MayUse c rec input
unfolding authorize
authorize-own_policy d c rec input now decision h permit = elim (Option-cases d.authorizer) [
  | inr (call, is) ↦ inl (call, is)
  | inl nil ↦
      let e : ◌≡◌ {A = Result AuthzResponse}
          (ok (evaluate d.clock (refresh_request c rec input now))) (ok decision) =
        rw nil at h in
      let same : evaluate d.clock (refresh_request c rec input now) ≡ decision = cc in
      inr (evaluate-MayUse d.clock c rec input now (ap (λ x. x.permit) same ∙ permit))
]

-- The tests that succeeded, read as equations.
established :
    (d : Ports) (tenant_id : String) (input : RefreshInput) (now : Time) (w : World)
    (c : Oauth2Client) (rec : RefreshTokenRecord) (u : User) (found : Option Oauth2Client)
    (owner : Option User)
    → d.find_client tenant_id input.client_id ≡ ok found
    → found ≡ some c
    → find_by_hash w.refresh (d.sha256_hex input.refresh_token) ≡ some rec
    → (rec.tenant_id == tenant_id) ≡ true
    → (rec.client_id == c.client_id) ≡ true
    → not (is_refresh_token_replay rec) ≡ true
    → not (is_refresh_token_absolute_expired d.clock rec now) ≡ true
    → d.find_user rec.sub ≡ ok owner
    → owner ≡ some u
    → (u.tenant_id == tenant_id) ≡ true
    → is_active u ≡ true
    → Checked d tenant_id input now w c rec
established d tenant_id input now w c rec u found owner is_found is_client stored tenant issued_to
      live in_time is_owner is_user same active =
    record {
      client = is_found ∙ ap (λ o. ok o) is_client;
      known = stored;
      tenant = (eq_iff _ _).0 tenant;
      issued_to = (eq_iff _ _).0 issued_to;
      not_rotated = (live_fields rec live).0;
      not_revoked = (live_fields rec live).1;
      in_time = before_absolute d.clock rec now in_time;
      owner = (
        u,
        record {
          known = is_owner ∙ ap (λ o. ok o) is_user;
          tenant = (eq_iff _ _).0 same;
          active = active;
        },
      );
    }

-- The last step: the policy is asked.
abbrev ask_policy :
    Ports
    → Oauth2Client
    → RefreshTokenRecord
    → RefreshInput
    → Time
    → M (Oauth2Client × RefreshTokenRecord)
ask_policy d c rec input now = do
  decision ← lift (authorize d (refresh_request c rec input now))
  guard decision.permit invalid_grant
  return (c, rec)

ask_policy-Permitted :
    (d : Ports) (c : Oauth2Client) (rec : RefreshTokenRecord) (input : RefreshInput) (now : Time)
    {w w' : World} {p : Oauth2Client × RefreshTokenRecord}
    → ask_policy d c rec input now w ≡ (ok p, w')
    → (w ≡ w') × ((c, rec) ≡ p) × Permitted d c rec input now
ask_policy-Permitted d c rec input now h0 =
    let (decision, decided, h1) = lift_ok (authorize d (refresh_request c rec input now)) _ _ h0 in
    let (permit, h2) = guard_ok decision.permit _ _ _ h1 in
    let (same_result, same_world) = return_ok h2 in
    (
      same_world,
      same_result,
      record {
        decision = decision;
        decided = decided;
        permit = permit;
        own_policy = authorize-own_policy d c rec input now decision decided permit;
      },
    )

-- Checks that succeed change nothing and establish `Checked` and `Permitted`.
pub check_refresh-Checked :
    (d : Ports) (tenant_id : String) (input : RefreshInput) (now : Time) {w w' : World}
    {c : Oauth2Client} {rec : RefreshTokenRecord}
    → check_refresh d tenant_id input now w ≡ (ok (c, rec), w')
    → (w' ≡ w) × Checked d tenant_id input now w c rec × Permitted d c rec input now
unfolding check_refresh
check_refresh-Checked d tenant_id input now {w} {w'} {c} {rec} h0 =
    let (found, is_found, h1) = lift_ok (d.find_client tenant_id input.client_id) _ _ h0 in
    let (c1, is_client, h2) = some_ok found _ _ _ refl h1 in
    let (r1, stored, h3) =
      some_ok (find_by_hash w.refresh (d.sha256_hex input.refresh_token)) _ _ _ refl h2 in
    let (tenant, h4) = guard_ok (r1.tenant_id == tenant_id) _ _ _ h3 in
    let (issued_to, h5) = guard_else_ok (r1.client_id == c1.client_id) _ _ _ refl h4 in
    let (live, h6) = guard_else_ok (not (is_refresh_token_replay r1)) _ _ _ refl h5 in
    let (in_time, h7) =
      guard_ok (not (is_refresh_token_absolute_expired d.clock r1 now)) _ _ _ h6 in
    let (owner, is_owner, h8) = lift_ok (d.find_user r1.sub) _ _ h7 in
    let (u, is_user, h9) = some_ok owner _ _ _ refl h8 in
    let (same, h10) = guard_ok (u.tenant_id == tenant_id) _ _ _ h9 in
    let (active, h11) = guard_else_ok (is_active u) _ _ _ refl h10 in
    let (same_world, same_result, permitted) = ask_policy-Permitted d c1 r1 input now h11 in
    let checked =
      established d tenant_id input now w c1 r1 u found owner is_found is_client stored tenant
        issued_to live in_time is_owner is_user same active in
    (
      sym same_world,
      subst (λ p. Checked d tenant_id input now w p.0 p.1) same_result checked,
      subst (λ p. Permitted d p.0 p.1 input now) same_result permitted,
    )
