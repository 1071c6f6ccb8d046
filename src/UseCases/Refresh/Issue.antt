-- ===== src/UseCases/Refresh/Issue.antt =====
-- What RefreshTokens does once its checks have passed.
use regenerative_architectur.Base.{◌≡◌, refl, sym, ap, ◌∙◌, String, some}
use regenerative_architectur.Base.Words.{join}
use regenerative_architectur.Spec.{Time, or_clock}
use regenerative_architectur.Stores.RefreshTokens.{rotate}
use regenerative_architectur.Oauth2.Records.{Oauth2Client, RefreshTokenRecord, ok}
use regenerative_architectur.UseCases.Monad.{World}
use regenerative_architectur.UseCases.Inversion.{
  step_ok, lift_ok, some_ok, return_ok, try_refresh_ok,
}
use regenerative_architectur.UseCases.Ports.{Ports, Entropy}
use regenerative_architectur.UseCases.Refresh.Domain.{
  GeneratedRefreshToken, successor, rotate_refresh_token,
}
use regenerative_architectur.UseCases.Refresh.Handler.{
  RefreshResult, access_token_input, issue_refreshed,
}

-- The store was rotated to a successor of the token, whose text is the one that is returned.
pub record Issued (d : Ports) (e : Entropy) (now : Time) (rec : RefreshTokenRecord) (w w' : World)
    (res : RefreshResult) : Type 0 where
  pub id : String
  pub drawn_token : e.token ≡ ok res.refresh_token
  pub drawn_id : e.id ≡ ok id
  pub new_record : RefreshTokenRecord
  pub rotated :
      rotate rec.id (successor d res.refresh_token id rec (or_clock d.clock now)) w.refresh
      ≡ (ok (some new_record), w'.refresh)
  pub scope : res.scope ≡ join rec.scopes

-- A successor is made of one token and one identifier from the random source, and changes nothing.
rotate_refresh_token-ok :
    (d : Ports) (e : Entropy) (parent : RefreshTokenRecord) (now : Time) {w v : World}
    {g : GeneratedRefreshToken}
    → rotate_refresh_token d e parent now w ≡ (ok g, v)
    → (w ≡ v)
      × (e.token ≡ ok g.token)
      × (id : String) × (e.id ≡ ok id)
      × (g.rec ≡ successor d g.token id parent (or_clock d.clock now))
unfolding rotate_refresh_token
rotate_refresh_token-ok d e parent now {w} {v} {g} h0 =
    let (token, is_token, h1) = lift_ok e.token _ _ h0 in
    let (id, is_id, h2) = lift_ok e.id _ _ h1 in
    let (_, _, h3) =
      lift_ok (d.validate_refresh_token (successor d token id parent (or_clock d.clock now))) _ _
        h2 in
    let (same, same_world) = return_ok h3 in
    let same_token : token ≡ g.token = ap (λ x. x.token) same in
    (
      same_world,
      is_token ∙ ap (λ t. ok t) same_token,
      id,
      is_id,
      sym (ap (λ x. x.rec) same)
          ∙ ap (λ t. successor d t id parent (or_clock d.clock now)) same_token,
    )

-- A rotation with its successor, in a world that the draws left unchanged.
rotated_to :
    (d : Ports) (e : Entropy) (now : Time) (rec : RefreshTokenRecord) {w w' : World}
    {res : RefreshResult} (g : GeneratedRefreshToken) (v : World) (id : String)
    (stored : RefreshTokenRecord)
    → w ≡ v
    → e.token ≡ ok g.token
    → e.id ≡ ok id
    → g.rec ≡ successor d g.token id rec (or_clock d.clock now)
    → g.token ≡ res.refresh_token
    → rotate rec.id g.rec v.refresh ≡ (ok (some stored), w'.refresh)
    → join rec.scopes ≡ res.scope
    → Issued d e now rec w w' res
rotated_to d e now rec {w} {w'} {res} g v id stored same_w token drawn is_rec same_token r scope =
    record {
      id = id;
      drawn_token = token ∙ ap (λ t. ok t) same_token;
      drawn_id = drawn;
      new_record = stored;
      rotated =
          ap (λ t. rotate rec.id (successor d t id rec (or_clock d.clock now)) w.refresh)
            (sym same_token)
          ∙ ap (λ x. rotate rec.id x w.refresh) (sym is_rec)
          ∙ ap (λ x. rotate rec.id g.rec x.refresh) same_w
          ∙ r;
      scope = sym scope;
    }

pub issue_refreshed-Issued :
    (d : Ports) (e : Entropy) (tenant_id : String) (now : Time) (c : Oauth2Client)
    (rec : RefreshTokenRecord) {w w' : World} {res : RefreshResult}
    → issue_refreshed d e tenant_id now c rec w ≡ (ok res, w')
    → Issued d e now rec w w' res
unfolding issue_refreshed
issue_refreshed-Issued d e tenant_id now c rec {w} {w'} {res} h0 =
    let (g, v, made, h1) = step_ok (rotate_refresh_token d e rec now w) _ h0 in
    let (same_w, token, id, drawn, is_rec) = rotate_refresh_token-ok d e rec now made in
    let (answer, s, rotation, h2) = try_refresh_ok (rotate rec.id g.rec v.refresh) v _ h1 in
    let (stored, is_stored, h3) = some_ok answer _ _ _ refl h2 in
    let (signed, _, h4) = lift_ok (d.sign_access_token (access_token_input c rec now)) _ _ h3 in
    let (same_res, same_w') = return_ok h4 in
    rotated_to d e now rec g v id stored same_w token drawn is_rec
      (ap (λ r. r.refresh_token) same_res)
      (rotation ∙ ap (λ o. (ok o, s)) is_stored ∙ ap (λ x. (ok (some stored), x.refresh)) same_w')
      (ap (λ r. r.scope) same_res)
