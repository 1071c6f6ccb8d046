-- ===== src/Tests/Refresh.antt =====
-- The refresh grant on the deployment of the fixtures.
use mathlib.Core.Path.{subst}
use regenerative_architectur.Base.{
  ◌≡◌, ◌≢◌, refl, arith, String, true, false, none, some, [], find, put, remove, inl, eq_iff, Bool,
}
use regenerative_architectur.Base.Words.{join}
use regenerative_architectur.Spec.{contains_grant}
use regenerative_architectur.Policy.{evaluate, action_rules, failed_rules, rule_holds}
use regenerative_architectur.Oauth2.Records.{
  Oauth2Client, RefreshTokenRecord, Result, ok, err, oauth, invalid_grant, is_active,
}
use regenerative_architectur.Stores.Tenant.{default_tenant}
use regenerative_architectur.Stores.RefreshTokens.{
  RefreshTokenStore, new_refresh_token_store, save, find_by_hash, rotate,
}
use regenerative_architectur.Stores.RefreshTokens.Invariant.{Linked, new-Linked, save-Linked}
use regenerative_architectur.UseCases.Monad.{World}
use regenerative_architectur.UseCases.Refresh.{
  RefreshInput, RefreshResult, refresh_request, authorize, refresh_tokens,
}
use regenerative_architectur.UseCases.Refresh.Checks.{Checked, Permitted}
use regenerative_architectur.UseCases.Refresh.Issue.{Issued}
use regenerative_architectur.UseCases.Refresh.Reuse.{
  ReuseRefused, refresh_tokens-ok, refresh_tokens-ReuseRefused,
}
use regenerative_architectur.UseCases.Refresh.Rotation.{
  IsFresh, Continues, refresh_tokens-single_use, refresh_tokens-successor,
  refresh_tokens-tenant_lost,
}
use regenerative_architectur.UseCases.Refresh.Progress.{
  CanIssue, answer_of, refresh_tokens-succeeds,
}
use regenerative_architectur.Tests.Fixtures.{
  ports, draws, web, alice, token_record, token_store, world,
}

abbrev input : RefreshInput
input = record { client_id = "web"; refresh_token = "t1"; proof_jkt = ""; proof_x5t_s256 = "" }

abbrev result : RefreshResult
result = record {
  access_token = "access";
  refresh_token = "t2";
  token_type = "Bearer";
  expires_in = 600;
  scope = "openid";
}

abbrev after : World
after = (refresh_tokens ports draws "acme" input 0 world).1

done : refresh_tokens ports draws "acme" input 0 world ≡ (ok result, after)
unfolding refresh_tokens world find_by_hash find put default_tenant is_active evaluate action_rules
    refresh_request failed_rules rule_holds contains_grant rotate join
done = refl

linked : Linked world.refresh
unfolding world token_store find
linked =
    save-Linked token_record new_refresh_token_store (record { hash = refl; id = refl }) new-Linked

new_text : (s t u : String) → ◌≡◌ {A = Result String} (ok s) (ok t) → s ≡ t
new_text s t u e = cc

fresh : IsFresh ports draws world.refresh
unfolding world token_store find put remove
fresh = record {
  hash = λ t e. subst (λ x. find x world.refresh.by_hash ≡ none) (new_text "t2" t "" e) refl;
  id = λ i e. subst (λ x. find x world.refresh.by_id ≡ none) (new_text "id2" i "" e) refl;
}

known : find_by_hash world.refresh "t1" ≡ some token_record
unfolding world token_store find_by_hash find default_tenant put
known = refl

-- A second refresh with the token "t1".
refresh_tokens-single_use_example :
    ((refresh_tokens ports draws "acme" input 7 after).0 ≡ err (oauth invalid_grant))
    × (r : RefreshTokenRecord) × (find_by_hash
          (refresh_tokens ports draws "acme" input 7 after).1.refresh
          "t2"
        ≡ some r)
    × (r.revoked ≡ true)
refresh_tokens-single_use_example =
    refresh_tokens-single_use ports draws "acme" input 0 world after result done linked fresh draws
      input 7 refl refl

-- The token "t2" continues the family of "t1".
refresh_tokens-successor_example :
    (r : RefreshTokenRecord) × (find_by_hash after.refresh "t2" ≡ some r) × Continues token_record r
refresh_tokens-successor_example =
    refresh_tokens-successor ports draws "acme" input 0 world after result done linked fresh
      token_record known

acme_named : ◌≢◌ {A = String} "acme" "default"
acme_named e = cc

-- The token "t2", presented to the tenant "acme".
refresh_tokens-tenant_lost_example :
    refresh_tokens ports draws "acme" (record input { refresh_token = "t2" }) 7 after
    ≡ (err (oauth invalid_grant), after)
refresh_tokens-tenant_lost_example =
    refresh_tokens-tenant_lost ports draws "acme" input 0 world after result done linked fresh draws
      (record input { refresh_token = "t2" }) 7 acme_named refl refl

abbrev stolen : RefreshTokenRecord
stolen = record token_record { client_id = "app" }

abbrev stolen_store : RefreshTokenStore
stolen_store = save stolen new_refresh_token_store

stolen_known : find_by_hash stolen_store "t1" ≡ some stolen
unfolding save new_refresh_token_store find_by_hash find default_tenant put
stolen_known = refl

stolen_Linked : Linked stolen_store
unfolding find new_refresh_token_store
stolen_Linked =
    save-Linked stolen new_refresh_token_store (record { hash = refl; id = refl }) new-Linked

app_differs : ◌≢◌ {A = String} "app" "web"
app_differs e = let same : ◌≡◌ {A = Bool} false true = (eq_iff "app" "web").1 e in absurd (cc)

-- The token "t1", presented by another client.
refresh_tokens-ReuseRefused_example :
    ReuseRefused "acme" "web" stolen 1000
      (record world { refresh = stolen_store })
      (refresh_tokens ports draws "acme" input 0 (record world { refresh = stolen_store }))
refresh_tokens-ReuseRefused_example =
    refresh_tokens-ReuseRefused ports draws "acme" input 0 (record world { refresh = stolen_store })
      web stolen stolen_Linked refl stolen_known refl (inl app_differs)

abbrev can : CanIssue ports draws 1000 web token_record
can = record {
  token = "t2";
  id = "id2";
  access = ("access", "jti");
  drawn_token = refl;
  drawn_id = refl;
  valid = refl;
  signed = refl;
}

checked : Checked ports "acme" input 1000 world web token_record
unfolding is_active
checked = record {
  client = refl;
  known = known;
  tenant = refl;
  issued_to = refl;
  not_rotated = refl;
  not_revoked = refl;
  in_time = omega arith;
  owner = (alice, record { known = refl; tenant = refl; active = refl });
}

decided :
    authorize ports (refresh_request web token_record input 1000)
    ≡ ok (record { permit = true; reasons = [] })
unfolding authorize evaluate action_rules refresh_request failed_rules rule_holds contains_grant
decided = refl

-- A refresh with "t1", whose own expiry has passed.
refresh_tokens-succeeds_example :
    (refresh_tokens ports draws "acme" input 0 world).0
    ≡ ok (answer_of ports "t2" "access" token_record)
refresh_tokens-succeeds_example =
    refresh_tokens-succeeds ports draws "acme" input 0 world web token_record _ can checked decided
      refl linked fresh

-- The refresh with "t1" passed the checks.
refresh_tokens-ok_example :
    (c : Oauth2Client) × (rec : RefreshTokenRecord) × Checked ports "acme" input 1000 world c rec
    × Permitted ports c rec input 1000
    × Issued ports draws 1000 rec world after result
refresh_tokens-ok_example = refresh_tokens-ok ports draws "acme" input 0 done
