-- ===== src/UseCases/Tokens/Revoke.antt =====
-- oauth2/usecases/revoke_token.go, with an introspector and a denylist.
use regenerative_architectur.Base.{String, not, ◌&&◌, none, some, ◌==◌, if◌then◌else◌}
use regenerative_architectur.Base.Int.{ℤ}
use regenerative_architectur.Spec.{Time, or_clock}
use regenerative_architectur.Stores.RefreshTokens.{find_by_hash, revoke_family}
use regenerative_architectur.Stores.Denylist.{add}
use regenerative_architectur.Oauth2.Records.{RefreshTokenRecord, Result, ok, err}
use regenerative_architectur.Oauth2.Events.{token_revoked}
use regenerative_architectur.UseCases.Monad.{
  M, ◌>>=◌, ◌>>◌, return, read, emit, on_refresh, on_denylist,
}
use regenerative_architectur.UseCases.Ports.{Ports}
use regenerative_architectur.UseCases.Tokens.Introspect.{IntrospectionResult}

-- `from_unix` is `time.Unix(_, 0)`. A token that is invalid, unknown or another client's is a no-op.
unfoldable pub revoke_access_token :
    (ℤ → Time)
    → (String → Result IntrospectionResult)
    → String
    → String
    → String
    → Time
    → M (Unit {0})
unfolding add
revoke_access_token from_unix introspector tenant_id client_id token now =
    elim (introspector token) [
      | err e ↦ return tt
      | ok result ↦
          if result.active && not (result.jti == "") && (result.client_id == client_id)
          then (do
            on_denylist (add result.jti (from_unix result.exp))
            emit (token_revoked now tenant_id "access_token" result.jti "client_initiated"))
          else return tt
    ]

unfoldable pub revoke_refresh_token : String → String → RefreshTokenRecord → Time → M (Unit {0})
revoke_refresh_token tenant_id client_id rec now =
    if (rec.tenant_id == tenant_id) && (rec.client_id == client_id)
    then (do
      on_refresh (revoke_family rec.family_id)
      emit (token_revoked now rec.tenant_id "refresh_token" rec.id "client_initiated"))
    else return tt

unfoldable pub revoke_token :
    Ports
    → (ℤ → Time)
    → (String → Result IntrospectionResult)
    → String
    → String
    → String
    → Time
    → M (Unit {0})
unfolding revoke_access_token revoke_refresh_token find_by_hash
revoke_token d from_unix introspector tenant_id client_id token now0 = do
  let now = or_clock d.clock now0
  stored ← read (λ w. find_by_hash w.refresh (d.sha256_hex token))
  elim stored [
    | none ↦ revoke_access_token from_unix introspector tenant_id client_id token now
    | some rec ↦ revoke_refresh_token tenant_id client_id rec now
  ]
