-- ===== src/UseCases/Refresh/Domain.antt =====
-- oauth2/domain/refresh_token.go.
use regenerative_architectur.Base.{
  ℕ, ◌+◌, ◌*◌, String, Bool, false, not, ◌||◌, Option, none, some, List, if◌then◌else◌,
}
use regenerative_architectur.Spec.{Time, seconds, before, or_clock}
use regenerative_architectur.Oauth2.Records.{RefreshTokenRecord, SenderConstraint}
use regenerative_architectur.UseCases.Monad.{M, ◌>>=◌, ◌>>◌, lift, return}
use regenerative_architectur.UseCases.Ports.{Ports, Entropy}

pub record GeneratedRefreshToken : Type 0 where
  pub token : String
  pub rec : RefreshTokenRecord

abbrev pub refresh_token_ttl : ℕ
refresh_token_ttl = seconds (14 * 24 * 3600)

abbrev pub refresh_token_absolute_ttl : ℕ
refresh_token_absolute_ttl = seconds (30 * 24 * 3600)

-- The first record of a family.
unfoldable pub initial :
    Ports
    → String
    → String
    → String
    → String
    → String
    → List String
    → Option SenderConstraint
    → Time
    → RefreshTokenRecord
initial d token id family_id client_id sub scopes sc now = record {
  id = id;
  tenant_id = "";
  hash = d.sha256_hex token;
  family_id = family_id;
  parent_id = none;
  client_id = client_id;
  sub = sub;
  scopes = scopes;
  issued_at = now;
  expires_at = now + refresh_token_ttl;
  absolute_expires_at = now + refresh_token_absolute_ttl;
  revoked = false;
  rotated = false;
  sender_constraint = sc;
}

unfoldable pub generate_initial_refresh_token :
    Ports
    → Entropy
    → String
    → String
    → List String
    → Option SenderConstraint
    → Time
    → M GeneratedRefreshToken
generate_initial_refresh_token d e client_id sub scopes sc now0 = do
  let now = or_clock d.clock now0
  token ← lift e.token
  id ← lift e.id
  family_id ← lift e.family_id
  let rec = initial d token id family_id client_id sub scopes sc now
  lift (d.validate_refresh_token rec)
  return (record { token = token; rec = rec })

-- The successor of a token: its expiry is cut at the absolute expiry of the family.
unfoldable pub successor : Ports → String → String → RefreshTokenRecord → Time → RefreshTokenRecord
successor d token id parent now =
    let expires = now + refresh_token_ttl in
    record {
      id = id;
      tenant_id = "";
      hash = d.sha256_hex token;
      family_id = parent.family_id;
      parent_id = some parent.id;
      client_id = parent.client_id;
      sub = parent.sub;
      scopes = parent.scopes;
      issued_at = now;
      expires_at =
          if before parent.absolute_expires_at expires then parent.absolute_expires_at else expires;
      absolute_expires_at = parent.absolute_expires_at;
      revoked = false;
      rotated = false;
      sender_constraint = parent.sender_constraint;
    }

unfoldable pub rotate_refresh_token :
    Ports → Entropy → RefreshTokenRecord → Time → M GeneratedRefreshToken
rotate_refresh_token d e parent now0 = do
  let now = or_clock d.clock now0
  token ← lift e.token
  id ← lift e.id
  let rec = successor d token id parent now
  lift (d.validate_refresh_token rec)
  return (record { token = token; rec = rec })

unfoldable pub is_refresh_token_replay : RefreshTokenRecord → Bool
is_refresh_token_replay rec = rec.rotated || rec.revoked

unfoldable pub is_refresh_token_absolute_expired : Time → RefreshTokenRecord → Time → Bool
is_refresh_token_absolute_expired clock rec now =
    not (before (or_clock clock now) rec.absolute_expires_at)
