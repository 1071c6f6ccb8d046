-- ===== src/Oauth2/Events.antt =====
-- ra-idp-go/internal/shared/spec/events.go: the domain events that the modelled use cases emit.
use regenerative_architectur.Base.{ℕ, String, Option, List}
use regenerative_architectur.Oauth2.Records.{OauthError}
use regenerative_architectur.Spec.{Time, SenderConstraintType}

pub data DomainEvent : Type 0 where
  -- at, tenant, family, token, client
  refresh_token_reuse_detected : Time → String → String → String → String → DomainEvent
  -- at, tenant, old token, new token, family
  refresh_token_rotated : Time → String → String → String → String → DomainEvent
  -- at, tenant, token, family, client, sub
  refresh_token_issued : Time → String → String → String → String → String → DomainEvent
  -- at, tenant, jti, client, sub, scopes, sender constraint
  access_token_issued :
      Time
      → String
      → String
      → String
      → String
      → List String
      → Option SenderConstraintType
      → DomainEvent
  -- at, tenant, client, sub
  authorization_code_redeemed : Time → String → String → String → DomainEvent
  -- at, tenant, token type, token, reason
  token_revoked : Time → String → String → String → String → DomainEvent
  -- at, tenant, client, scopes
  device_authorization_requested : Time → String → String → List String → DomainEvent
  -- at, tenant, client, sub
  device_authorization_approved device_authorization_denied :
      Time → String → String → String → DomainEvent
  -- at, tenant, actor, subject, audience, delegation depth
  token_exchanged : Time → String → String → String → String → ℕ → DomainEvent
  -- at, tenant, actor, reason
  token_exchange_rejected : Time → String → String → OauthError → DomainEvent
  -- at, tenant, request_uri, client
  par_stored : Time → String → String → String → DomainEvent
