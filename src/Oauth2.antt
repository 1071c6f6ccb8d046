-- ===== src/Oauth2.antt =====
-- The OAuth2 context (ra-idp-go/internal/oauth2) over the vocabulary of internal/shared/spec: records,
-- errors, events, and the state monad of the use cases.
pub mod Details
pub mod Records
pub mod Events
