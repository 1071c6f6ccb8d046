-- ===== src/Stores.antt =====
-- The in-memory stores of ra-idp-go/internal/shared/adapters/persistence/memory. Each method holds the
-- store's mutex for its whole body, so it is one step of the store.
pub mod Tenant
pub mod RefreshTokens
pub mod AuthorizationCodes
pub mod AuthorizationRequests
pub mod DeviceCodes
pub mod Denylist
pub mod Throttle
pub mod Replay
pub mod Par
pub mod Sessions
pub mod Buckets
pub mod AuditEvents
pub mod Agents
