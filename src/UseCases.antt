-- ===== src/UseCases.antt =====
-- The use cases of ra-idp-go/internal/oauth2/usecases.
pub mod Monad
pub mod Inversion
pub mod Ports
pub mod Refresh
pub mod Senders
pub mod Device
pub mod Code
pub mod Tokens
pub mod Details
pub mod TokenExchange
pub mod Par
