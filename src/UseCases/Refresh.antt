-- ===== src/UseCases/Refresh.antt =====
-- ra-idp-go/internal/oauth2/domain/refresh_token.go and oauth2/usecases/refresh_tokens.go.
mod Domain
mod Handler
pub mod Checks
pub mod Issue
pub mod Reuse
pub mod Rotation
pub mod Progress
unfoldable pub use Domain.*
unfoldable pub use Handler.*
