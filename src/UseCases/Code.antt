-- ===== src/UseCases/Code.antt =====
-- ra-idp-go/internal/oauth2/usecases: authorize.go, complete_login.go and exchange_code.go, the
-- authorization code grant.
mod Authorize
mod Login
mod Exchange
pub mod Checks
mod Kept
pub mod Once
pub mod Replay
pub mod Flow
pub mod Completion
unfoldable pub use Authorize.*
unfoldable pub use Login.*
unfoldable pub use Exchange.*
