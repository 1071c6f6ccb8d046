-- ===== src/UseCases/Device.antt =====
-- ra-idp-go/internal/oauth2/usecases/device_flow.go and oauth2/domain/device_authorization.go.
mod Domain
mod Request
mod Verify
mod Exchange
pub mod UserCode
pub mod Polling
pub mod Decision
pub mod Interleaving
pub mod Once
unfoldable pub use Domain.*
unfoldable pub use Request.*
unfoldable pub use Verify.*
unfoldable pub use Exchange.*
