-- ===== src/UseCases/Tokens.antt =====
-- ra-idp-go/internal/oauth2/usecases/revoke_token.go and introspect_token.go.
mod Revoke
mod Introspect
pub mod Status
unfoldable pub use Revoke.*
unfoldable pub use Introspect.*
