-- ===== src/Policy.antt =====
-- ra-idp-go/internal/shared/spec/policy.go: the requests of the authorization policy, its rules and
-- `Evaluate`. Action and rule names are enumerations, with a constructor for a name of neither.
mod Rules
mod Actions
mod Evaluate
pub mod Laws
pub mod Safety
unfoldable pub use Rules.*
unfoldable pub use Actions.*
unfoldable pub use Evaluate.*
