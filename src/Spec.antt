-- ===== src/Spec.antt =====
-- The vocabulary of ra-idp-go/internal/shared/spec: times, enumerations and records.
pub mod Times
pub mod Enums
pub use Times.*
unfoldable pub use Enums.*
