-- ===== src/Authentication.antt =====
-- ra-idp-go/internal/authentication/usecases: the strength of an authentication.
pub mod Acr
pub mod StepUp
pub mod Sessions
pub mod Retention
