-- ===== src/Identity.antt =====
-- ra-idp-go/internal/identitymanagement/usecases: the administration of agents.
pub mod Results
pub mod Agents
