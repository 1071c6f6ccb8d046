-- ===== src/Machines.antt =====
-- The state machines of ra-idp-go/internal/shared/spec: a table of transitions that a loop searches.
pub mod Table
pub mod CodeFlow
pub mod CodeRecord
pub mod DeviceFlow
