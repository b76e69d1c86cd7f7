-- ===== src/Provisioning.antt =====
-- The provisioning control plane (firmware/components/provisioning_service and
-- provisioning_state).
pub mod Stream
pub mod State
pub mod Access
pub mod Endpoint
pub mod Service
mod Tests
