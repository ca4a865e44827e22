-- ===== src/SessionPhases.antt =====
-- internal/controller/session_phases: what the phase reconcilers share.
pub mod Outcome
pub mod Update
pub mod Reason
