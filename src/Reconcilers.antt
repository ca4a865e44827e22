-- ===== src/Reconcilers.antt =====
-- internal/controller/session_phases/reconcilers: one module for each phase.
pub mod Containers
pub mod Pending
pub mod SecurityContexts
pub mod NodeInfo
pub mod Injecting
pub mod Webhook
pub mod Active
pub mod Retrying
pub mod Logs
pub mod Terminating
pub mod Completed
pub mod Failed
