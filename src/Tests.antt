-- ===== src/Tests.antt =====
-- The theorems at concrete inputs: a sample cluster, its sessions, and requests to the proxy.
mod Archiving
mod Samples
mod Phases
mod Reconciling
mod Proxies
mod Parts
mod Steps
mod Lives
mod Copies
mod Reinjecting
mod Names
mod Guarantees
mod Orphaned
mod Repeats
mod Starting
