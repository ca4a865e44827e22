-- ===== src/System.antt =====
-- The controller and the proxy together: a session from its creation on, through any number of
-- runs.
pub mod Guarded
pub mod Attach
pub mod Store
pub mod Lifecycle
pub mod Exhaustion
pub mod Announcement
pub mod Access
pub mod Population
pub mod Reinjection
pub mod Relapses
pub mod Panics
pub mod Orphans
pub mod Listing
pub mod Unordered
pub mod Conflicts
