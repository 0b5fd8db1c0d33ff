-- ===== src/System.antt =====
-- The whole system: every way in which the shared world may change.
pub mod Requests
pub mod Changes
pub mod Mgn
pub mod Outdated
pub mod Poller
pub mod Rollback
pub mod Endpoints
pub mod Serve
pub mod Run
pub mod Terminal
pub mod Approval
pub mod Unreached
pub mod Outage
pub mod Load
pub mod History
pub mod Members
