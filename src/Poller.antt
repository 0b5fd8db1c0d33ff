-- ===== src/Poller.antt =====
-- src/workers/poll_result.py and src/workers/poller_worker.py: the poller worker.
pub mod Delivery
pub mod Handlers
pub mod Loop
pub mod Stale
pub mod Attempts
