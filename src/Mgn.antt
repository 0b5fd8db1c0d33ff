-- ===== src/Mgn.antt =====
-- src/workers/mgn_result.py and src/workers/mgn_worker.py: the MGN worker.
pub mod Results
pub mod Onboarding
pub mod Cutover
pub mod Loop
pub mod Stale
pub mod Delivery
pub mod Preflight
