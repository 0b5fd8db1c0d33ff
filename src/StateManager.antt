-- ===== src/StateManager.antt =====
-- src/state_manager/state_manager.py: every read and write of the three tables. Each method is an
-- action on the database; `conn.transaction()` is `transaction`.
pub mod Moves
pub mod Servers
pub mod Batches
pub mod Queries
pub mod Advance
pub mod Reset
pub mod Change
pub mod Unattended
pub mod Board
pub mod Reads
pub mod Audit
pub mod Frozen
pub mod Pipeline
pub mod Waves
