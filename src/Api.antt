-- ===== src/Api.antt =====
-- src/api/routes: the endpoints of the Orchestrator API. An HTTPException is `Exc.http`.
pub mod JobRequests
pub mod Text
pub mod Gates
pub mod Servers
pub mod Registration
pub mod Bulk
pub mod Batches
pub mod Queries
pub mod BatchGates
pub mod GateOutcomes
pub mod GateTable
pub mod BatchOutcomes
