-- ===== src/Orchestrator.antt =====
-- sdk/python/hivekernel_sdk/orchestrator.py: `OrchestratorAgent`. Groups has the parsing of a plan and
-- the capping of its groups, Execution the run of one group on its worker.
pub mod Groups
pub mod Execution
pub mod Tasks
mod Witnesses
