-- ===== src/Orchestrator.antt =====
-- app/orchestrator: the agents of a run, and its completion.
mod Examples
mod PolicyExamples
pub mod SubagentGraph
pub mod SubagentQuota
pub mod RunCompletion
pub mod SpawnPolicy
pub mod Admission
