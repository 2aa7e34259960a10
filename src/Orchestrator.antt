-- ===== src/Orchestrator.antt =====
-- src/core/brain/orchestrator.py: the agents, the dispatch of tasks to them, and the retries. The
-- handlers run in threads and in worker processes: what they do is an argument of a dispatch.
pub mod Agent
pub mod Exclusion
pub mod Outliving
pub mod Table
pub mod Dispatch
pub mod Outcome
pub mod Retry
pub mod Accounting
pub mod Attempts
pub mod Refinement
mod Samples
