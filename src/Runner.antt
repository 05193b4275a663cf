-- ===== src/Runner.antt =====
-- The durable execution engine (packages/automa-durable-runner).
pub mod ErrorClasses
pub mod Backoff
pub mod Retry
pub mod Timeouts
pub mod Classify
pub mod Branching
pub mod Types
pub mod Repository
pub mod Orchestrator
pub mod Executor
pub mod Janitor
pub mod Resume
pub mod Lease
pub mod Soundness
