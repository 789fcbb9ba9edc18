-- ===== src/Tasks.antt =====
-- Governed capability tasks: groupmate/social_runtime/tasks.
pub mod Contracts
pub mod TaskRun
pub mod Payload
pub mod Store
pub mod Runtime
pub mod Events
pub mod Recover
pub mod Normal
pub mod Sound
pub mod Acts
pub mod Applies
pub mod History
pub mod Consistent
pub mod Saved
pub mod Loaded
pub mod Proposed
pub mod Listed
pub mod Workers
pub mod Runs
pub mod Repeats
pub mod Proposals
pub mod Samples
pub mod Examples
