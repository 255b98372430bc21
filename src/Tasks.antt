-- ===== src/Tasks.antt =====
-- Task persistence: src/opencode_a2a/server/task_store.py and src/opencode_a2a/task_states.py.
pub mod Sdk
pub mod Policy
pub mod Store
pub mod Database
pub mod Finality
pub mod Atomic
pub mod Refinement
pub mod Tests
