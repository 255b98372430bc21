-- ===== src/Execution.antt =====
-- One execution of a request: src/opencode_a2a/execution/coordinator.py and executor.py.
pub mod World
pub mod Replies
pub mod Coordinator
pub mod Cancel
pub mod Tests
