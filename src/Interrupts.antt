-- ===== src/Interrupts.antt =====
-- Which interrupt requests wait for an answer: the repositories of src/opencode_a2a/server/state_store.py
-- over the records of src/opencode_a2a/runtime_state.py.
pub mod Contract
pub mod Memory
pub mod Database
pub mod Life
pub mod Tests
