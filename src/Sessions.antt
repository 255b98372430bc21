-- ===== src/Sessions.antt =====
-- Which caller owns which upstream session: the repositories of src/opencode_a2a/server/state_store.py
-- and the session manager of src/opencode_a2a/execution/session_manager.py that uses them.
pub mod Repository
pub mod Memory
pub mod Database
pub mod Claims
pub mod Manager
