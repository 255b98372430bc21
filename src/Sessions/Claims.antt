-- ===== src/Sessions/Claims.antt =====
-- What a repository of src/opencode_a2a/server/state_store.py promises about pending claims, and how the
-- manager of src/opencode_a2a/execution/session_manager.py uses it.
pub mod Contract
pub mod MemoryClaims
pub mod DatabaseClaims
pub mod Held
pub mod Exclusion
