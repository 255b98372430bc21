-- ===== src/Rpc.antt =====
-- The JSON-RPC extension methods: src/opencode_a2a/jsonrpc and what it is built on.
pub mod Messages
pub mod Failures
pub mod Metadata
pub mod Errors
pub mod Common
pub mod Methods
pub mod InterruptCallbacks
pub mod Tests
pub mod Validation
pub mod ClaimGuard
pub mod SessionControl
pub mod Queries
pub mod InterruptQueries
