-- ===== src/Stream.antt =====
-- Streaming of one execution: src/opencode_a2a/execution/stream_state.py, stream_events.py and
-- stream_runtime.py, with the error texts of upstream_error_translator.py.
pub mod Errors
pub mod Output
pub mod Events
pub mod Chunks
pub mod Emission
pub mod SessionEvents
pub mod Runtime
pub mod Connections
pub mod Tests
