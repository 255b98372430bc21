-- ===== src/Upstream.antt =====
-- The client of the upstream, src/opencode_a2a/opencode_upstream_client.py.
pub mod Budget
