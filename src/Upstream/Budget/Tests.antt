-- ===== src/Upstream/Budget/Tests.antt =====
-- A budget of one request of src/opencode_a2a/opencode_upstream_client.py, which refuses a second one.
use opencode_a2a_serve.Base.Names.{List, [], ◌∷◌}
use opencode_a2a_serve.Base.Int.{pos}
use opencode_a2a_serve.Upstream.Budget.{Event, asks, ends, run, unloaded, IsExact, run-IsExact}

abbrev events : List Event
events = asks ∷ asks ∷ ends ∷ asks ∷ []

run-IsExact_example : IsExact (pos 1) (run (unloaded (pos 1)) events)
run-IsExact_example = run-IsExact (pos 1) events
