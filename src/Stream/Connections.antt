-- ===== src/Stream/Connections.antt =====
-- `StreamRuntime.consume` of src/opencode_a2a/execution/stream_runtime.py: one connection after the
-- other, until one is closed by the upstream or the stream is stopped.
pub mod Laws
use opencode_a2a_serve.Base.Names.{ℕ, ◌*◌, Bool, true, false, not, List, [], ◌∷◌, ◌++◌}
use opencode_a2a_serve.Base.Equality.{if◌then◌else◌}
use opencode_a2a_serve.Base.Lists.{leb}
use opencode_a2a_serve.Base.Value.{Fields}
use opencode_a2a_serve.Stream.Emission.{Effect}
use opencode_a2a_serve.Stream.SessionEvents.{StreamState, Setting}
use opencode_a2a_serve.Stream.Runtime.{handle_events}

-- The events that a connection delivers, and whether it then breaks with an exception.
pub record Connection : Type 0 where
  pub events : List Fields
  pub breaks : Bool

-- What `consume` did by the time that the connections given are used up.
pub record Consumed : Type 0 where
  pub effects : List Effect
  pub delays : List ℕ
  pub state : StreamState

-- `min(backoff * 2, max_backoff)`, in half seconds: `max_backoff` is 5.0
abbrev pub next_backoff : ℕ → ℕ
next_backoff backoff = if leb (backoff * 2) 10 then backoff * 2 else 10

module _ (k : Setting) where
  -- The outer loop, with the present delay in half seconds
  unfoldable pub consume_from : List Connection → ℕ → StreamState → Consumed
  consume_from [] backoff st = record { effects = []; delays = []; state = st }
  consume_from (connection ∷ connections) backoff st =
      let (effects, st') = handle_events k connection.events st in
      let later = consume_from connections (next_backoff backoff) st' in
      if st.stop
      then record { effects = []; delays = []; state = st }
      else if not connection.breaks
      then record { effects = effects; delays = []; state = st' }
      else if st'.stop
      then record { effects = effects; delays = []; state = st' }
      else record {
        effects = effects ++ later.effects;
        delays = backoff ∷ later.delays;
        state = later.state;
      }

  -- `consume`: the first delay is 0.5 seconds
  unfoldable pub consume : List Connection → StreamState → Consumed
  consume connections st = consume_from connections 1 st
