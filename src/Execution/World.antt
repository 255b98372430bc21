-- ===== src/Execution/World.antt =====
-- What the executions of src/opencode_a2a/execution/coordinator.py share and keep, with the tables of
-- src/opencode_a2a/execution/executor.py, and what may happen to them.
use opencode_a2a_serve.Base.Names.{ℕ, String, Bool, true, false, Option, List}
use opencode_a2a_serve.Base.Equality.{◌==◌, string_eq, nat_eq, pair_eq, if◌then◌else◌}
use opencode_a2a_serve.Base.Dict.{Dict, insert, erase}
use opencode_a2a_serve.Sessions.Repository.{SessionRepository}
use opencode_a2a_serve.Sessions.Manager.{Manager}
use opencode_a2a_serve.Stream.Output.{StreamOutputState}
use opencode_a2a_serve.Execution.Replies.{QueueEvent, ExecutionFailure, OpencodeMessage, Awaited}

abbrev pub ExecutionKey : Type 0
ExecutionKey = String × String

-- `PreparedExecution`, as far as the coordinator's own steps depend on it, with `(task_id, context_id)`
pub record PreparedExecution : Type 0 where
  pub key : ExecutionKey
  pub identity : String
  pub streaming_request : Bool
  pub directory : Option String
  pub workspace_id : Option String
  pub session_binding_context_id : String

-- Where an execution stands in `run`
pub data Phase : Type 0 where
  -- before `run`
  idle : Phase
  -- waiting for `get_or_create_session`
  binding : Phase
  -- the session is known, waiting for `get_session_lock`
  fetching : Phase
  -- in `await self._session_lock.acquire()`
  acquiring : Phase
  -- the lock is acquired, and the upstream works on a message
  sending : Phase
  -- `_cleanup` is done, after an end of its own, or after a cancellation
  finished cancelled : Phase

-- `run` is over: `task.done()`.
abbrev pub is_over : Phase → Bool
is_over finished = true
is_over cancelled = true
is_over _ = false

-- In `run`, from its first await to its last
abbrev pub is_live : Phase → Bool
is_live binding = true
is_live fetching = true
is_live acquiring = true
is_live sending = true
is_live _ = false

pub record Execution : Type 0 where
  pub prepared : PreparedExecution
  pub phase : Phase
  pub session_id : String
  pub pending_preferred_claim : Bool
  pub has_session_lock : Bool
  pub events : List QueueEvent

-- The tables of the executor
pub record Running : Type 0 where
  pub running_requests : Dict ExecutionKey ℕ
  pub running_stop_events : Dict ExecutionKey ℕ
  pub running_identities : Dict ExecutionKey String
  pub running_session_ids : Dict ExecutionKey String
  pub running_directories : Dict ExecutionKey (Option String)
  pub running_workspace_ids : Dict ExecutionKey (Option String)
  pub running_binding_context_ids : Dict ExecutionKey String

-- `is_locked` says which sessions' locks are locked: an `asyncio.Lock` knows nothing else.
pub record World (R : SessionRepository) : Type 0 where
  pub manager : Manager R
  pub is_locked : String → Bool
  pub running : Running
  pub execution : ℕ → Execution

-- `_register_running_request`; the request and its event go by the number of the execution.
unfoldable pub register_running_request : ℕ → PreparedExecution → Running → Running
register_running_request n p r = record r {
  running_requests = insert p.key n r.running_requests;
  running_stop_events = insert p.key n r.running_stop_events;
  running_identities = insert p.key p.identity r.running_identities;
}

-- The tables that `_bind_session` writes
unfoldable pub register_session : PreparedExecution → String → Running → Running
register_session p session_id r = record r {
  running_session_ids = insert p.key session_id r.running_session_ids;
  running_directories = insert p.key p.directory r.running_directories;
  running_workspace_ids = insert p.key p.workspace_id r.running_workspace_ids;
  running_binding_context_ids =
      insert p.key p.session_binding_context_id r.running_binding_context_ids;
}

-- The tables that `_cleanup` empties of the key
unfoldable pub unregister : ExecutionKey → Running → Running
unregister key r = record {
  running_requests = erase key r.running_requests;
  running_stop_events = erase key r.running_stop_events;
  running_identities = erase key r.running_identities;
  running_session_ids = erase key r.running_session_ids;
  running_directories = erase key r.running_directories;
  running_workspace_ids = erase key r.running_workspace_ids;
  running_binding_context_ids = erase key r.running_binding_context_ids;
}

abbrev pub set_at {ℓ} : {A : Type ℓ} → ℕ → A → (ℕ → A) → ℕ → A
set_at n a f k = if k == n then a else f k

abbrev pub set_lock : String → Bool → (String → Bool) → String → Bool
set_lock s b f t = if t == s then b else f t

-- What the event loop may do next. An answer of the upstream comes with what `maybe_handle_tools` makes
-- of it: whether there are results to send back.
pub data Event (R : SessionRepository) : Type 0 where
  -- `run` of an execution begins
  starts : ℕ → PreparedExecution → Event R
  -- `get_or_create_session` returns the session and `pending_claim`, or raises
  binds : ℕ → String → Bool → Event R
  binding_fails : ℕ → ExecutionFailure → Event R
  -- `get_session_lock` returns the lock of the session
  fetches_lock : ℕ → Event R
  -- the lock is free, and the execution gets it
  acquires : ℕ → Event R
  -- `send_message` returns at clock readings, with the state of the stream at the end and its signal
  answers :
      ℕ
      → OpencodeMessage
      → Bool
      → (ℕ → ℕ)
      → (Manager R → Manager R)
      → StreamOutputState
      → Awaited
      → Event R
  -- `send_message`, or what follows it, raises
  raises : ℕ → ExecutionFailure → Event R
  -- the task of the execution is cancelled, whatever it waits for
  cancels : ℕ → Event R
  -- anything else that changes the manager
  elsewhere : (Manager R → Manager R) → Event R

-- The execution that an event is about
abbrev pub subject : {R : SessionRepository} → Event R → ℕ
subject (starts n _) = n
subject (binds n _ _) = n
subject (binding_fails n _) = n
subject (fetches_lock n) = n
subject (acquires n) = n
subject (answers n _ _ _ _ _ _) = n
subject (raises n _) = n
subject (cancels n) = n
subject (elsewhere _) = 0
