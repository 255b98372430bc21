-- ===== src/Execution/Cancel.antt =====
-- `OpencodeAgentExecutor.cancel` of src/opencode_a2a/execution/executor.py. It runs in a task of its own,
-- so the task that it cancels is never the current one. The event queue takes what it is given; metrics
-- and logs are left out.
pub mod Sending
pub mod Stops
use opencode_a2a_serve.Base.Names.{
  ℕ, String, ◌<>◌, Bool, true, false, not, ◌&&◌, Option, none, some, List, [], ◌∷◌, ◌++◌, ◌⊎◌, inl,
  inr,
}
use opencode_a2a_serve.Base.Equality.{string_eq, pair_eq, if◌then◌else◌}
use opencode_a2a_serve.Base.Dict.{lookup}
use opencode_a2a_serve.Base.Text.{is_given, is_truthy}
use opencode_a2a_serve.Base.Value.{Value}
use opencode_a2a_serve.Sessions.Repository.{SessionRepository}
use opencode_a2a_serve.Sessions.Manager.{Manager, pop_cached_session}
use opencode_a2a_serve.Stream.Errors.{canceled, failed}
use opencode_a2a_serve.Execution.Replies.{QueueEvent, final_status, emit_error}
use opencode_a2a_serve.Execution.World.{ExecutionKey, Running, World, Event, cancels, is_over}
use opencode_a2a_serve.Execution.Coordinator.{step}

-- What the context of the SDK gives: the ids, and the identity in the state of the call
pub record CancelContext : Type 0 where
  pub task_id : Option String
  pub context_id : Option String
  pub identity : Option String

-- What a request to abort a session comes to: `aborted_badly` is an `httpx.HTTPError` or a `RuntimeError`.
pub data Abort : Type 0 where
  aborted timed_out aborted_badly : Abort
  raises : String → Abort

-- The session that is aborted, with its directory and its workspace
pub record AbortRequest : Type 0 where
  pub session_id : String
  pub directory : Option String
  pub workspace_id : Option String

-- The failures on the way: of `pop_cached_session`, of the abort, and of a creation of a session that ends
-- with an exception of its own in place of its cancellation
pub record Mishaps : Type 0 where
  pub pop : Option String
  pub abort : Abort
  pub inflight : Option String

-- What `cancel` does: the events, `abort_outcome`, the abort it asks for, the execution and the creation
-- of a session that it cancels, and the manager
pub record Cancelling (R : SessionRepository) : Type 0 where
  pub events : List QueueEvent
  pub abort_outcome : String
  pub abort : Option AbortRequest
  pub task : Option ℕ
  pub inflight : Option ℕ
  pub manager : Manager R

-- `table.get(key, default)`
abbrev pub or_given {ℓ} : {A : Type ℓ} → A → Option A → A
or_given a none = a
or_given a (some b) = b

-- A table of values that may be `None`
abbrev pub flattened {ℓ} : {A : Type ℓ} → Option (Option A) → Option A
flattened none = none
flattened (some o) = o

-- `identity` of the state of the call, or "anonymous"
abbrev pub identity_of : Option String → String
identity_of none = "anonymous"
identity_of (some identity) = if is_truthy identity then identity else "anonymous"

-- `abort_outcome` once the running execution is dealt with, or the text of an exception
outcome_of : Option ℕ → Option AbortRequest → Abort → String ⊎ String
outcome_of none request abort = inr "no_running_task"
outcome_of (some n) none abort = inr "no_session_binding"
outcome_of (some n) (some request) aborted = inr "success"
outcome_of (some n) (some request) timed_out = inr "timeout"
outcome_of (some n) (some request) aborted_badly = inr "error"
outcome_of (some n) (some request) (raises message) = inl message

-- The status that closes the task
abbrev pub cancel_events : List QueueEvent
cancel_events = final_status canceled none ∷ []

-- The events of a `cancel` that fails after it
abbrev pub failed_events : String → List QueueEvent
failed_events message =
    cancel_events ++ emit_error ("Cancel failed: " <> message) failed none none false

module _ (R : SessionRepository) where
  -- The running execution, if there is one that is not over
  unfoldable pub running_task : ExecutionKey → World R → Option ℕ
  running_task key w = elim (lookup key w.running.running_requests) [
    | none ↦ none
    | some n ↦ if is_over (w.execution n).phase then none else some n
  ]

  -- What is aborted: the session of an execution that is cancelled, if it is known
  unfoldable pub abort_request : ExecutionKey → Option ℕ → Running → Option AbortRequest
  abort_request key none r = none
  abort_request key (some n) r = elim (lookup key r.running_session_ids) [
    | none ↦ none
    | some session_id ↦
        if is_truthy session_id
        then some (record {
          session_id = session_id;
          directory = flattened (lookup key r.running_directories);
          workspace_id = flattened (lookup key r.running_workspace_ids);
        })
        else none
  ]

  -- `await inflight`, which may end with another exception than its cancellation
  after_inflight :
      Option AbortRequest → Option ℕ → String → Option ℕ → Option String → Manager R → Cancelling R
  after_inflight request task outcome none mishap m = record {
    events = cancel_events;
    abort_outcome = outcome;
    abort = request;
    task = task;
    inflight = none;
    manager = m;
  }
  after_inflight request task outcome (some t) none m = record {
    events = cancel_events;
    abort_outcome = outcome;
    abort = request;
    task = task;
    inflight = some t;
    manager = m;
  }
  after_inflight request task outcome (some t) (some message) m = record {
    events = failed_events message;
    abort_outcome = "cancel_error";
    abort = request;
    task = task;
    inflight = some t;
    manager = m;
  }

  after_abort :
      Option AbortRequest
      → Option ℕ
      → String ⊎ String
      → Option ℕ
      → Option String
      → Manager R
      → Cancelling R
  unfolding after_inflight
  after_abort request task (inl message) inflight mishap m = record {
    events = failed_events message;
    abort_outcome = "cancel_error";
    abort = request;
    task = none;
    inflight = none;
    manager = m;
  }
  after_abort request task (inr outcome) inflight mishap m =
      after_inflight request task outcome inflight mishap m

  after_pop : ExecutionKey → Mishaps → World R → Option ℕ × Manager R → Cancelling R
  unfolding after_abort outcome_of
  after_pop key mishaps w (inflight, m) =
      let task = running_task key w in
      let request = abort_request key task w.running in
      after_abort request task (outcome_of task request mishaps.abort) inflight mishaps.inflight m

  -- The part of `cancel` on a given key
  cancel_key : ExecutionKey → String → Mishaps → World R → Cancelling R
  unfolding after_pop
  cancel_key key identity mishaps w = elim mishaps.pop [
    | some message ↦ record {
      events = failed_events message;
      abort_outcome = "cancel_error";
      abort = none;
      task = none;
      inflight = none;
      manager = w.manager;
    }
    | none ↦ after_pop key mishaps w (
        pop_cached_session R (or_given identity (lookup key w.running.running_identities))
          (or_given key.1 (lookup key w.running.running_binding_context_ids)) w.manager)
  ]

  invalid_context : World R → Cancelling R
  invalid_context w = record {
    events = emit_error "Missing task_id or context_id in request context" failed none none false;
    abort_outcome = "invalid_request_context";
    abort = none;
    task = none;
    inflight = none;
    manager = w.manager;
  }

  -- `cancel`
  unfoldable pub cancel : CancelContext → Mishaps → World R → Cancelling R
  unfolding cancel_key invalid_context
  cancel c mishaps w = elim c.task_id [
    | none ↦ invalid_context w
    | some task_id ↦ elim c.context_id [
      | none ↦ invalid_context w
      | some context_id ↦
          if is_truthy task_id && is_truthy context_id
          then cancel_key (task_id, context_id) (identity_of c.identity) mishaps w
          else invalid_context w
    ]
  ]

  -- What becomes of the executions: `meanwhile` is what they do until the abort is over.
  module _ (coerce_number : Value → Option Value) (add : Value → Value → Value) where
    unfoldable pub after_cancel : Cancelling R → (World R → World R) → World R → World R
    after_cancel done meanwhile w =
        let w' = meanwhile (record w { manager = done.manager }) in
        elim done.task [ none ↦ w' | some n ↦ step R coerce_number add w' (cancels n) ]
