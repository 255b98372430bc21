-- ===== src/Execution/Coordinator.antt =====
-- `ExecutionCoordinator` of src/opencode_a2a/execution/coordinator.py: executions that share one executor,
-- its session manager and the locks of the sessions. An execution is a number. Between two awaits an
-- execution is in one phase, and any interleaving of executions is a list of events.
pub mod Locking
pub mod Registered
use opencode_a2a_serve.Base.Names.{
  ℕ, ◌+◌, String, ◌<>◌, Bool, true, false, not, ◌&&◌, Option, none, some, List, [], ◌∷◌, ◌++◌, ◌⊎◌,
  inl, inr,
}
use opencode_a2a_serve.Base.Equality.{◌==◌, string_eq, nat_eq, pair_eq, if◌then◌else◌}
use opencode_a2a_serve.Base.Text.{is_truthy}
use opencode_a2a_serve.Base.Dict.{Dict, insert, erase}
use opencode_a2a_serve.Base.Value.{Value}
use opencode_a2a_serve.Sessions.Repository.{SessionRepository}
use opencode_a2a_serve.Sessions.Manager.{
  Manager, Claim, claimed, denied, finalize_session_claim, bind_session,
  release_preferred_session_claim,
}
use opencode_a2a_serve.Stream.Output.{StreamOutputState}
use opencode_a2a_serve.Execution.Replies.{
  QueueEvent, working_status, ExecutionFailure, other_error, exception_events, OpencodeMessage,
  Awaited, handle_response,
}
use opencode_a2a_serve.Execution.World.{
  ExecutionKey, PreparedExecution, Phase, Execution, Running, World, register_running_request,
  register_session, unregister, set_at, set_lock, Event, subject, idle, binding, fetching,
  acquiring, sending, finished, cancelled, starts, binds, binding_fails, fetches_lock, acquires,
  answers, raises, cancels, elsewhere,
}

module _ (R : SessionRepository) where
  -- `_cleanup`. Its awaits are taken as one step.
  unfoldable pub cleanup : ℕ → Phase → World R → World R
  unfolding unregister
  cleanup n end_phase w =
      let x = w.execution n in
      record {
        manager =
            if x.pending_preferred_claim && is_truthy x.session_id
            then release_preferred_session_claim R x.prepared.identity x.session_id w.manager
            else w.manager;
        is_locked =
            if x.has_session_lock && w.is_locked x.session_id
            then set_lock x.session_id false w.is_locked
            else w.is_locked;
        running = unregister x.prepared.key w.running;
        execution = set_at n (record x { phase = end_phase }) w.execution;
      }

  abbrev pub enqueue : ℕ → List QueueEvent → World R → World R
  enqueue n events w =
      let x = w.execution n in
      record w { execution = set_at n (record x { events = x.events ++ events }) w.execution }

  -- A handler of exceptions, and `finally`
  unfoldable pub fails : ℕ → ExecutionFailure → World R → World R
  unfolding cleanup
  fails n failure w =
      let x = w.execution n in
      cleanup n finished (enqueue n (exception_events failure x.prepared.streaming_request) w)

  -- The end of `run`, with the result of `_handle_response`
  unfoldable pub concludes : ℕ → ExecutionFailure ⊎ List QueueEvent → World R → World R
  unfolding cleanup fails
  concludes n (inl failure) w = fails n failure w
  concludes n (inr events) w = cleanup n finished (enqueue n events w)

  -- `finalize_preferred_session_binding` after its first critical section; `meanwhile` is what other
  -- calls do to the manager before the second.
  after_finalize :
      ℕ
      → (ℕ → ℕ)
      → (Manager R → Manager R)
      → Claim × Manager R
      → World R
      → (ExecutionFailure × World R) ⊎ World R
  after_finalize n now meanwhile (denied s, m) w =
      inl (other_error ("Session " <> s <> " is not owned by you"), record w { manager = m })
  after_finalize n now meanwhile (claimed _, m) w =
      let x = w.execution n in
      inr (record w {
        manager =
            bind_session R x.prepared.identity x.prepared.session_binding_context_id x.session_id
              (λ k. now (k + 3)) (meanwhile m);
        execution = set_at n (record x { pending_preferred_claim = false }) w.execution;
      })

  -- `if self._pending_preferred_claim: finalize`
  unfoldable pub settle_claim :
      ℕ → (ℕ → ℕ) → (Manager R → Manager R) → World R → (ExecutionFailure × World R) ⊎ World R
  unfolding after_finalize
  settle_claim n now meanwhile w =
      let x = w.execution n in
      if x.pending_preferred_claim
      then after_finalize n now meanwhile
          (finalize_session_claim R x.prepared.identity x.session_id now w.manager) w
      else inr w

  -- The loop after an answer: with results of tools it sends them and goes on, else it ends.
  after_settle :
      (World R → ExecutionFailure ⊎ List QueueEvent)
      → ℕ
      → Bool
      → (ExecutionFailure × World R) ⊎ World R
      → World R
  after_settle reply n has_tool_results (inl (failure, w)) = fails n failure w
  after_settle reply n has_tool_results (inr w) =
      if has_tool_results then w else concludes n (reply w) w

  module _ (coerce_number : Value → Option Value) (add : Value → Value → Value) where
    reply_to :
        ℕ
        → OpencodeMessage
        → StreamOutputState
        → Awaited
        → World R
        → ExecutionFailure ⊎ List QueueEvent
    reply_to n response s awaited w =
        let x = w.execution n in
        handle_response coerce_number add x.session_id x.prepared.streaming_request s response
          awaited

    -- The effect of an event in the phase where it can happen
    unfoldable pub happen : Event R → Phase → World R → World R
    unfolding after_settle reply_to
    happen (starts n p) idle w = record w {
      running = register_running_request n p w.running;
      execution =
          set_at n
            (record {
              prepared = p;
              phase = binding;
              session_id = "";
              pending_preferred_claim = false;
              has_session_lock = false;
              events = [];
            })
            w.execution;
    }
    happen (binds n session_id pending) binding w = record w {
      execution =
          set_at n
            (record (w.execution n) {
              phase = fetching;
              session_id = session_id;
              pending_preferred_claim = pending;
            })
            w.execution;
    }
    happen (fetches_lock n) fetching w = record w {
      execution =
          set_at n (record (w.execution n) { phase = acquiring; has_session_lock = true })
            w.execution;
    }
    happen (binding_fails n failure) binding w = fails n failure w
    happen (acquires n) acquiring w =
        let x = w.execution n in
        if w.is_locked x.session_id then w else record w {
          is_locked = set_lock x.session_id true w.is_locked;
          running = register_session x.prepared x.session_id w.running;
          execution =
              set_at n (record x { phase = sending; events = x.events ++ working_status ∷ [] })
                w.execution;
        }
    happen (answers n response has_tool_results now meanwhile s awaited) sending w =
        after_settle (reply_to n response s awaited) n has_tool_results
          (settle_claim n now meanwhile w)
    happen (raises n failure) sending w = fails n failure w
    happen (cancels n) binding w = cleanup n cancelled w
    happen (cancels n) fetching w = cleanup n cancelled w
    happen (cancels n) acquiring w = cleanup n cancelled w
    happen (cancels n) sending w = cleanup n cancelled w
    happen (elsewhere change) phase w = record w { manager = change w.manager }
    happen event phase w = w

    -- An event that cannot happen in the phase of its execution changes nothing.
    unfoldable pub step : World R → Event R → World R
    unfolding happen
    step w event = happen event (w.execution (subject event)).phase w

    -- Any interleaving of executions
    unfoldable pub run : World R → List (Event R) → World R
    unfolding step
    run w [] = w
    run w (event ∷ events) = run (step w event) events
