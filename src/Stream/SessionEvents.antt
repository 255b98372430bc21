-- ===== src/Stream/SessionEvents.antt =====
-- What `StreamRuntime.consume` of src/opencode_a2a/execution/stream_runtime.py does with an event of its
-- session, apart from the parts of messages. Calls of the queue and of the client return, without an
-- exception.
use opencode_a2a_serve.Base.Names.{String, Bool, true, Option, none, some, List, [], ◌∷◌, ◌++◌}
use opencode_a2a_serve.Base.Equality.{string_eq, option_eq, if◌then◌else◌}
use opencode_a2a_serve.Base.Dict.{Dict}
use opencode_a2a_serve.Base.Value.{Value, dict, Fields, get}
use opencode_a2a_serve.Stream.Errors.{
  input_required, working, StreamTerminalSignal, UpstreamInBandError,
}
use opencode_a2a_serve.Stream.Output.{
  StreamOutputState, register_progress, ingest_token_usage, mark_interrupt_pending,
  clear_interrupt_pending,
}
use opencode_a2a_serve.Stream.Events.{extract_stream_message_id}
use opencode_a2a_serve.Stream.Events.Failures.{
  extract_stream_terminal_signal, extract_upstream_error_from_event,
}
use opencode_a2a_serve.Stream.Events.Interrupts.{
  Asked, Resolved, extract_interrupt_asked_event, extract_interrupt_resolved_event,
}
use opencode_a2a_serve.Stream.Events.Progress.{extract_progress_metadata, build_progress_identity}
use opencode_a2a_serve.Stream.Events.Usage.{extract_token_usage}
use opencode_a2a_serve.Stream.Chunks.{StreamPartState, PendingDelta}
use opencode_a2a_serve.Stream.Emission.{
  Effect, remember_request, discard_request, emit_interrupt_status, emit_progress_status,
}

-- The state of `consume`: `terminal_signal` is the future, `stop` the event that ends the loop.
pub record StreamState : Type 0 where
  pub part_states : Dict String StreamPartState
  pub pending_deltas : Dict String (List PendingDelta)
  pub output : StreamOutputState
  pub terminal_signal : Option StreamTerminalSignal
  pub stop : Bool

-- What the functions under `consume` take from its arguments and from Python: `json.dumps`, with
-- `ensure_ascii` false and true, `_coerce_number`, and `+` on its results.
pub record Setting : Type 0 where
  pub session_id : String
  pub allow_structured_output : Bool
  pub dumps : Fields → String
  pub dumps_ascii : Fields → String
  pub coerce_number : Value → Option Value
  pub add : Value → Value → Value

abbrev pub Step : Type 0
Step = StreamState → List Effect × StreamState

-- One step and then another.
abbrev pub also : Step → Step → Step
also f g st = let (effects, st') = f st in let (later, st'') = g st' in (effects ++ later, st'')

-- A step on the output state only.
abbrev pub on_output : (StreamOutputState → List Effect × StreamOutputState) → Step
on_output f st = let (effects, s) = f st.output in (effects, record st { output = s })

module _ (k : Setting) where
  unfoldable pub progress_step : Value → Fields → Step
  progress_step (dict part) props st = elim (extract_progress_metadata part props) [
    | none ↦ ([], st)
    | some progress ↦
        (let (is_new, s) =
            register_progress (build_progress_identity part props) (k.dumps progress) st.output in
          if is_new
          then on_output
              (emit_progress_status k.session_id (extract_stream_message_id part props) progress)
              (record st { output = s })
          else ([], st))
  ]
  progress_step _ props st = ([], st)

  -- `if upstream_error is not None and stream_state.upstream_error is None`
  unfoldable pub error_step : Option UpstreamInBandError → Step
  error_step none st = ([], st)
  error_step (some e) st = elim st.output.upstream_error [
    | some _ ↦ ([], st)
    | none ↦ ([], record st { output = record st.output { upstream_error = some e } })
  ]

  -- `if signal is not None and not terminal_signal.done()`
  unfoldable pub signal_step : Option StreamTerminalSignal → Step
  signal_step none st = ([], st)
  signal_step (some signal) st = elim st.terminal_signal [
    | some _ ↦ ([], st)
    | none ↦ ([], record st { terminal_signal = some signal; stop = true })
  ]

  unfoldable pub usage_step : Option Fields → Step
  usage_step none st = ([], st)
  usage_step (some usage) st =
      ([], record st { output = ingest_token_usage (some usage) st.output })

  unfoldable pub asked_step : Option Asked → Step
  asked_step none st = ([], st)
  asked_step (some asked) st =
      let (is_new, s) = mark_interrupt_pending asked.request_id st.output in
      if is_new
      then also (λ t. (remember_request asked ∷ [], t))
          (on_output (
            emit_interrupt_status k.session_id input_required asked.request_id asked.interrupt_type
              "asked" (some asked.details) none))
          (record st { output = s })
      else ([], record st { output = s })

  unfoldable pub resolved_step : Option Resolved → Step
  resolved_step none st = ([], st)
  resolved_step (some resolved) st =
      let (cleared, s) = clear_interrupt_pending resolved.request_id st.output in
      also (λ t. (discard_request resolved.request_id ∷ [], t))
        (λ t.
          if cleared
          then on_output
              (emit_interrupt_status k.session_id working resolved.request_id
                resolved.interrupt_type "resolved" none (some resolved.resolution))
              t
          else ([], t))
        (record st { output = s })

  -- The block under `if event_session_id == session_id`
  unfoldable pub session_step : Fields → String → Fields → Step
  unfolding progress_step error_step usage_step asked_step resolved_step
  session_step event event_type props = also (progress_step (get "part" props) props) (
      also (error_step (extract_upstream_error_from_event event)) (
        also (signal_step (extract_stream_terminal_signal event)) (
          also (usage_step (extract_token_usage k.coerce_number k.add event)) (
            also (asked_step (extract_interrupt_asked_event event_type props))
              (resolved_step (extract_interrupt_resolved_event event_type props))))))
