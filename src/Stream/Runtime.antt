-- ===== src/Stream/Runtime.antt =====
-- The parts of messages in `StreamRuntime.consume` of src/opencode_a2a/execution/stream_runtime.py, and
-- the body of its loop over events.
pub mod Foreign
pub mod Steps
pub mod Order
pub mod Signal
use opencode_a2a_serve.Base.Names.{
  ℕ, ◌*◌, String, Bool, true, false, not, ◌||◌, Option, none, some, List, [], ◌∷◌, ◌++◌,
}
use opencode_a2a_serve.Base.Equality.{◌==◌, string_eq, option_eq, if◌then◌else◌}
use opencode_a2a_serve.Base.Lists.{leb}
use opencode_a2a_serve.Base.Text.{is_truthy}
use opencode_a2a_serve.Base.Dict.{Dict, lookup, insert, erase}
use opencode_a2a_serve.Base.Value.{Value, dict, str, Fields, end, get, as_str}
use opencode_a2a_serve.Stream.Errors.{
  input_required, working, StreamTerminalSignal, UpstreamInBandError,
}
use opencode_a2a_serve.Stream.Output.{
  StreamOutputState, register_progress, ingest_token_usage, mark_interrupt_pending,
  clear_interrupt_pending, is_tool_call,
}
use opencode_a2a_serve.Stream.Events.{
  extract_event_session_id, extract_stream_session_id, extract_stream_message_id,
  extract_stream_part_id, extract_stream_role, extract_stream_snapshot_text,
}
use opencode_a2a_serve.Stream.Events.Failures.{
  extract_stream_terminal_signal, extract_upstream_error_from_event, dict_or_empty,
}
use opencode_a2a_serve.Stream.Events.Interrupts.{
  Asked, Resolved, extract_interrupt_asked_event, extract_interrupt_resolved_event,
}
use opencode_a2a_serve.Stream.Events.Progress.{extract_progress_metadata, build_progress_identity}
use opencode_a2a_serve.Stream.Events.Usage.{extract_token_usage}
use opencode_a2a_serve.Stream.Chunks.{
  NormalizedStreamChunk, StreamPartState, PendingDelta, upsert_part_state, delta_chunks,
  snapshot_chunks, tool_chunks,
}
use opencode_a2a_serve.Stream.Emission.{
  Effect, remember_request, discard_request, emit_chunks, emit_interrupt_status,
  emit_progress_status,
}
use opencode_a2a_serve.Stream.SessionEvents.{
  StreamState, Setting, Step, also, on_output, progress_step, error_step, signal_step, usage_step,
  asked_step, resolved_step, session_step,
}

-- `role in {"user", "system"}`
abbrev pub is_input_role : Option String → Bool
is_input_role role = role == some "user" || role == some "system"

abbrev pub or_nil {ℓ} : {A : Type ℓ} → Option (List A) → List A
or_nil none = []
or_nil (some xs) = xs

-- The chunks of `pending`, which are buffered deltas of the text
unfoldable pub buffered_chunks :
    List PendingDelta → StreamPartState → List NormalizedStreamChunk × StreamPartState
buffered_chunks [] state = ([], state)
buffered_chunks (buffered ∷ pending) state =
    if buffered.field_name == "text"
    then (let (chunks, state') =
          delta_chunks buffered.delta buffered.message_id "delta_event_buffered" state in
        let (later, state'') = buffered_chunks pending state' in (chunks ++ later, state''))
    else buffered_chunks pending state

module _ (k : Setting) where
  -- Chunks of a part, with its new state, are emitted.
  unfoldable pub emit_part : String → List NormalizedStreamChunk × StreamPartState → Step
  emit_part part_id (chunks, state) st =
      on_output (emit_chunks k.dumps_ascii k.allow_structured_output chunks)
        (record st { part_states = insert part_id state st.part_states })

  unfoldable pub delta_step : String → Option String → String → Step
  unfolding emit_part
  delta_step part_id message_id delta st = elim (lookup part_id st.part_states) [
    | none ↦ (
      [],
      record st {
        pending_deltas =
            insert part_id
              (or_nil (lookup part_id st.pending_deltas)
                ++ record { field_name = "text"; delta = delta; message_id = message_id } ∷ [])
              st.pending_deltas;
      },
    )
    | some state ↦
        if is_input_role state.role
        then ([], st)
        else emit_part part_id (delta_chunks delta message_id "delta_event" state) st
  ]

  unfoldable pub text_delta_step : String → Option String → Value → Step
  unfolding delta_step
  text_delta_step part_id message_id (str delta) st =
      if is_truthy delta then delta_step part_id message_id delta st else ([], st)
  text_delta_step part_id message_id _ st = ([], st)

  -- The branch of `message.part.delta`
  unfoldable pub delta_event_step : String → Option String → Fields → Step
  unfolding text_delta_step
  delta_event_step part_id message_id props st =
      if as_str (get "field" props) == some "text"
      then text_delta_step part_id message_id (get "delta" props) st
      else ([], st)

  -- The chunks of the event itself, after the buffered ones
  unfoldable pub own_chunks :
      Fields
      → Fields
      → Option String
      → StreamPartState
      → List NormalizedStreamChunk × StreamPartState
  own_chunks part props message_id state =
      let delta : String = elim (get "delta" props) [ str d ↦ d | _ ↦ "" ] in
      if is_truthy delta
      then delta_chunks delta message_id "delta" state
      else if is_tool_call state.block_type
      then tool_chunks k.dumps part message_id state
      else elim (extract_stream_snapshot_text part) [
        | none ↦ ([], state)
        | some snapshot ↦ snapshot_chunks snapshot message_id state
      ]

  unfoldable pub all_chunks :
      List PendingDelta
      → Fields
      → Fields
      → Option String
      → StreamPartState
      → List NormalizedStreamChunk × StreamPartState
  unfolding own_chunks
  all_chunks pending part props message_id state =
      let (chunks, state') = buffered_chunks pending state in
      let (own, state'') = own_chunks part props message_id state' in (chunks ++ own, state'')

  -- The branch of `message.part.updated`
  unfoldable pub part_step : String → Option String → Fields → Fields → Step
  unfolding emit_part all_chunks
  part_step part_id message_id part props st =
      let (upserted, part_states) =
        upsert_part_state part_id part (extract_stream_role part props) message_id st.part_states in
      let pending = or_nil (lookup part_id st.pending_deltas) in
      let st' = record st {
        part_states = part_states;
        pending_deltas = erase part_id st.pending_deltas;
      } in
      elim upserted [
        | none ↦ ([], st')
        | some state ↦
            if is_input_role state.role
            then ([], st')
            else emit_part part_id (all_chunks pending part props message_id state) st'
      ]

  unfoldable pub part_event_step : String → Option String → Option String → Fields → Fields → Step
  part_event_step event_type none message_id part props st = ([], st)
  part_event_step event_type (some part_id) message_id part props st =
      if event_type == "message.part.delta"
      then delta_event_step part_id message_id props st
      else part_step part_id message_id part props st

  -- The rest of the loop's body, for the events on parts of messages
  unfoldable pub message_step : String → Fields → Step
  unfolding part_event_step
  message_step event_type props st =
      let part = dict_or_empty (get "part" props) in
      if event_type == "message.part.updated" || event_type == "message.part.delta"
      then (if extract_stream_session_id part props == some k.session_id
          then part_event_step event_type (extract_stream_part_id part props)
              (extract_stream_message_id part props) part props st
          else ([], st))
      else ([], st)

  unfoldable pub own_session_step : Fields → String → Fields → Step
  own_session_step event event_type props st =
      if extract_event_session_id props == some k.session_id
      then session_step k event event_type props st
      else ([], st)

  unfoldable pub typed_event : Value → Value → Fields → Step
  unfolding own_session_step
  typed_event (str event_type) (dict props) event =
      also (own_session_step event event_type props) (message_step event_type props)
  typed_event _ _ event = λ st. ([], st)

  -- The body of the loop over the events
  unfoldable pub handle_event : Fields → Step
  unfolding typed_event
  handle_event event = typed_event (get "type" event) (get "properties" event) event

  -- The loop over the events of one connection
  unfoldable pub handle_events : List Fields → Step
  handle_events [] st = ([], st)
  handle_events (event ∷ events) st =
      if st.stop
      then ([], st)
      else let (effects, st') = handle_event event st in
        let (later, st'') = handle_events events st' in (effects ++ later, st'')
