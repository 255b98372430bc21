-- ===== src/Execution/Replies.antt =====
-- What an execution puts into the event queue: `_handle_response` and its parts, and the handlers of
-- exceptions, in src/opencode_a2a/execution/coordinator.py, `_emit_error` of
-- src/opencode_a2a/execution/executor.py, and `_format_upstream_error` of
-- src/opencode_a2a/execution/upstream_error_translator.py. The ids of task, context and message are those of
-- the execution or are drawn at random, and are left out.
pub mod Final
use opencode_a2a_serve.Base.Names.{
  ℕ, String, ◌<>◌, Bool, true, false, not, Option, none, some, List, [], ◌∷◌, ◌++◌, ◌⊎◌, inl, inr,
}
use opencode_a2a_serve.Base.Equality.{◌==◌, string_eq, if◌then◌else◌}
use opencode_a2a_serve.Base.Int.{ℤ}
use opencode_a2a_serve.Base.Text.{is_truthy, is_given, strip}
use opencode_a2a_serve.Base.Value.{
  Value, Fields, null, bool, int, str, dict, end, field, is_nonempty,
}
use opencode_a2a_serve.Stream.Errors.{
  TaskState, completed, failed, working, Status, number, truth, show_status, with_detail,
  resolve_upstream_http_error_profile, StreamTerminalSignal, UpstreamInBandError,
}
use opencode_a2a_serve.Stream.Events.Failures.{extract_upstream_error_from_response}
use opencode_a2a_serve.Stream.Events.Usage.{extract_token_usage}
use opencode_a2a_serve.Stream.Output.{
  text, StreamOutputState, should_emit_final_snapshot, next_sequence, resolve_message_id,
  build_event_id, build_stream_artifact_metadata, build_output_metadata, merge_token_usage,
}

-- `isinstance(value, str) and value.strip()`
given_text : Option String → Option String
given_text none = none
given_text (some s) = if is_truthy (strip s) then some (strip s) else none

-- `if value: payload[key] = value`
given_field : String → Option String → Fields → Fields
given_field key none rest = rest
given_field key (some s) rest = if is_truthy s then field key (str s) rest else rest

-- `build_session_binding_context_id`
unfoldable pub build_session_binding_context_id :
    String → Option String → Option String → Bool → String
unfolding given_text
build_session_binding_context_id context_id directory workspace_id use_directory_binding =
    elim (given_text workspace_id) [
      | some workspace ↦ context_id <> "::workspace:" <> workspace
      | none ↦
          if use_directory_binding
          then (elim (given_text directory) [
            | some d ↦ context_id <> "::directory:" <> d
            | none ↦ context_id
          ])
          else context_id
    ]

-- The events of one execution in its queue
pub data QueueEvent : Type 0 where
  -- `TaskStatusUpdateEvent` with `state=working` and `final=False`
  working_status : QueueEvent
  -- `TaskArtifactUpdateEvent` of the last chunk: the artifact, its text, `append`, and its metadata
  last_artifact : String → String → Bool → Option Fields → QueueEvent
  -- `TaskStatusUpdateEvent` with `final=True`
  final_status : TaskState → Option Fields → QueueEvent
  -- a `Task` in its state, with the text of its message and its metadata
  task_snapshot : TaskState → String → Option Fields → QueueEvent

status_value : Status → Value
status_value (number n) = int n
status_value (truth b) = bool b

error_payload : Option String → Option Status → Fields
error_payload error_type none = given_field "type" error_type end
error_payload error_type (some status) =
    given_field "type" error_type (field "upstream_status" (status_value status) end)

-- The metadata of `_emit_error`
error_metadata : Option String → Option Status → Option Fields
unfolding error_payload status_value given_field
error_metadata error_type upstream_status =
    let payload = error_payload error_type upstream_status in
    if is_nonempty payload
    then some (field "opencode" (dict (field "error" (dict payload) end)) end)
    else none

-- `_emit_error`
unfoldable pub emit_error :
    String → TaskState → Option String → Option Status → Bool → List QueueEvent
unfolding error_metadata
emit_error message state error_type upstream_status streaming_request =
    if streaming_request
    then last_artifact "error" message false none
      ∷ final_status state (error_metadata error_type upstream_status)
      ∷ []
    else task_snapshot state message (error_metadata error_type upstream_status) ∷ []

-- The exceptions that `run` tells apart. The detail of a failed request is read from its body.
pub data ExecutionFailure : Type 0 where
  http_status : ℤ → Option String → ExecutionFailure
  timeout contract_error concurrency_limit other_error : String → ExecutionFailure

-- What the handlers of exceptions in `run` put into the queue
unfoldable pub exception_events : ExecutionFailure → Bool → List QueueEvent
exception_events (http_status status detail) streaming =
    let p = resolve_upstream_http_error_profile (number status) in
    emit_error
      (with_detail (p.default_message <> " (send_message, status=" <> show_status (number status))
        detail)
      p.state (some p.error_type) (some (number status)) streaming
exception_events (timeout message) streaming =
    emit_error ("OpenCode request timed out: " <> message) failed (some "UPSTREAM_TIMEOUT") none
      streaming
exception_events (contract_error message) streaming =
    emit_error ("OpenCode payload mismatch: " <> message) failed (some "UPSTREAM_PAYLOAD_ERROR")
      none streaming
exception_events (concurrency_limit message) streaming =
    emit_error message failed (some "UPSTREAM_BACKPRESSURE") none streaming
exception_events (other_error message) streaming =
    emit_error ("OpenCode error: " <> message) failed none none streaming

-- `OpencodeMessage`
pub record OpencodeMessage : Type 0 where
  pub text : String
  pub session_id : String
  pub message_id : Option String
  pub raw : Fields

in_band_events : UpstreamInBandError → Bool → List QueueEvent
in_band_events e streaming =
    emit_error e.message e.state (some e.error_type) e.upstream_status streaming

is_completed : TaskState → Bool
is_completed completed = true
is_completed _ = false

-- The snapshot at the end, if what was streamed differs from it
snapshot_events : String → String → Bool × StreamOutputState → List QueueEvent
snapshot_events response_text message_id (false, s) = []
snapshot_events response_text message_id (true, s) =
    let (sequence, s') = next_sequence s in
    last_artifact "stream" response_text s'.emitted_stream_chunk (
      some (
        build_stream_artifact_metadata text "final_snapshot" (some message_id) none
          (some (build_event_id sequence s')) (some sequence)))
    ∷ []

status_metadata : String → String → Option Fields → StreamOutputState → Option Fields
status_metadata session_id message_id usage s =
    build_output_metadata (some session_id) none usage
      (some (
        field "message_id" (str message_id) (
          field "event_id" (str (s.event_id_namespace <> ":status"))
            (field "source" (str "status") end))))
      none none none

-- What `_await_stream_terminal_signal` gives: the signal, or none if the stream ended before one came
abbrev pub Awaited : Type 0
Awaited = Option StreamTerminalSignal

message_or : Option String → String → String
message_or none d = d
message_or (some m) d = if is_truthy m then m else d

-- The events after a stream that ended well, by what it kept as `upstream_error`
completed_events :
    String
    → String
    → String
    → Option Fields
    → StreamOutputState
    → Option UpstreamInBandError
    → List QueueEvent
unfolding snapshot_events status_metadata in_band_events
completed_events session_id response_text message_id usage s (some e) = in_band_events e true
completed_events session_id response_text message_id usage s none =
    snapshot_events response_text message_id (should_emit_final_snapshot response_text s)
    ++ final_status completed (status_metadata session_id message_id usage s) ∷ []

-- `_handle_streaming_response`, after the await: the events, or the exception
unfoldable pub handle_streaming_response :
    String
    → String
    → String
    → Option Fields
    → StreamOutputState
    → Awaited
    → ExecutionFailure ⊎ List QueueEvent
unfolding completed_events is_completed message_or
handle_streaming_response session_id response_text message_id usage s none = inl (
    contract_error (
      "OpenCode event stream ended before terminal signal (session_id=" <> session_id
      <> ", expected session.idle or session.error)"))
handle_streaming_response session_id response_text message_id usage s (some signal) =
    if is_completed signal.state
    then inr (completed_events session_id response_text message_id usage s s.upstream_error)
    else inr (
        emit_error (message_or signal.message "OpenCode execution failed.") signal.state
          signal.error_type signal.upstream_status true)

-- `_handle_non_streaming_response`
unfoldable pub handle_non_streaming_response : String → String → Option Fields → List QueueEvent
handle_non_streaming_response session_id response_text usage =
    let shown =
      if is_truthy response_text
      then response_text
      else "(No text content returned by OpenCode.)" in
    task_snapshot completed shown
      (build_output_metadata (some session_id) none usage none none none none)
    ∷ []

-- The conversion of numbers in usages is an argument, as it computes with floats.
module _ (coerce_number : Value → Option Value) (add : Value → Value → Value) where
  after_error_check :
      String
      → Bool
      → StreamOutputState
      → OpencodeMessage
      → Awaited
      → Option UpstreamInBandError
      → ExecutionFailure ⊎ List QueueEvent
  unfolding in_band_events
  after_error_check session_id streaming s response awaited (some e) =
      inr (in_band_events e streaming)
  after_error_check session_id false s response awaited none = inr (
      handle_non_streaming_response response.session_id response.text
        (merge_token_usage (extract_token_usage coerce_number add response.raw) s.token_usage))
  after_error_check session_id true s response awaited none =
      handle_streaming_response session_id response.text (resolve_message_id response.message_id s)
        (merge_token_usage (extract_token_usage coerce_number add response.raw) s.token_usage) s
        awaited

  -- `_handle_response` of an execution on the session `session_id`
  unfoldable pub handle_response :
      String
      → Bool
      → StreamOutputState
      → OpencodeMessage
      → Awaited
      → ExecutionFailure ⊎ List QueueEvent
  unfolding after_error_check
  handle_response session_id streaming s response awaited =
      after_error_check session_id streaming s response awaited
        (extract_upstream_error_from_response (dict response.raw))
