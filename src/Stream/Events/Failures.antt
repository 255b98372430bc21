-- ===== src/Stream/Events/Failures.antt =====
-- Errors and the end of a session in events: src/opencode_a2a/execution/stream_events.py.
use opencode_a2a_serve.Base.Names.{String, Option, none, some, [], ◌∷◌}
use opencode_a2a_serve.Base.Equality.{◌==◌, string_eq, option_eq, if◌then◌else◌}
use opencode_a2a_serve.Base.Value.{Value, dict, bool, int, Fields, end, get, as_str}
use opencode_a2a_serve.Stream.Errors.{
  Status, number, truth, failed, completed, StreamTerminalSignal, UpstreamInBandError,
  format_inband_upstream_error, format_stream_terminal_error,
}
use opencode_a2a_serve.Stream.Events.{extract_first_nonempty_string, or_else}

-- `isinstance(value, int)`
abbrev pub as_status : Value → Option Status
as_status (int n) = some (number n)
as_status (bool b) = some (truth b)
as_status _ = none

-- `value if isinstance(value, Mapping) else {}`
abbrev pub dict_or_empty : Value → Fields
dict_or_empty (dict d) = d
dict_or_empty _ = end

abbrev error_name : Fields → Option String
error_name error = extract_first_nonempty_string error ("name" ∷ [])

abbrev error_detail : Fields → Option String
error_detail error =
    or_else (extract_first_nonempty_string (dict_or_empty (get "data" error)) ("message" ∷ []))
      (extract_first_nonempty_string error ("message" ∷ []))

abbrev error_status : Fields → Option Status
error_status error = as_status (get "statusCode" (dict_or_empty (get "data" error)))

abbrev plain_failure : StreamTerminalSignal
plain_failure = record {
  state = failed;
  error_type = some "UPSTREAM_EXECUTION_ERROR";
  message = some "OpenCode execution failed (session.error).";
  upstream_status = none;
}

-- The signal of a `session.error` event
unfoldable pub error_signal : Value → StreamTerminalSignal
error_signal (dict props) = elim (get "error" props) [
  | dict error ↦
      format_stream_terminal_error (error_detail error) (error_status error) (error_name error)
  | _ ↦ plain_failure
]
error_signal _ = plain_failure

-- `_extract_stream_terminal_signal`
unfoldable pub extract_stream_terminal_signal : Fields → Option StreamTerminalSignal
unfolding error_signal
extract_stream_terminal_signal event =
    let event_type = as_str (get "type" event) in
    if event_type == some "session.idle"
    then some
        (record { state = completed; error_type = none; message = none; upstream_status = none })
    else if event_type == some "session.error"
    then some (error_signal (get "properties" event))
    else none

-- `_extract_upstream_error_from_payload`
unfoldable pub extract_upstream_error_from_payload : Value → String → Option UpstreamInBandError
extract_upstream_error_from_payload (dict payload) source = elim (get "error" payload) [
  | dict error ↦ some (
      format_inband_upstream_error source (error_detail error) (error_status error)
        (error_name error))
  | _ ↦ none
]
extract_upstream_error_from_payload _ source = none

-- `_extract_upstream_error_from_response`
unfoldable pub extract_upstream_error_from_response : Value → Option UpstreamInBandError
extract_upstream_error_from_response (dict response_raw) =
    extract_upstream_error_from_payload (get "info" response_raw) "response.info.error"
extract_upstream_error_from_response _ = none

-- `_extract_upstream_error_from_event`
unfoldable pub extract_upstream_error_from_event : Fields → Option UpstreamInBandError
extract_upstream_error_from_event event = elim (get "properties" event) [
  | dict props ↦
      if as_str (get "type" event) == some "session.error"
      then extract_upstream_error_from_payload (dict props) "session.error"
      else if as_str (get "type" event) == some "message.updated"
      then extract_upstream_error_from_payload (get "info" props) "message.updated"
      else none
  | _ ↦ none
]
