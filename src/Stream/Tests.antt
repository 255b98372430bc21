-- ===== src/Stream/Tests.antt =====
-- The stream of src/opencode_a2a/execution/stream_runtime.py on a short session.
use opencode_a2a_serve.Base.Names.{
  String, ◌<>◌, true, false, Option, none, some, List, [], ◌∷◌, ◌≡◌, ◌≢◌, refl, ap,
}
use opencode_a2a_serve.Base.Equality.{◌==◌, string_eq, nat_eq, option_eq}
use opencode_a2a_serve.Base.Int.{pos}
use opencode_a2a_serve.Base.Text.{strip, lower}
use opencode_a2a_serve.Base.Dict.{lookup}
use opencode_a2a_serve.Base.Value.{str, dict, Fields, end, field, get}
use opencode_a2a_serve.Stream.Errors.{
  completed, number, StreamTerminalSignal, format_stream_terminal_error,
  format_inband_upstream_error,
}
use opencode_a2a_serve.Stream.Errors.Agreement.{format_stream_terminal_error-eq-inband}
use opencode_a2a_serve.Stream.Output.{text, StreamOutputState}
use opencode_a2a_serve.Stream.Events.{
  extract_event_session_id, extract_stream_session_id, extract_stream_role, normalize_role,
  extract_first_nonempty_string, resolve_stream_block_type, map_part_type_to_block_type,
  extract_stream_part_type,
}
use opencode_a2a_serve.Stream.Events.Failures.{extract_stream_terminal_signal}
use opencode_a2a_serve.Stream.Chunks.{StreamPartState, snapshot_chunks, after_prefix, delta_chunks}
use opencode_a2a_serve.Stream.Chunks.Laws.{
  contents, PartText, more, all, send_texts, contents-send_texts,
}
use opencode_a2a_serve.Stream.Emission.Sequences.{mark, IsOrdered}
use opencode_a2a_serve.Stream.SessionEvents.{StreamState, Setting}
use opencode_a2a_serve.Stream.Runtime.{part_step, delta_step, handle_event, handle_events}
use opencode_a2a_serve.Stream.Connections.{Connection, consume}
use opencode_a2a_serve.Stream.Connections.Laws.{fives, consume-IsOrdered, consume-delays}
use opencode_a2a_serve.Base.Lists.{length, take}
use opencode_a2a_serve.Stream.Runtime.Foreign.{handle_event_foreign, input_part_is_silent}
use opencode_a2a_serve.Stream.Runtime.Signal.{ending, first_signal_wins}

abbrev output : StreamOutputState
output = record {
  user_text = "hi";
  stable_message_id = "m0";
  event_id_namespace = "t";
  content_buffers = [];
  progress_buffers = [];
  token_usage = none;
  upstream_error = none;
  pending_interrupt_request_ids = "r1" ∷ [];
  saw_any_chunk = false;
  emitted_stream_chunk = false;
  sequence = 0;
}

abbrev start : StreamState
start = record {
  part_states = [];
  pending_deltas = [];
  output = output;
  terminal_signal = none;
  stop = false;
}

abbrev setting : Setting
setting = record {
  session_id = "s";
  allow_structured_output = true;
  dumps = λ d. "{}";
  dumps_ascii = λ d. "{}";
  coerce_number = λ v. none;
  add = λ v w. v;
}

-- A text part of the session "s", written by `role`
abbrev part_of : String → String → Fields
part_of role content = field "sessionID" (str "s") (
    field "id" (str "p")
      (field "type" (str "text") (field "role" (str role) (field "text" (str content) end))))

abbrev event_of : String → Fields → Fields
event_of event_type props = field "type" (str event_type) (field "properties" (dict props) end)

abbrev part_event : Fields
part_event = event_of "message.part.updated" (field "part" (dict (part_of "assistant" "hello")) end)

abbrev idle_props : Fields
idle_props = field "sessionID" (str "s") end

abbrev idle_event : Fields
idle_event = event_of "session.idle" idle_props

abbrev connections : List Connection
connections =
    record { events = part_event ∷ []; breaks = true }
    ∷ record { events = idle_event ∷ []; breaks = false }
    ∷ []

consume-IsOrdered_example :
    IsOrdered
      (mark output)
      (consume setting connections start).effects
      (mark (consume setting connections start).state.output)
consume-IsOrdered_example = consume-IsOrdered setting connections start

consume-delays_example :
    (consume setting connections start).delays
    ≡ take
        (length (consume setting connections start).delays)
        (1 ∷ 2 ∷ 4 ∷ 8 ∷ fives (length (consume setting connections start).delays))
consume-delays_example = consume-delays setting connections start

abbrev idle_signal : StreamTerminalSignal
idle_signal = record {
  state = completed;
  error_type = none;
  message = none;
  upstream_status = none;
}

first_signal_wins_example :
    (ending (handle_events setting (idle_event ∷ part_event ∷ []) start).1
      ≡ (some idle_signal, true))
    × (handle_events setting (idle_event ∷ part_event ∷ []) start
        ≡ handle_events setting (idle_event ∷ []) start)
unfolding get string_eq option_eq extract_event_session_id extract_first_nonempty_string strip
    extract_stream_terminal_signal
first_signal_wins_example =
    first_signal_wins setting idle_event (part_event ∷ []) "session.idle" idle_props idle_signal
      start refl refl refl refl refl refl

abbrev foreign_props : Fields
foreign_props = field "sessionID" (str "other") end

foreign_id : extract_event_session_id foreign_props ≡ some "other"
unfolding get string_eq extract_event_session_id extract_first_nonempty_string strip
foreign_id = refl

foreign_part_id : extract_stream_session_id end foreign_props ≡ some "other"
unfolding get string_eq extract_stream_session_id extract_first_nonempty_string strip
foreign_part_id = refl

is_other : ◌≢◌ {A = Option String} (some "other") (some "s")
unfolding string_eq option_eq
is_other same = let q : false ≡ true = ap (λ (o : Option String). o == some "s") same in absurd (cc)

handle_event_foreign_example :
    handle_event setting (event_of "message.part.delta" foreign_props) start ≡ ([], start)
unfolding get string_eq
handle_event_foreign_example =
    handle_event_foreign setting (event_of "message.part.delta" foreign_props) "message.part.delta"
      foreign_props start refl refl (rw foreign_id is_other) (rw foreign_part_id is_other)

abbrev user_part : Fields
user_part = part_of "user" "hi"

user_part_type : resolve_stream_block_type user_part ≡ some text
unfolding get string_eq option_eq resolve_stream_block_type map_part_type_to_block_type
    extract_stream_part_type strip lower
user_part_type = refl

is_known : resolve_stream_block_type user_part ≢ none
is_known = rw user_part_type (λ e. cc)

input_part_is_silent_example :
    let out = part_step setting "p" none user_part (field "part" (dict user_part) end) start in
    (out.0 ≡ [])
    × (out.1.output ≡ output)
    × (lookup "p" out.1.pending_deltas ≡ none)
    × (delta_step setting "p" none "more" out.1 ≡ ([], out.1))
unfolding get string_eq option_eq extract_stream_role normalize_role strip lower
input_part_is_silent_example =
    input_part_is_silent setting "p" "user" "more" none none user_part
      (field "part" (dict user_part) end) start refl refl is_known

abbrev part_state : StreamPartState
part_state = record {
  block_type = text;
  message_id = none;
  role = some "agent";
  buffer = "he";
  saw_delta = false;
}

abbrev texts : List (PartText × Option String)
texts = (more "l", none) ∷ (all "hello", some "m1") ∷ []

contents-send_texts_example :
    "he" <> contents (send_texts texts part_state).0 ≡ (send_texts texts part_state).1.buffer
unfolding string_eq snapshot_chunks after_prefix delta_chunks
contents-send_texts_example = contents-send_texts texts part_state (("lo", refl), tt)

format_stream_terminal_error-eq-inband_example :
    let signal = format_stream_terminal_error (some "no") (some (number (pos 503))) none in
    let error =
      format_inband_upstream_error "session.error" (some "no") (some (number (pos 503))) none in
    (signal.state ≡ error.state)
    × (signal.error_type ≡ some error.error_type)
    × (signal.message ≡ some error.message)
    × (signal.upstream_status ≡ error.upstream_status)
format_stream_terminal_error-eq-inband_example =
    format_stream_terminal_error-eq-inband (some "no") none (some (number (pos 503)))
