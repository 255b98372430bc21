-- ===== src/Stream/Events.antt =====
-- What src/opencode_a2a/execution/stream_events.py reads from an event of the upstream, which is a
-- JSON object. `part` and `props` are its parts as dicts.
pub mod Failures
pub mod Interrupts
pub mod Progress
pub mod Usage
use opencode_a2a_serve.Base.Names.{
  ℕ, String, Bool, true, false, ◌||◌, Option, none, some, List, [], ◌∷◌,
}
use opencode_a2a_serve.Base.Equality.{◌==◌, string_eq, nat_eq, option_eq, if◌then◌else◌}
use opencode_a2a_serve.Base.Int.{pos}
use opencode_a2a_serve.Base.Text.{strip, lower, is_truthy, or_none}
use opencode_a2a_serve.Base.Value.{
  Value, null, bool, int, float, str, array, dict, nil, Fields, end, field, get, put, nonempty_text,
  as_str, is_nonempty, is_none,
}
use opencode_a2a_serve.Stream.Output.{BlockType, text, reasoning, tool_call}

-- `bool(value)`
abbrev pub is_true : Value → Bool
is_true null = false
is_true (bool b) = b
is_true (int n) = elim n [ pos k ↦ if k == 0 then false else true | _ ↦ true ]
is_true (float m e) = elim m [ pos k ↦ if k == 0 then false else true | _ ↦ true ]
is_true (str s) = is_truthy s
is_true (array nil) = false
is_true (array _) = true
is_true (dict d) = is_nonempty d

-- `_normalize_role`
unfoldable pub normalize_role : Value → Option String
normalize_role (str role) =
    let value = lower (strip role) in
    if value == "assistant"
    then some "agent"
    else if value == "user"
    then some "user"
    else if value == "system"
    then some "system"
    else none
normalize_role _ = none

-- `_extract_stream_role`
unfoldable pub extract_stream_role : Fields → Fields → Option String
extract_stream_role part props =
    normalize_role (if is_true (get "role" part) then get "role" part else get "role" props)

-- `_extract_first_nonempty_string`
unfoldable pub extract_first_nonempty_string : Fields → List String → Option String
extract_first_nonempty_string source [] = none
extract_first_nonempty_string source (key ∷ keys) =
    let rest = extract_first_nonempty_string source keys in
    elim (nonempty_text (get key source)) [ some s ↦ some s | none ↦ rest ]

-- `a or b` for texts that are not empty when they are given
abbrev pub or_else : Option String → Option String → Option String
or_else (some s) other = some s
or_else none other = other

-- `_extract_stream_session_id`
unfoldable pub extract_stream_session_id : Fields → Fields → Option String
extract_stream_session_id part props =
    or_else (extract_first_nonempty_string part ("sessionID" ∷ []))
      (extract_first_nonempty_string props ("sessionID" ∷ []))

-- The session id under a key that may hold a dict
abbrev pub session_id_under : String → Fields → Option String
session_id_under key props = elim (get key props) [
  | dict d ↦ extract_first_nonempty_string d ("sessionID" ∷ [])
  | _ ↦ none
]

-- `_extract_event_session_id`, from the `properties` of the event
unfoldable pub extract_event_session_id : Fields → Option String
extract_event_session_id props =
    or_else (extract_first_nonempty_string props ("sessionID" ∷ []))
      (or_else (session_id_under "info" props) (session_id_under "part" props))

-- `_extract_stream_message_id`
unfoldable pub extract_stream_message_id : Fields → Fields → Option String
extract_stream_message_id part props =
    or_else (extract_first_nonempty_string part ("messageID" ∷ []))
      (extract_first_nonempty_string props ("messageID" ∷ []))

-- `_extract_stream_part_id`
unfoldable pub extract_stream_part_id : Fields → Fields → Option String
extract_stream_part_id part props =
    or_else (extract_first_nonempty_string part ("id" ∷ []))
      (extract_first_nonempty_string props ("partID" ∷ []))

-- `_extract_stream_part_type`
unfoldable pub extract_stream_part_type : Fields → Option String
extract_stream_part_type part = elim (get "type" part) [
  | str value ↦ or_none (lower (strip value))
  | _ ↦ none
]

-- `_extract_stream_snapshot_text`
unfoldable pub extract_stream_snapshot_text : Fields → Option String
extract_stream_snapshot_text part =
    let part_type = extract_stream_part_type part in
    if part_type == some "text" || part_type == some "reasoning"
    then extract_first_nonempty_string part ("text" ∷ [])
    else none

-- `_map_part_type_to_block_type`
unfoldable pub map_part_type_to_block_type : Option String → Option BlockType
map_part_type_to_block_type part_type =
    if part_type == some "text"
    then some text
    else if part_type == some "reasoning"
    then some reasoning
    else if part_type == some "tool"
    then some tool_call
    else none

-- `_resolve_stream_block_type`
unfoldable pub resolve_stream_block_type : Fields → Option BlockType
resolve_stream_block_type part = map_part_type_to_block_type (extract_stream_part_type part)

-- `payload[key] = text`, if there is one
abbrev pub put_text : String → Option String → Fields → Fields
put_text key none d = d
put_text key (some s) d = put key (str s) d

-- `for key in keys: value = state.get(key); if value is not None: payload[key] = value`
copy_values : List String → Fields → Fields → Fields
copy_values [] state payload = payload
copy_values (key ∷ keys) state payload =
    copy_values keys state
      (if is_none (get key state) then payload else put key (get key state) payload)

-- What `_extract_tool_part_payload` takes from the state of a tool
copy_state : Value → Fields → Fields
unfolding copy_values
copy_state (dict state) payload =
    copy_values ("title" ∷ "subtitle" ∷ "input" ∷ "output" ∷ "error" ∷ []) state
      (put_text "status" (nonempty_text (get "status" state)) payload)
copy_state _ payload = payload

-- `_extract_tool_part_payload`
unfoldable pub extract_tool_part_payload : Fields → Option Fields
unfolding copy_state
extract_tool_part_payload part =
    let named =
      put_text "tool" (nonempty_text (get "tool" part))
        (put_text "call_id" (nonempty_text (get "callID" part)) end) in
    let payload = copy_state (get "state" part) named in
    if is_nonempty payload then some payload else none
