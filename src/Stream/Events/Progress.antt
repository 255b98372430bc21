-- ===== src/Stream/Events/Progress.antt =====
-- Progress of a step in events: src/opencode_a2a/execution/stream_events.py.
use opencode_a2a_serve.Base.Names.{String, ◌<>◌, ◌||◌, Option, none, some}
use opencode_a2a_serve.Base.Equality.{◌==◌, string_eq, option_eq, if◌then◌else◌}
use opencode_a2a_serve.Base.Value.{Value, str, dict, Fields, end, field, get, nonempty_text}
use opencode_a2a_serve.Stream.Events.{
  extract_stream_part_type, extract_stream_part_id, extract_stream_message_id, put_text,
}

put_state : Value → Fields → Fields
put_state (dict state) progress = put_text "subtitle" (nonempty_text (get "subtitle" state)) (
    put_text "title" (nonempty_text (get "title" state))
      (put_text "status" (nonempty_text (get "status" state)) progress))
put_state _ progress = progress

progress_of : String → Fields → Fields → Option Fields
unfolding put_state
progress_of part_type part props =
    if part_type == "step-start" || part_type == "step-finish" || part_type == "snapshot"
    then some (
        put_state (get "state" part) (
          put_text "reason" (nonempty_text (get "reason" part)) (
            put_text "part_id" (extract_stream_part_id part props)
              (field "type" (str part_type) end))))
    else none

-- `_extract_progress_metadata`
unfoldable pub extract_progress_metadata : Fields → Fields → Option Fields
unfolding progress_of
extract_progress_metadata part props = elim (extract_stream_part_type part) [
  | none ↦ none
  | some part_type ↦ progress_of part_type part props
]

abbrev type_or_unknown : Option String → String
type_or_unknown none = "unknown"
type_or_unknown (some t) = t

-- `_build_progress_identity`
unfoldable pub build_progress_identity : Fields → Fields → String
build_progress_identity part props =
    let part_type = type_or_unknown (extract_stream_part_type part) in
    elim (extract_stream_part_id part props) [
      | some part_id ↦ part_type <> ":" <> part_id
      | none ↦ elim (extract_stream_message_id part props) [
        | some message_id ↦ part_type <> ":" <> message_id
        | none ↦ part_type
      ]
    ]
