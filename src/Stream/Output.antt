-- ===== src/Stream/Output.antt =====
-- `_StreamOutputState` of src/opencode_a2a/execution/stream_state.py, and its metadata.
pub mod Laws
use opencode_a2a_serve.Base.Names.{
  ℕ, suc, ◌+◌, String, ◌<>◌, Bool, true, false, ◌&&◌, not, Option, none, some, List, [], ◌∷◌, refl,
  map,
}
use opencode_a2a_serve.Base.Equality.{Eq, ◌==◌, string_eq, option_eq, contains, if◌then◌else◌}
use opencode_a2a_serve.Base.Text.{strip, is_truthy, is_given, show}
use opencode_a2a_serve.Base.Int.{pos}
use opencode_a2a_serve.Base.Dict.{Dict, lookup, insert}
use opencode_a2a_serve.Base.Value.{
  Value, null, dict, str, int, Fields, end, field, get, put, merge, is_nonempty, is_none,
}
use opencode_a2a_serve.Stream.Errors.{UpstreamInBandError}

pub data BlockType : Type 0 where
  text reasoning tool_call : BlockType

-- `block_type.value`
abbrev pub block_value : BlockType → String
block_value text = "text"
block_value reasoning = "reasoning"
block_value tool_call = "tool_call"

abbrev pub is_text : BlockType → Bool
is_text text = true
is_text _ = false

abbrev pub is_tool_call : BlockType → Bool
is_tool_call tool_call = true
is_tool_call _ = false

-- `content_buffers` is by `block_type.value`, which tells the members apart, and
-- `pending_interrupt_request_ids` a list without repetitions for a set.
pub record StreamOutputState : Type 0 where
  pub user_text : String
  pub stable_message_id : String
  pub event_id_namespace : String
  pub content_buffers : Dict String String
  pub progress_buffers : Dict String String
  pub token_usage : Option Fields
  pub upstream_error : Option UpstreamInBandError
  pub pending_interrupt_request_ids : List String
  pub saw_any_chunk : Bool
  pub emitted_stream_chunk : Bool
  pub sequence : ℕ

-- `dict.get(key, "")`
abbrev pub or_empty : Option String → String
or_empty none = ""
or_empty (some s) = s

-- `should_drop_initial_user_echo`
unfoldable pub should_drop_initial_user_echo :
    String → BlockType → Option String → StreamOutputState → Bool
should_drop_initial_user_echo chunk_text block_type (some role) s = false
should_drop_initial_user_echo chunk_text block_type none s =
    if not (is_text block_type)
    then false
    else if s.saw_any_chunk
    then false
    else is_truthy (strip s.user_text) && strip chunk_text == strip s.user_text

-- `register_chunk`
unfoldable pub register_chunk :
    BlockType → String → Bool → Bool → StreamOutputState → (Bool × Bool) × StreamOutputState
register_chunk block_type content_key append accumulate_content s =
    let previous = or_empty (lookup (block_value block_type) s.content_buffers) in
    let next_value =
      if append && accumulate_content then previous <> content_key else content_key in
    if next_value == previous then ((false, false), s) else (
      (true, s.emitted_stream_chunk),
      record s {
        content_buffers = insert (block_value block_type) next_value s.content_buffers;
        saw_any_chunk = true;
        emitted_stream_chunk = true;
      },
    )

-- `register_progress`
unfoldable pub register_progress : String → String → StreamOutputState → Bool × StreamOutputState
register_progress identity content_key s =
    if lookup identity s.progress_buffers == some content_key
    then (false, s)
    else (true, record s { progress_buffers = insert identity content_key s.progress_buffers })

-- `should_emit_final_snapshot`
unfoldable pub should_emit_final_snapshot : String → StreamOutputState → Bool × StreamOutputState
should_emit_final_snapshot snapshot s =
    if not (is_truthy (strip snapshot))
    then (false, s)
    else if strip (or_empty (lookup "text" s.content_buffers)) == strip snapshot
    then (false, s)
    else (
      true,
      record s { content_buffers = insert "text" snapshot s.content_buffers; saw_any_chunk = true },
    )

-- `next_sequence`
unfoldable pub next_sequence : StreamOutputState → ℕ × StreamOutputState
next_sequence s = (s.sequence + 1, record s { sequence = s.sequence + 1 })

-- `resolve_message_id`
unfoldable pub resolve_message_id : Option String → StreamOutputState → String
resolve_message_id none s = s.stable_message_id
resolve_message_id (some message_id) s =
    if is_truthy (strip message_id) then strip message_id else s.stable_message_id

-- `build_event_id`
unfoldable pub build_event_id : ℕ → StreamOutputState → String
build_event_id sequence s = s.event_id_namespace <> ":" <> show sequence

-- One key of the loop of `_merge_token_usage`
merge_entry : Fields → String → Value → Fields
merge_entry merged key null = merged
merge_entry merged key (dict fields) =
    if key == "raw"
    then put "raw"
        (elim (get "raw" merged) [ dict existing ↦ dict (merge existing fields) | _ ↦ dict fields ])
        merged
    else put key (dict fields) merged
merge_entry merged key value = put key value merged

merge_entries : Fields → Fields → Fields
merge_entries merged end = merged
merge_entries merged (field key value rest) = merge_entries (merge_entry merged key value) rest

-- `merged or None`
abbrev pub some_fields : Fields → Option Fields
some_fields d = if is_nonempty d then some d else none

abbrev fields_or_empty : Option Fields → Fields
fields_or_empty none = end
fields_or_empty (some d) = d

-- `_merge_token_usage`
unfoldable pub merge_token_usage : Option Fields → Option Fields → Option Fields
unfolding merge_entries merge_entry
merge_token_usage base incoming =
    some_fields (merge_entries (fields_or_empty base) (fields_or_empty incoming))

-- `ingest_token_usage`
unfoldable pub ingest_token_usage : Option Fields → StreamOutputState → StreamOutputState
ingest_token_usage usage s = record s { token_usage = merge_token_usage s.token_usage usage }

-- `mark_interrupt_pending`
unfoldable pub mark_interrupt_pending : String → StreamOutputState → Bool × StreamOutputState
mark_interrupt_pending request_id s =
    if not (is_truthy (strip request_id))
    then (false, s)
    else if contains s.pending_interrupt_request_ids (strip request_id)
    then (false, s)
    else (
      true,
      record s {
        pending_interrupt_request_ids = strip request_id ∷ s.pending_interrupt_request_ids;
      },
    )

-- `set.discard`
unfoldable pub discard : String → List String → List String
discard x [] = []
discard x (y ∷ ys) = let rest = discard x ys in if x == y then rest else y ∷ rest

-- `clear_interrupt_pending`
unfoldable pub clear_interrupt_pending : String → StreamOutputState → Bool × StreamOutputState
clear_interrupt_pending request_id s =
    if not (is_truthy (strip request_id))
    then (false, s)
    else if not (contains s.pending_interrupt_request_ids (strip request_id))
    then (false, s)
    else (
      true,
      record s {
        pending_interrupt_request_ids = discard (strip request_id) s.pending_interrupt_request_ids;
      },
    )

-- `if value: stream_meta[key] = value`
abbrev pub put_given : String → Option String → Fields → Fields
put_given key none d = d
put_given key (some s) d = if is_truthy s then put key (str s) d else d

-- `_build_stream_artifact_metadata`
unfoldable pub build_stream_artifact_metadata :
    BlockType → String → Option String → Option String → Option String → Option ℕ → Fields
build_stream_artifact_metadata block_type shared_source message_id role event_id sequence =
    let base =
      field "block_type" (str (block_value block_type)) (field "source" (str shared_source) end) in
    let named =
      put_given "event_id" event_id
        (put_given "role" role (put_given "message_id" message_id base)) in
    let stream_meta : Fields = elim sequence [
      | none ↦ named
      | some n ↦ put "sequence" (int (pos n)) named
    ] in
    field "shared" (dict (field "stream" (dict stream_meta) end)) end

-- `if value is not None: shared_meta[key] = dict(value)`
abbrev put_fields : String → Option Fields → Fields → Fields
put_fields key none d = d
put_fields key (some v) d = put key (dict v) d

-- The entry for the session in `_build_output_metadata`
abbrev put_session : Option String → Option String → Fields
put_session none session_title = end
put_session (some session_id) session_title =
    if is_truthy session_id
    then field "session"
        (dict (
          field "id" (str session_id)
            (elim session_title [ none ↦ end | some t ↦ field "title" (str t) end ])))
        end
    else end

-- `_build_output_metadata`
unfoldable pub build_output_metadata :
    Option String
    → Option String
    → Option Fields
    → Option Fields
    → Option Fields
    → Option Fields
    → Option Fields
    → Option Fields
unfolding put
build_output_metadata session_id session_title usage stream progress interrupt opencode_private =
    let with_usage = put_fields "usage" usage (put_session session_id session_title) in
    let shared_meta =
      put_fields "interrupt" interrupt
        (put_fields "progress" progress (put_fields "stream" stream with_usage)) in
    let metadata = if is_nonempty shared_meta then field "shared" (dict shared_meta) end else end in
    some_fields (
      if is_nonempty (fields_or_empty opencode_private)
      then put "opencode" (dict (fields_or_empty opencode_private)) metadata
      else metadata)
