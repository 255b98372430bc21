-- ===== src/Stream/Chunks.antt =====
-- The chunks that `StreamRuntime.consume` of src/opencode_a2a/execution/stream_runtime.py makes of
-- the parts of a message, each part with its buffer. `dumps` is `json.dumps` with sorted keys.
pub mod Laws
use opencode_a2a_serve.Base.Names.{
  String, ◌<>◌, Bool, true, false, ◌||◌, Option, none, some, List, [], ◌∷◌,
}
use opencode_a2a_serve.Base.Equality.{◌==◌, string_eq, option_eq, if◌then◌else◌}
use opencode_a2a_serve.Base.Text.{is_truthy, is_given}
use opencode_a2a_serve.Base.Dict.{Dict, lookup, insert}
use opencode_a2a_serve.Base.Value.{Value, dict, Fields}
use opencode_a2a_serve.Stream.Output.{BlockType}
use opencode_a2a_serve.Stream.Events.{resolve_stream_block_type, extract_tool_part_payload}
use Prim.Native.Char.{Char, code}
use opencode_a2a_serve.Base.Equality.{nat_eq}

-- The parts of the SDK that the stream makes.
pub data Part : Type 0 where
  text_part : String → Part
  data_part : Fields → Part

pub record NormalizedStreamChunk : Type 0 where
  pub part : Part
  pub content_key : String
  pub accumulate_content : Bool
  pub append : Bool
  pub block_type : BlockType
  pub internal_source : String
  pub shared_source : String
  pub message_id : Option String
  pub role : Option String

pub record PendingDelta : Type 0 where
  pub field_name : String
  pub delta : String
  pub message_id : Option String

pub record StreamPartState : Type 0 where
  pub block_type : BlockType
  pub message_id : Option String
  pub role : Option String
  pub buffer : String
  pub saw_delta : Bool

-- `_new_text_chunk`, for the part with this state
abbrev pub new_text_chunk :
    String → Bool → String → String → StreamPartState → NormalizedStreamChunk
new_text_chunk content append internal_source shared_source state = record {
  part = text_part content;
  content_key = content;
  accumulate_content = true;
  append = append;
  block_type = state.block_type;
  internal_source = internal_source;
  shared_source = shared_source;
  message_id = state.message_id;
  role = state.role;
}

-- `_new_data_chunk`, for the part with this state
abbrev pub new_data_chunk :
    Fields → String → Bool → String → String → StreamPartState → NormalizedStreamChunk
new_data_chunk payload content_key append internal_source shared_source state = record {
  part = data_part payload;
  content_key = content_key;
  accumulate_content = false;
  append = append;
  block_type = state.block_type;
  internal_source = internal_source;
  shared_source = shared_source;
  message_id = state.message_id;
  role = state.role;
}

-- `if message_id: state.message_id = message_id`
abbrev pub note_message_id : Option String → StreamPartState → StreamPartState
note_message_id message_id state =
    if is_given message_id then record state { message_id = message_id } else state

-- `if role is not None: state.role = role`
abbrev note_role : Option String → StreamPartState → StreamPartState
note_role none state = state
note_role (some role) state = record state { role = some role }

-- `_upsert_part_state`, with the states by part id
unfoldable pub upsert_part_state :
    String
    → Fields
    → Option String
    → Option String
    → Dict String StreamPartState
    → Option StreamPartState × Dict String StreamPartState
upsert_part_state part_id part role message_id part_states = elim (resolve_stream_block_type part) [
  | none ↦ (none, part_states)
  | some block_type ↦
      (let state : StreamPartState = elim (lookup part_id part_states) [
        | none ↦ record {
          block_type = block_type;
          message_id = message_id;
          role = role;
          buffer = "";
          saw_delta = false;
        }
        | some old ↦
            note_message_id message_id (note_role role (record old { block_type = block_type }))
      ] in
        (some state, insert part_id state part_states))
]

-- `_delta_chunks`
unfoldable pub delta_chunks :
    String → Option String → String → StreamPartState → List NormalizedStreamChunk × StreamPartState
delta_chunks delta_text message_id internal_source state =
    if is_truthy delta_text
    then (let noted = note_message_id message_id state in
        let grown = record noted { buffer = noted.buffer <> delta_text; saw_delta = true } in
        (new_text_chunk delta_text true internal_source "stream" grown ∷ [], grown))
    else ([], state)

-- `snapshot[len(previous):]` if `snapshot.startswith(previous)`
unfoldable pub after_prefix : String → String → Option String
after_prefix String.[] snapshot = some snapshot
after_prefix (String.◌∷◌ a previous) String.[] = none
after_prefix (String.◌∷◌ a previous) (String.◌∷◌ b snapshot) =
    let rest = after_prefix previous snapshot in if code a == code b then rest else none

-- `_snapshot_chunks`
unfoldable pub snapshot_chunks :
    String → Option String → StreamPartState → List NormalizedStreamChunk × StreamPartState
snapshot_chunks snapshot message_id state =
    let noted = note_message_id message_id state in
    if snapshot == noted.buffer
    then ([], noted)
    else let kept = record noted { buffer = snapshot } in
      elim (after_prefix noted.buffer snapshot) [
        | none ↦ ([], kept)
        | some delta_text ↦
            if is_truthy delta_text
            then (new_text_chunk delta_text true "part_text_diff" "stream" kept ∷ [], kept)
            else ([], kept)
      ]

module _ (dumps : Fields → String) where
  tool_payload_chunks :
      Fields → Option String → StreamPartState → List NormalizedStreamChunk × StreamPartState
  tool_payload_chunks tool_payload message_id state =
      let noted = note_message_id message_id state in
      if dumps tool_payload == noted.buffer
      then ([], noted)
      else let kept = record noted { buffer = dumps tool_payload } in
        (
          new_data_chunk tool_payload (dumps tool_payload) (is_truthy noted.buffer)
                "tool_part_update" "tool_part_update" kept
              ∷ [],
          kept,
        )

  -- `_tool_chunks`
  unfoldable pub tool_chunks :
      Fields → Option String → StreamPartState → List NormalizedStreamChunk × StreamPartState
  unfolding tool_payload_chunks
  tool_chunks part message_id state = elim (extract_tool_part_payload part) [
    | none ↦ ([], state)
    | some tool_payload ↦ tool_payload_chunks tool_payload message_id state
  ]
