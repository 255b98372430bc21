-- ===== src/Stream/Emission.antt =====
-- What `StreamRuntime.consume` of src/opencode_a2a/execution/stream_runtime.py puts into the event
-- queue. The ids of task, context and artifact are those of the one execution, and are left out;
-- metrics and logs are left out too.
pub mod Sequences
use opencode_a2a_serve.Base.Names.{
  ℕ, String, Bool, true, false, not, Option, none, some, List, [], ◌∷◌, ◌++◌,
}
use opencode_a2a_serve.Base.Equality.{if◌then◌else◌}
use opencode_a2a_serve.Base.Int.{pos}
use opencode_a2a_serve.Base.Value.{Value, dict, str, int, Fields, end, field, put}
use opencode_a2a_serve.Stream.Errors.{TaskState, input_required, working}
use opencode_a2a_serve.Stream.Output.{
  StreamOutputState, should_drop_initial_user_echo, register_chunk, next_sequence,
  resolve_message_id, build_event_id, build_stream_artifact_metadata, build_output_metadata,
}
use opencode_a2a_serve.Stream.Chunks.{Part, text_part, data_part, NormalizedStreamChunk}
use opencode_a2a_serve.Stream.Events.Interrupts.{Asked, Resolved}

-- The calls of the stream on the queue and on the client, in their order.
pub data Effect : Type 0 where
  -- `TaskArtifactUpdateEvent`: the part, `append`, and the metadata of the artifact
  artifact_update : Part → Bool → Fields → Effect
  -- `TaskStatusUpdateEvent`: the state, and the metadata
  status_update : TaskState → Option Fields → Effect
  -- `remember_interrupt_request` and `discard_interrupt_request`
  remember_request : Asked → Effect
  discard_request : String → Effect

-- `part.text`, or "" where there is none
abbrev pub text_of : Part → String
text_of (text_part s) = s
text_of (data_part d) = ""

-- `part_text_fallback`, on the parts that the stream makes; `dumps_ascii` is `json.dumps` with
-- `ensure_ascii=True`
abbrev pub part_text_fallback : (Fields → String) → Part → String
part_text_fallback dumps_ascii (text_part s) = s
part_text_fallback dumps_ascii (data_part d) = dumps_ascii d

-- A chunk for a client that takes no structured output.
abbrev as_text_chunk : (Fields → String) → NormalizedStreamChunk → NormalizedStreamChunk
as_text_chunk dumps_ascii chunk = record chunk {
  part = text_part (part_text_fallback dumps_ascii chunk.part);
  content_key = part_text_fallback dumps_ascii chunk.part;
  accumulate_content = false;
}

module _ (dumps_ascii : Fields → String) (allow_structured_output : Bool) where
  unfoldable pub presented : NormalizedStreamChunk → NormalizedStreamChunk
  presented chunk =
      if allow_structured_output
      then chunk
      else elim chunk.part [ data_part d ↦ as_text_chunk dumps_ascii chunk | text_part s ↦ chunk ]

  -- One chunk of `_emit_chunks`, after the conversion
  unfoldable pub emit_presented :
      NormalizedStreamChunk → StreamOutputState → List Effect × StreamOutputState
  emit_presented chunk s =
      if should_drop_initial_user_echo (text_of chunk.part) chunk.block_type chunk.role s
      then ([], s)
      else let ((should_emit, effective_append), s') =
          register_chunk chunk.block_type chunk.content_key chunk.append chunk.accumulate_content
            s in
        if not should_emit
        then ([], s')
        else let (sequence, s'') = next_sequence s' in
          (
            artifact_update chunk.part effective_append (
                  build_stream_artifact_metadata chunk.block_type chunk.shared_source
                    (some (resolve_message_id chunk.message_id s)) chunk.role
                    (some (build_event_id sequence s'')) (some sequence))
                ∷ [],
            s'',
          )

  -- `_emit_chunks`
  unfoldable pub emit_chunks :
      List NormalizedStreamChunk → StreamOutputState → List Effect × StreamOutputState
  unfolding presented emit_presented
  emit_chunks [] s = ([], s)
  emit_chunks (chunk ∷ chunks) s =
      let (effects, s') = emit_presented (presented chunk) s in
      let (later, s'') = emit_chunks chunks s' in (effects ++ later, s'')

-- The entry for the stream in the metadata of a status
unfoldable pub stream_meta : Option String → String → ℕ → StreamOutputState → Fields
stream_meta message_id source sequence s =
    field "message_id" (str (resolve_message_id message_id s)) (
      field "event_id" (str (build_event_id sequence s))
        (field "source" (str source) (field "sequence" (int (pos sequence)) end)))

-- `_emit_interrupt_status`
unfoldable pub emit_interrupt_status :
    String
    → TaskState
    → String
    → String
    → String
    → Option Fields
    → Option String
    → StreamOutputState
    → List Effect × StreamOutputState
unfolding put
emit_interrupt_status session_id state request_id interrupt_type phase details resolution s =
    let base =
      field "request_id" (str request_id)
        (field "type" (str interrupt_type) (field "phase" (str phase) end)) in
    let detailed : Fields = elim details [ none ↦ base | some d ↦ put "details" (dict d) base ] in
    let metadata : Fields = elim resolution [
      | none ↦ detailed
      | some r ↦ put "resolution" (str r) detailed
    ] in
    let (sequence, s') = next_sequence s in
    (
      status_update state (
            build_output_metadata (some session_id) none none
              (some (stream_meta none "interrupt" sequence s')) none (some metadata) none)
          ∷ [],
      s',
    )

-- `_emit_progress_status`
unfoldable pub emit_progress_status :
    String → Option String → Fields → StreamOutputState → List Effect × StreamOutputState
emit_progress_status session_id message_id progress s =
    let (sequence, s') = next_sequence s in
    (
      status_update working (
            build_output_metadata (some session_id) none none
              (some (stream_meta message_id "progress" sequence s')) (some progress) none none)
          ∷ [],
      s',
    )
