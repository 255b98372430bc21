-- ===== src/Stream/Emission/Sequences.antt =====
-- The order of what src/opencode_a2a/execution/stream_runtime.py puts into the event queue: the
-- sequence number and the `append` flag of every update.
use opencode_a2a_serve.Base.Names.{
  ℕ, ◌+◌, String, Bool, true, Option, none, some, List, [], ◌∷◌, ◌++◌, ◌≡◌, refl, ◌∙◌, inl, inr,
}
use opencode_a2a_serve.Base.Equality.{◌==◌, string_eq, if◌then◌else◌, Bool-cases}
use opencode_a2a_serve.Base.Int.{pos}
use opencode_a2a_serve.Base.Dict.{lookup}
use opencode_a2a_serve.Base.Names.{◌<>◌, ◌&&◌}
use opencode_a2a_serve.Base.Text.{is_truthy}
use opencode_a2a_serve.Base.Value.{Value, null, int, Fields, get, put, get-put}
use opencode_a2a_serve.Stream.Errors.{TaskState}
use opencode_a2a_serve.Stream.Output.{
  StreamOutputState, or_empty, block_value, should_drop_initial_user_echo, BlockType,
  register_chunk, next_sequence, build_stream_artifact_metadata, build_output_metadata,
}
use opencode_a2a_serve.Stream.Events.Failures.{dict_or_empty}
use opencode_a2a_serve.Stream.Chunks.{NormalizedStreamChunk}
use opencode_a2a_serve.Stream.Emission.{
  Effect, text_of, artifact_update, status_update, remember_request, discard_request, presented,
  emit_presented, emit_chunks, stream_meta, emit_interrupt_status, emit_progress_status,
}

-- `metadata["shared"]["stream"]["sequence"]`
abbrev pub number_of : Fields → Value
number_of metadata =
    get "sequence" (dict_or_empty (get "stream" (dict_or_empty (get "shared" metadata))))

abbrev pub status_number : Option Fields → Value
status_number none = null
status_number (some metadata) = number_of metadata

-- Where the stream stands: the last sequence number, and whether a chunk was sent.
abbrev pub Mark : Type 0
Mark = ℕ × Bool

abbrev pub mark : StreamOutputState → Mark
mark s = (s.sequence, s.emitted_stream_chunk)

-- From one mark to another: every update has the next number, and an artifact update appends exactly
-- if a chunk was sent before.
abbrev pub IsOrdered : Mark → List Effect → Mark → Type 0
IsOrdered m [] m' = m ≡ m'
IsOrdered (n, sent) (artifact_update part append metadata ∷ effects) m' =
    (append ≡ sent) × (number_of metadata ≡ int (pos (n + 1))) × IsOrdered (n + 1, true) effects m'
IsOrdered (n, sent) (status_update state metadata ∷ effects) m' =
    (status_number metadata ≡ int (pos (n + 1))) × IsOrdered (n + 1, sent) effects m'
IsOrdered m (remember_request asked ∷ effects) m' = IsOrdered m effects m'
IsOrdered m (discard_request request_id ∷ effects) m' = IsOrdered m effects m'

pub IsOrdered-append :
    (a b : List Effect) (m m' m'' : Mark)
    → IsOrdered m a m'
    → IsOrdered m' b m''
    → IsOrdered m (a ++ b) m''
IsOrdered-append [] b m m' m'' h g = rw h g
IsOrdered-append (artifact_update p a d ∷ effects) b (n, sent) m' m'' (e, f, h) g =
    (e, f, IsOrdered-append effects b (n + 1, true) m' m'' h g)
IsOrdered-append (status_update s d ∷ effects) b (n, sent) m' m'' (f, h) g =
    (f, IsOrdered-append effects b (n + 1, sent) m' m'' h g)
IsOrdered-append (remember_request asked ∷ effects) b m m' m'' h g =
    IsOrdered-append effects b m m' m'' h g
IsOrdered-append (discard_request i ∷ effects) b m m' m'' h g =
    IsOrdered-append effects b m m' m'' h g

number-build_stream_artifact_metadata :
    (b : BlockType) (source : String) (m r e : Option String) (n : ℕ)
    → number_of (build_stream_artifact_metadata b source m r e (some n)) ≡ int (pos n)
unfolding build_stream_artifact_metadata get string_eq
number-build_stream_artifact_metadata b source m r e n =
    get-put "sequence" "sequence" (int (pos n)) _

number-build_output_metadata :
    (session_id : String) (meta : Fields) (progress interrupt : Option Fields)
    → status_number
        (build_output_metadata (some session_id) none none (some meta) progress interrupt none)
      ≡ get "sequence" meta
unfolding build_output_metadata put get string_eq
number-build_output_metadata session_id meta none none = elim (Bool-cases (is_truthy session_id)) [
  | inl given ↦ rw given refl
  | inr blank ↦ rw blank refl
]
number-build_output_metadata session_id meta none (some i) =
    elim (Bool-cases (is_truthy session_id)) [
      | inl given ↦ rw given refl
      | inr blank ↦ rw blank refl
    ]
number-build_output_metadata session_id meta (some p) none =
    elim (Bool-cases (is_truthy session_id)) [
      | inl given ↦ rw given refl
      | inr blank ↦ rw blank refl
    ]
number-build_output_metadata session_id meta (some p) (some i) =
    elim (Bool-cases (is_truthy session_id)) [
      | inl given ↦ rw given refl
      | inr blank ↦ rw blank refl
    ]

number-stream_meta :
    (m : Option String) (source : String) (n : ℕ) (s : StreamOutputState)
    → get "sequence" (stream_meta m source n s) ≡ int (pos n)
unfolding stream_meta get string_eq
number-stream_meta m source n s = refl

pub emit_interrupt_status-IsOrdered :
    (session_id : String) (state : TaskState) (i t phase : String) (d : Option Fields)
    (r : Option String) (s : StreamOutputState)
    → let out = emit_interrupt_status session_id state i t phase d r s in
      IsOrdered (mark s) out.0 (mark out.1)
unfolding emit_interrupt_status next_sequence
emit_interrupt_status-IsOrdered session_id state i t phase d r s = (
  number-build_output_metadata session_id _ none _
      ∙ number-stream_meta none "interrupt" (s.sequence + 1) _,
  refl,
)

pub emit_progress_status-IsOrdered :
    (session_id : String) (m : Option String) (progress : Fields) (s : StreamOutputState)
    → let out = emit_progress_status session_id m progress s in
      IsOrdered (mark s) out.0 (mark out.1)
unfolding emit_progress_status next_sequence
emit_progress_status-IsOrdered session_id m progress s = (
  number-build_output_metadata session_id _ (some progress) none
      ∙ number-stream_meta m "progress" (s.sequence + 1) _,
  refl,
)

module _ (dumps_ascii : Fields → String) (structured : Bool) where
  emit_presented-IsOrdered :
      (chunk : NormalizedStreamChunk) (s : StreamOutputState)
      → let out = emit_presented dumps_ascii structured chunk s in
        IsOrdered (mark s) out.0 (mark out.1)
  unfolding emit_presented register_chunk next_sequence
  emit_presented-IsOrdered chunk s =
      let drops =
        should_drop_initial_user_echo (text_of chunk.part) chunk.block_type chunk.role s in
      let previous = or_empty (lookup (block_value chunk.block_type) s.content_buffers) in
      let next_value =
        if chunk.append && chunk.accumulate_content
        then previous <> chunk.content_key
        else chunk.content_key in
      elim (Bool-cases drops) [
        | inl dropped ↦ rw dropped refl
        | inr kept ↦ rw kept (elim (Bool-cases (next_value == previous)) [
          | inl same ↦ rw same refl
          | inr differs ↦ rw differs (
            refl,
            number-build_stream_artifact_metadata chunk.block_type chunk.shared_source _ chunk.role
                _ (s.sequence + 1),
            refl,
          )
        ])
      ]

  pub emit_chunks-IsOrdered :
      (chunks : List NormalizedStreamChunk) (s : StreamOutputState)
      → let out = emit_chunks dumps_ascii structured chunks s in
        IsOrdered (mark s) out.0 (mark out.1)
  unfolding emit_chunks
  emit_chunks-IsOrdered [] s = refl
  emit_chunks-IsOrdered (chunk ∷ chunks) s =
      let one = emit_presented dumps_ascii structured (presented dumps_ascii structured chunk) s in
      IsOrdered-append one.0 (emit_chunks dumps_ascii structured chunks one.1).0 (mark s)
        (mark one.1) _ (emit_presented-IsOrdered (presented dumps_ascii structured chunk) s)
        (emit_chunks-IsOrdered chunks one.1)
