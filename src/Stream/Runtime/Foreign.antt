-- ===== src/Stream/Runtime/Foreign.antt =====
-- Events of other sessions, and parts of users, in src/opencode_a2a/execution/stream_runtime.py.
use opencode_a2a_serve.Base.Names.{
  String, true, Option, none, some, [], ◌≡◌, ◌≢◌, refl, arith, inl, inr,
}
use opencode_a2a_serve.Base.Equality.{string_eq, option_eq, Option-cases}
use opencode_a2a_serve.Base.Dict.{lookup, erase, lookup-insert, lookup-erase}
use opencode_a2a_serve.Base.Value.{str, dict, Fields, get}
use opencode_a2a_serve.Stream.Output.{BlockType}
use opencode_a2a_serve.Stream.Events.{
  extract_event_session_id, extract_stream_session_id, extract_stream_role,
  resolve_stream_block_type,
}
use opencode_a2a_serve.Stream.Events.Failures.{dict_or_empty}
use opencode_a2a_serve.Stream.Chunks.{StreamPartState, upsert_part_state}
use opencode_a2a_serve.Stream.SessionEvents.{StreamState, Setting}
use opencode_a2a_serve.Stream.Runtime.{
  is_input_role, delta_step, part_step, message_step, own_session_step, typed_event, handle_event,
}

module _ (k : Setting) where
  own_session_step_foreign :
      (event : Fields) (event_type : String) (props : Fields) (st : StreamState)
      → extract_event_session_id props ≢ some k.session_id
      → own_session_step k event event_type props st ≡ ([], st)
  unfolding own_session_step
  own_session_step_foreign event event_type props st h = ground arith

  message_step_foreign :
      (event_type : String) (props : Fields) (st : StreamState)
      → extract_stream_session_id (dict_or_empty (get "part" props)) props ≢ some k.session_id
      → message_step k event_type props st ≡ ([], st)
  unfolding message_step
  message_step_foreign event_type props st h = ground arith

  -- An event that names another session, or none, both as an event and as a message part, sends
  -- nothing and changes nothing.
  pub handle_event_foreign :
      (event : Fields) (event_type : String) (props : Fields) (st : StreamState)
      → get "type" event ≡ str event_type
      → get "properties" event ≡ dict props
      → extract_event_session_id props ≢ some k.session_id
      → extract_stream_session_id (dict_or_empty (get "part" props)) props ≢ some k.session_id
      → handle_event k event st ≡ ([], st)
  unfolding handle_event typed_event
  handle_event_foreign event event_type props st e f h g =
      rw (e, handle_event, f, typed_event)
        (rw (own_session_step_foreign event event_type props st h)
          (message_step_foreign event_type props st g))

  upserted_role :
      (part_id role : String) (r : Option String) (part : Fields) (m : Option String)
      (st : StreamState) (state : StreamPartState)
      → r ≡ some role
      → (upsert_part_state part_id part r m st.part_states).0 ≡ some state
      → (state.role ≡ some role)
        × (lookup part_id (upsert_part_state part_id part r m st.part_states).1 ≡ some state)
  unfolding upsert_part_state
  upserted_role part_id role r part m st state e h =
      elim (Option-cases (resolve_stream_block_type part)) [
        | inl absent ↦ absurd (ground arith)
        | inr (b, present) ↦ ground (arith, lookup-insert part_id part_id state st.part_states)
      ]

  known_type :
      (part : Fields)
      → resolve_stream_block_type part ≢ none
      → (b : BlockType) × (resolve_stream_block_type part ≡ some b)
  known_type part h = elim (Option-cases (resolve_stream_block_type part)) [
    | inl absent ↦ absurd (h absent)
    | inr known ↦ known
  ]

  upsert_known :
      (part_id : String) (r : Option String) (b : BlockType) (m : Option String) (part : Fields)
      (st : StreamState)
      → resolve_stream_block_type part ≡ some b
      → (state : StreamPartState) × ((upsert_part_state part_id part r m st.part_states).0
          ≡ some state)
  unfolding upsert_part_state
  upsert_known part_id r b m part st h = rw (h, upsert_part_state) (_, refl)

  part_step_input :
      (part_id role : String) (m : Option String) (part props : Fields) (st : StreamState)
      (state : StreamPartState)
      → (upsert_part_state part_id part (extract_stream_role part props) m st.part_states).0
        ≡ some state
      → state.role ≡ some role
      → is_input_role (some role) ≡ true
      → part_step k part_id m part props st ≡ (
        [],
        record st {
          part_states =
              (upsert_part_state part_id part (extract_stream_role part props) m st.part_states).1;
          pending_deltas = erase part_id st.pending_deltas;
        },
      )
  unfolding part_step
  part_step_input part_id role m part props st state h e input =
      rw (h, part_step) (rw e (rw input refl))

  -- When a part with a known type comes with the role of a user or of the system, the event sends
  -- nothing, what was buffered for the part is dropped, and a later delta of the part sends
  -- nothing and changes nothing.
  pub input_part_is_silent :
      (part_id role delta : String) (m m' : Option String) (part props : Fields) (st : StreamState)
      → extract_stream_role part props ≡ some role
      → is_input_role (some role) ≡ true
      → resolve_stream_block_type part ≢ none
      → let out = part_step k part_id m part props st in
        (out.0 ≡ [])
        × (out.1.output ≡ st.output)
        × (lookup part_id out.1.pending_deltas ≡ none)
        × (delta_step k part_id m' delta out.1 ≡ ([], out.1))
  unfolding delta_step
  input_part_is_silent part_id role delta m m' part props st e input typed =
      let (b, known) = known_type part typed in
      let r = extract_stream_role part props in
      let (state, made) = upsert_known part_id r b m part st known in
      let (has_role, stored) = upserted_role part_id role r part m st state e made in
      rw (part_step_input part_id role m part props st state made has_role input) (
        refl,
        refl,
        ground (arith, lookup-erase part_id part_id st.pending_deltas),
        rw (stored, delta_step) (rw has_role (rw input refl)),
      )
