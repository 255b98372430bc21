-- ===== src/Stream/Runtime/Order.antt =====
-- The order of the updates that src/opencode_a2a/execution/stream_runtime.py sends for a list of events.
use opencode_a2a_serve.Base.Names.{
  String, Bool, true, false, ◌||◌, Option, none, some, List, [], ◌∷◌, ◌++◌, refl,
}
use opencode_a2a_serve.Base.Equality.{◌==◌, string_eq, option_eq, if◌then◌else◌}
use opencode_a2a_serve.Base.Text.{is_truthy}
use opencode_a2a_serve.Base.Value.{Value, str, dict, Fields, get, as_str}
use opencode_a2a_serve.Stream.Events.{
  extract_event_session_id, extract_stream_session_id, extract_stream_message_id,
  extract_stream_part_id,
}
use opencode_a2a_serve.Stream.Events.Failures.{dict_or_empty}
use opencode_a2a_serve.Stream.Emission.{Effect}
use opencode_a2a_serve.Stream.Emission.Sequences.{Mark, mark, IsOrdered, IsOrdered-append}
use opencode_a2a_serve.Stream.SessionEvents.{StreamState, Setting, session_step}
use opencode_a2a_serve.Stream.Runtime.{
  delta_step, delta_event_step, text_delta_step, part_event_step, own_session_step, part_step,
  message_step, typed_event, handle_event, handle_events,
}
use opencode_a2a_serve.Stream.Runtime.Steps.{
  InOrder, also-InOrder, session_step-InOrder, delta_step-InOrder, part_step-InOrder,
}

-- Either branch of a test.
choose :
    (b : Bool) (m : Mark) (x y : List Effect × StreamState)
    → IsOrdered m x.0 (mark x.1.output)
    → IsOrdered m y.0 (mark y.1.output)
    → let r = if b then x else y in IsOrdered m r.0 (mark r.1.output)
choose true m x y p q = p
choose false m x y p q = q

module _ (k : Setting) where
  text_delta_step-InOrder :
      (part_id : String) (m : Option String) (delta : Value)
      → InOrder (text_delta_step k part_id m delta)
  unfolding text_delta_step
  text_delta_step-InOrder part_id m (str delta) st =
      choose (is_truthy delta) (mark st.output) (delta_step k part_id m delta st) ([], st)
        (delta_step-InOrder k part_id m delta st) refl
  text_delta_step-InOrder part_id m _ st = refl

  delta_event_step-InOrder :
      (part_id : String) (m : Option String) (props : Fields)
      → InOrder (delta_event_step k part_id m props)
  unfolding delta_event_step
  delta_event_step-InOrder part_id m props st =
      choose (as_str (get "field" props) == some "text") (mark st.output)
        (text_delta_step k part_id m (get "delta" props) st) ([], st)
        (text_delta_step-InOrder part_id m (get "delta" props) st) refl

  part_event_step-InOrder :
      (event_type : String) (part_id : Option String) (m : Option String) (part props : Fields)
      → InOrder (part_event_step k event_type part_id m part props)
  unfolding part_event_step
  part_event_step-InOrder event_type none m part props st = refl
  part_event_step-InOrder event_type (some i) m part props st =
      choose (event_type == "message.part.delta") (mark st.output) (delta_event_step k i m props st)
        (part_step k i m part props st) (delta_event_step-InOrder i m props st)
        (part_step-InOrder k i m part props st)

  message_step-InOrder :
      (event_type : String) (props : Fields) → InOrder (message_step k event_type props)
  unfolding message_step
  message_step-InOrder event_type props st =
      let part = dict_or_empty (get "part" props) in
      let own = extract_stream_session_id part props == some k.session_id in
      let part_event =
        part_event_step k event_type (extract_stream_part_id part props)
          (extract_stream_message_id part props) part props st in
      choose (event_type == "message.part.updated" || event_type == "message.part.delta")
        (mark st.output) (if own then part_event else ([], st)) ([], st)
        (choose own (mark st.output) part_event ([], st)
          (part_event_step-InOrder event_type (extract_stream_part_id part props)
            (extract_stream_message_id part props) part props st)
          refl)
        refl

  own_session_step-InOrder :
      (event : Fields) (event_type : String) (props : Fields)
      → InOrder (own_session_step k event event_type props)
  unfolding own_session_step
  own_session_step-InOrder event event_type props st =
      choose (extract_event_session_id props == some k.session_id) (mark st.output)
        (session_step k event event_type props st) ([], st)
        (session_step-InOrder k event event_type props st) refl

  typed_event-InOrder :
      (event_type properties : Value) (event : Fields)
      → InOrder (typed_event k event_type properties event)
  unfolding typed_event
  typed_event-InOrder (str event_type) (dict props) event =
      also-InOrder (own_session_step k event event_type props) (message_step k event_type props)
        (own_session_step-InOrder event event_type props) (message_step-InOrder event_type props)
  typed_event-InOrder _ _ event = λ st. refl

  -- For any events of any sessions, what the stream sends is in order: every status and artifact
  -- update carries the next sequence number, starting after the number that the state holds, and an
  -- artifact update has `append` false exactly if no chunk was sent before it.
  pub handle_events-IsOrdered :
      (events : List Fields) (st : StreamState)
      → IsOrdered
          (mark st.output)
          (handle_events k events st).0
          (mark (handle_events k events st).1.output)
  unfolding handle_events handle_event
  handle_events-IsOrdered [] st = refl
  handle_events-IsOrdered (event ∷ events) st =
      let one = handle_event k event st in
      let later = handle_events k events one.1 in
      choose st.stop (mark st.output) ([], st) (one.0 ++ later.0, later.1) refl
        (IsOrdered-append one.0 later.0 (mark st.output) (mark one.1.output) (mark later.1.output)
          (typed_event-InOrder (get "type" event) (get "properties" event) event st)
          (handle_events-IsOrdered events one.1))
