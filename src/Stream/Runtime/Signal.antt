-- ===== src/Stream/Runtime/Signal.antt =====
-- The end of a session of src/opencode_a2a/execution/stream_runtime.py by a terminal signal.
use opencode_a2a_serve.Base.Names.{
  String, Bool, true, false, Option, none, some, List, [], ◌∷◌, ◌≡◌, refl, arith, ◌∙◌, ap, inl, inr,
}
use opencode_a2a_serve.Base.Equality.{string_eq, option_eq, Option-cases}
use opencode_a2a_serve.Base.Value.{Value, str, dict, Fields, get}
use opencode_a2a_serve.Stream.Errors.{StreamTerminalSignal, UpstreamInBandError}
use opencode_a2a_serve.Stream.Events.{
  extract_event_session_id, extract_stream_part_id, extract_stream_message_id,
}
use opencode_a2a_serve.Stream.Events.Failures.{
  dict_or_empty, extract_stream_terminal_signal, extract_upstream_error_from_event,
}
use opencode_a2a_serve.Stream.Events.Interrupts.{
  Asked, Resolved, extract_interrupt_asked_event, extract_interrupt_resolved_event,
}
use opencode_a2a_serve.Stream.Events.Usage.{extract_token_usage}
use opencode_a2a_serve.Stream.SessionEvents.{
  StreamState, Setting, Step, also, progress_step, error_step, signal_step, usage_step, asked_step,
  resolved_step, session_step,
}
use opencode_a2a_serve.Stream.Runtime.{
  emit_part, delta_step, text_delta_step, delta_event_step, part_step, part_event_step,
  message_step, own_session_step, typed_event, handle_event, handle_events,
}

abbrev pub ending : StreamState → Option StreamTerminalSignal × Bool
ending st = (st.terminal_signal, st.stop)

abbrev pub KeepsEnding : Step → Type 0
KeepsEnding f = (st : StreamState) → ending (f st).1 ≡ ending st

also-KeepsEnding : (f g : Step) → KeepsEnding f → KeepsEnding g → KeepsEnding (also f g)
also-KeepsEnding f g p q st = q (f st).1 ∙ p st

module _ (k : Setting) where
  progress_step-KeepsEnding :
      (part : Value) (props : Fields) → KeepsEnding (progress_step k part props)
  unfolding progress_step
  progress_step-KeepsEnding (dict part) props st = ground arith
  progress_step-KeepsEnding _ props st = refl

  error_step-KeepsEnding : (e : Option UpstreamInBandError) → KeepsEnding (error_step k e)
  unfolding error_step
  error_step-KeepsEnding none st = refl
  error_step-KeepsEnding (some e) st = ground arith

  usage_step-KeepsEnding : (usage : Option Fields) → KeepsEnding (usage_step k usage)
  unfolding usage_step
  usage_step-KeepsEnding none st = refl
  usage_step-KeepsEnding (some usage) st = refl

  asked_step-KeepsEnding : (asked : Option Asked) → KeepsEnding (asked_step k asked)
  unfolding asked_step
  asked_step-KeepsEnding none st = refl
  asked_step-KeepsEnding (some asked) st = ground arith

  resolved_step-KeepsEnding : (resolved : Option Resolved) → KeepsEnding (resolved_step k resolved)
  unfolding resolved_step
  resolved_step-KeepsEnding none st = refl
  resolved_step-KeepsEnding (some resolved) st = ground arith

  delta_step-KeepsEnding :
      (part_id : String) (m : Option String) (delta : String)
      → KeepsEnding (delta_step k part_id m delta)
  unfolding delta_step emit_part
  delta_step-KeepsEnding part_id m delta st = ground arith

  part_step-KeepsEnding :
      (part_id : String) (m : Option String) (part props : Fields)
      → KeepsEnding (part_step k part_id m part props)
  unfolding part_step emit_part
  part_step-KeepsEnding part_id m part props st = ground arith

  text_delta_step-KeepsEnding :
      (part_id : String) (m : Option String) (delta : Value)
      → KeepsEnding (text_delta_step k part_id m delta)
  unfolding text_delta_step
  text_delta_step-KeepsEnding part_id m (str d) st =
      ground (arith, delta_step-KeepsEnding part_id m d st)
  text_delta_step-KeepsEnding part_id m _ st = refl

  delta_event_step-KeepsEnding :
      (part_id : String) (m : Option String) (props : Fields)
      → KeepsEnding (delta_event_step k part_id m props)
  unfolding delta_event_step
  delta_event_step-KeepsEnding part_id m props st =
      ground (arith, text_delta_step-KeepsEnding part_id m (get "delta" props) st)

  message_step-KeepsEnding :
      (event_type : String) (props : Fields) → KeepsEnding (message_step k event_type props)
  unfolding message_step part_event_step
  message_step-KeepsEnding event_type props st =
      let part = dict_or_empty (get "part" props) in
      let m = extract_stream_message_id part props in
      elim (Option-cases (extract_stream_part_id part props)) [
        | inl absent ↦ ground arith
        | inr (i, present) ↦ ground (
          arith,
          delta_event_step-KeepsEnding i m props st,
          part_step-KeepsEnding i m part props st,
        )
      ]

  signal_step_sets :
      (signal : StreamTerminalSignal) (st : StreamState) (found : Option StreamTerminalSignal)
      → found ≡ some signal
      → st.terminal_signal ≡ none
      → ending (signal_step k found st).1 ≡ (some signal, true)
  unfolding signal_step
  signal_step_sets signal st found e h = rw (e, signal_step) (rw h refl)

  own_is :
      (event : Fields) (event_type : String) (props : Fields) (st : StreamState)
      → extract_event_session_id props ≡ some k.session_id
      → (own_session_step k event event_type props st).1
        ≡ (session_step k event event_type props st).1
  unfolding own_session_step
  own_is event event_type props st h = ground arith

  stopped_does_nothing :
      (events : List Fields) (st : StreamState)
      → st.stop ≡ true
      → handle_events k events st ≡ ([], st)
  unfolding handle_events
  stopped_does_nothing [] st h = refl
  stopped_does_nothing (event ∷ events) st h = ground arith

  -- The signal of the event decides, if there was none.
  session_step_ends :
      (event : Fields) (event_type : String) (props : Fields) (signal : StreamTerminalSignal)
      (st : StreamState)
      → extract_stream_terminal_signal event ≡ some signal
      → st.terminal_signal ≡ none
      → ending (session_step k event event_type props st).1 ≡ (some signal, true)
  unfolding session_step signal_step
  session_step_ends event event_type props signal st e h =
      let asked = asked_step k (extract_interrupt_asked_event event_type props) in
      let resolved = resolved_step k (extract_interrupt_resolved_event event_type props) in
      let usage = usage_step k (extract_token_usage k.coerce_number k.add event) in
      let read =
        also (progress_step k (get "part" props) props)
          (error_step k (extract_upstream_error_from_event event)) in
      let reached = (read st).1 in
      let ended = (signal_step k (extract_stream_terminal_signal event) reached).1 in
      let kept =
        also-KeepsEnding (progress_step k (get "part" props) props)
          (error_step k (extract_upstream_error_from_event event))
          (progress_step-KeepsEnding (get "part" props) props)
          (error_step-KeepsEnding (extract_upstream_error_from_event event)) st in
      let rest =
        also-KeepsEnding usage (also asked resolved)
          (usage_step-KeepsEnding (extract_token_usage k.coerce_number k.add event))
          (also-KeepsEnding asked resolved
            (asked_step-KeepsEnding (extract_interrupt_asked_event event_type props))
            (resolved_step-KeepsEnding (extract_interrupt_resolved_event event_type props)))
          ended in
      let none_yet : reached.terminal_signal ≡ none =
        ap (λ (t : Option StreamTerminalSignal × Bool). t.0) kept ∙ h in
      rest ∙ signal_step_sets signal reached (extract_stream_terminal_signal event) e none_yet

  event_ends :
      (event : Fields) (event_type : String) (props : Fields) (signal : StreamTerminalSignal)
      (st : StreamState)
      → get "type" event ≡ str event_type
      → get "properties" event ≡ dict props
      → extract_event_session_id props ≡ some k.session_id
      → extract_stream_terminal_signal event ≡ some signal
      → st.terminal_signal ≡ none
      → ending (handle_event k event st).1 ≡ (some signal, true)
  unfolding handle_event typed_event own_session_step
  event_ends event event_type props signal st e f own s h =
      rw (e, handle_event, f, typed_event)
        (message_step-KeepsEnding event_type props (own_session_step k event event_type props st).1
          ∙ ap ending (own_is event event_type props st own)
          ∙ session_step_ends event event_type props signal st s h)

  -- A running stream that has had no terminal signal ends with the first event of its session that
  -- carries one, whatever that event says besides: the signal is kept, and later events do
  -- nothing.
  pub first_signal_wins :
      (event : Fields) (events : List Fields) (event_type : String) (props : Fields)
      (signal : StreamTerminalSignal) (st : StreamState)
      → get "type" event ≡ str event_type
      → get "properties" event ≡ dict props
      → extract_event_session_id props ≡ some k.session_id
      → extract_stream_terminal_signal event ≡ some signal
      → st.terminal_signal ≡ none
      → st.stop ≡ false
      → (ending (handle_events k (event ∷ events) st).1 ≡ (some signal, true))
        × (handle_events k (event ∷ events) st ≡ handle_events k (event ∷ []) st)
  unfolding handle_events
  first_signal_wins event events event_type props signal st e f own s h running =
      let ended = event_ends event event_type props signal st e f own s h in
      let stopped : (handle_event k event st).1.stop ≡ true =
        ap (λ (t : Option StreamTerminalSignal × Bool). t.1) ended in
      let quiet = stopped_does_nothing events (handle_event k event st).1 stopped in
      ground (arith, running, quiet, ended)
