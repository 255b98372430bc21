-- ===== src/Stream/Runtime/Steps.antt =====
-- The order of the updates of each step of src/opencode_a2a/execution/stream_runtime.py on an event.
use mathlib.Core.Path.{subst}
use opencode_a2a_serve.Base.Names.{
  String, Option, none, some, List, ◌≡◌, refl, sym, arith, inl, inr,
}
use opencode_a2a_serve.Base.Equality.{string_eq, option_eq, Bool-cases, Option-cases}
use opencode_a2a_serve.Base.Dict.{lookup, erase}
use opencode_a2a_serve.Base.Value.{Value, dict, Fields, get}
use opencode_a2a_serve.Stream.Errors.{
  input_required, working, StreamTerminalSignal, UpstreamInBandError,
}
use opencode_a2a_serve.Stream.Output.{
  StreamOutputState, register_progress, ingest_token_usage, mark_interrupt_pending,
  clear_interrupt_pending,
}
use opencode_a2a_serve.Stream.Events.{extract_stream_message_id, extract_stream_role}
use opencode_a2a_serve.Stream.Events.Failures.{
  extract_stream_terminal_signal, extract_upstream_error_from_event,
}
use opencode_a2a_serve.Stream.Events.Interrupts.{
  Asked, Resolved, extract_interrupt_asked_event, extract_interrupt_resolved_event,
}
use opencode_a2a_serve.Stream.Events.Progress.{extract_progress_metadata, build_progress_identity}
use opencode_a2a_serve.Stream.Events.Usage.{extract_token_usage}
use opencode_a2a_serve.Stream.Chunks.{
  NormalizedStreamChunk, StreamPartState, upsert_part_state, delta_chunks,
}
use opencode_a2a_serve.Stream.Emission.{Effect, emit_interrupt_status, emit_progress_status}
use opencode_a2a_serve.Stream.Emission.Sequences.{
  Mark, mark, IsOrdered, IsOrdered-append, emit_chunks-IsOrdered, emit_interrupt_status-IsOrdered,
  emit_progress_status-IsOrdered,
}
use opencode_a2a_serve.Stream.SessionEvents.{
  StreamState, Setting, Step, also, progress_step, error_step, signal_step, usage_step, asked_step,
  resolved_step, session_step,
}
use opencode_a2a_serve.Stream.Runtime.{
  is_input_role, or_nil, emit_part, delta_step, all_chunks, part_step,
}

-- A step whose effects lead from its old mark to its new one.
abbrev pub InOrder : Step → Type 0
InOrder f = (st : StreamState) → IsOrdered (mark st.output) (f st).0 (mark (f st).1.output)

pub also-InOrder : (f g : Step) → InOrder f → InOrder g → InOrder (also f g)
also-InOrder f g p q st =
    IsOrdered-append (f st).0 (g (f st).1).0 (mark st.output) (mark (f st).1.output) _ (p st)
      (q (f st).1)

mark_interrupt_pending-mark :
    (i : String) (s : StreamOutputState) → mark (mark_interrupt_pending i s).1 ≡ mark s
unfolding mark_interrupt_pending
mark_interrupt_pending-mark i s = ground arith

clear_interrupt_pending-mark :
    (i : String) (s : StreamOutputState) → mark (clear_interrupt_pending i s).1 ≡ mark s
unfolding clear_interrupt_pending
clear_interrupt_pending-mark i s = ground arith

register_progress-mark :
    (i c : String) (s : StreamOutputState) → mark (register_progress i c s).1 ≡ mark s
unfolding register_progress
register_progress-mark i c s = ground arith

from_same_mark :
    (s s' : StreamOutputState) (out : List Effect × StreamOutputState)
    → mark s' ≡ mark s
    → IsOrdered (mark s') out.0 (mark out.1)
    → IsOrdered (mark s) out.0 (mark out.1)
from_same_mark s s' out e h = subst (λ (n : Mark). IsOrdered n out.0 (mark out.1)) e h

module _ (k : Setting) where
  error_step-InOrder : (e : Option UpstreamInBandError) → InOrder (error_step k e)
  unfolding error_step
  error_step-InOrder none st = refl
  error_step-InOrder (some e) st = elim (Option-cases st.output.upstream_error) [
    | inl absent ↦ rw absent refl
    | inr (old, present) ↦ rw present refl
  ]

  signal_step-InOrder : (s : Option StreamTerminalSignal) → InOrder (signal_step k s)
  unfolding signal_step
  signal_step-InOrder none st = refl
  signal_step-InOrder (some s) st = elim (Option-cases st.terminal_signal) [
    | inl absent ↦ rw absent refl
    | inr (old, present) ↦ rw present refl
  ]

  usage_step-InOrder : (usage : Option Fields) → InOrder (usage_step k usage)
  unfolding usage_step ingest_token_usage
  usage_step-InOrder none st = refl
  usage_step-InOrder (some usage) st = refl

  asked_step-InOrder : (asked : Option Asked) → InOrder (asked_step k asked)
  unfolding asked_step
  asked_step-InOrder none st = refl
  asked_step-InOrder (some asked) st =
      let (new, s) = mark_interrupt_pending asked.request_id st.output in
      let same = mark_interrupt_pending-mark asked.request_id st.output in
      elim (Bool-cases new) [
        | inl is_new ↦ rw is_new (
            from_same_mark st.output s
              (emit_interrupt_status k.session_id input_required asked.request_id
                asked.interrupt_type "asked" (some asked.details) none s)
              same
              (emit_interrupt_status-IsOrdered k.session_id input_required asked.request_id
                asked.interrupt_type "asked" (some asked.details) none s))
        | inr is_old ↦ rw is_old (sym same)
      ]

  resolved_step-InOrder : (resolved : Option Resolved) → InOrder (resolved_step k resolved)
  unfolding resolved_step
  resolved_step-InOrder none st = refl
  resolved_step-InOrder (some resolved) st =
      let (cleared, s) = clear_interrupt_pending resolved.request_id st.output in
      let same = clear_interrupt_pending-mark resolved.request_id st.output in
      elim (Bool-cases cleared) [
        | inl is_cleared ↦ rw is_cleared (
            from_same_mark st.output s
              (emit_interrupt_status k.session_id working resolved.request_id
                resolved.interrupt_type "resolved" none (some resolved.resolution) s)
              same
              (emit_interrupt_status-IsOrdered k.session_id working resolved.request_id
                resolved.interrupt_type "resolved" none (some resolved.resolution) s))
        | inr is_absent ↦ rw is_absent (sym same)
      ]

  progress_of-InOrder : (part props : Fields) → InOrder (progress_step k (dict part) props)
  unfolding progress_step
  progress_of-InOrder part props st = elim (Option-cases (extract_progress_metadata part props)) [
    | inl absent ↦ rw (absent, progress_step) refl
    | inr (progress, present) ↦
        let (new, s) =
          register_progress (build_progress_identity part props) (k.dumps progress) st.output in
        let same =
          register_progress-mark (build_progress_identity part props) (k.dumps progress)
            st.output in
        rw (present, progress_step)
          (elim (Bool-cases new) [
            | inl is_new ↦ rw is_new (
                from_same_mark st.output s
                  (emit_progress_status k.session_id (extract_stream_message_id part props) progress
                    s)
                  same
                  (emit_progress_status-IsOrdered k.session_id
                    (extract_stream_message_id part props) progress s))
            | inr is_old ↦ rw is_old refl
          ])
  ]

  progress_step-InOrder : (part : Value) (props : Fields) → InOrder (progress_step k part props)
  unfolding progress_step
  progress_step-InOrder (dict part) props st = progress_of-InOrder part props st
  progress_step-InOrder _ props st = refl

  pub session_step-InOrder :
      (event : Fields) (event_type : String) (props : Fields)
      → InOrder (session_step k event event_type props)
  unfolding session_step
  session_step-InOrder event event_type props =
      let asked = asked_step k (extract_interrupt_asked_event event_type props) in
      let resolved = resolved_step k (extract_interrupt_resolved_event event_type props) in
      let usage = usage_step k (extract_token_usage k.coerce_number k.add event) in
      let signal = signal_step k (extract_stream_terminal_signal event) in
      let error = error_step k (extract_upstream_error_from_event event) in
      let progress = progress_step k (get "part" props) props in
      also-InOrder progress (also error (also signal (also usage (also asked resolved))))
        (progress_step-InOrder (get "part" props) props)
        (also-InOrder error (also signal (also usage (also asked resolved)))
          (error_step-InOrder (extract_upstream_error_from_event event))
          (also-InOrder signal (also usage (also asked resolved))
            (signal_step-InOrder (extract_stream_terminal_signal event))
            (also-InOrder usage (also asked resolved)
              (usage_step-InOrder (extract_token_usage k.coerce_number k.add event))
              (also-InOrder asked resolved
                (asked_step-InOrder (extract_interrupt_asked_event event_type props))
                (resolved_step-InOrder (extract_interrupt_resolved_event event_type props))))))

  emit_part-InOrder :
      (part_id : String) (made : List NormalizedStreamChunk × StreamPartState)
      → InOrder (emit_part k part_id made)
  unfolding emit_part
  emit_part-InOrder part_id (chunks, state) st =
      emit_chunks-IsOrdered k.dumps_ascii k.allow_structured_output chunks st.output

  pub delta_step-InOrder :
      (part_id : String) (m : Option String) (delta : String)
      → InOrder (delta_step k part_id m delta)
  unfolding delta_step
  delta_step-InOrder part_id m delta st = elim (Option-cases (lookup part_id st.part_states)) [
    | inl absent ↦ rw (absent, delta_step) refl
    | inr (state, present) ↦
        rw (present, delta_step)
          (elim (Bool-cases (is_input_role state.role)) [
            | inl user ↦ rw user refl
            | inr agent ↦
                rw agent (emit_part-InOrder part_id (delta_chunks delta m "delta_event" state) st)
          ])
  ]

  pub part_step-InOrder :
      (part_id : String) (m : Option String) (part props : Fields)
      → InOrder (part_step k part_id m part props)
  unfolding part_step
  part_step-InOrder part_id m part props st =
      let (upserted, part_states) =
        upsert_part_state part_id part (extract_stream_role part props) m st.part_states in
      let pending = or_nil (lookup part_id st.pending_deltas) in
      let st' : StreamState = record st {
        part_states = part_states;
        pending_deltas = erase part_id st.pending_deltas;
      } in
      elim (Option-cases upserted) [
        | inl absent ↦ rw (absent, part_step) refl
        | inr (state, present) ↦
            rw (present, part_step)
              (elim (Bool-cases (is_input_role state.role)) [
                | inl user ↦ rw user refl
                | inr agent ↦
                    rw agent
                      (emit_part-InOrder part_id (all_chunks k pending part props m state) st')
              ])
      ]
