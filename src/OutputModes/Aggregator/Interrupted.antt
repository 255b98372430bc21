-- ===== src/OutputModes/Aggregator/Interrupted.antt =====
-- `NegotiatingResultAggregator` of src/opencode_a2a/output_modes.py loses no event when it breaks off.
use opencode_a2a_serve.Base.Names.{
  String, Bool, true, false, not, ◌||◌, Option, none, some, List, [], ◌∷◌, ◌≡◌, refl, sym, ap, ◌∙◌,
  arith, inl, inr,
}
use opencode_a2a_serve.Base.Equality.{Option-cases}
use opencode_a2a_serve.Base.Value.{Fields}
use opencode_a2a_serve.OutputModes.{
  Payload, artifact_update, status_update, task, message, other_payload, filter_payload,
  normalize_accepted_output_modes, apply_accepted_output_modes,
}
use opencode_a2a_serve.OutputModes.Metadata.{
  annotate, as_source, annotate_output_negotiation_metadata,
}
use opencode_a2a_serve.OutputModes.Aggregator.{
  TaskManager, Consumption, is_auth_required, transform_event, take_event, consume_all, with_task,
  breaking, consume_and_break_on_interrupt, continue_consuming,
}

abbrev pub is_message : Payload → Bool
is_message (message m) = true
is_message _ = false

-- No event of a list is a message.
abbrev pub NoMessages : List Payload → Type 0
NoMessages [] = Unit
NoMessages (event ∷ events) = (is_message event ≡ false) × NoMessages events

filter-is_message :
    (dumps : Fields → String) (modes : List String) (p q : Payload)
    → filter_payload dumps modes p ≡ some q
    → is_message q ≡ is_message p
unfolding filter_payload
filter-is_message dumps modes (artifact_update a others) q h = ground (arith, h)
filter-is_message dumps modes (status_update m others) q h = ground (arith, h)
filter-is_message dumps modes (task t) q h = ground (arith, h)
filter-is_message dumps modes (message m) q h = ground (arith, h)
filter-is_message dumps modes (other_payload others) q h = ground (arith, h)

apply-is_message :
    (lower : String → String) (dumps : Fields → String) (accepted : Option (List (Option String)))
    (p q : Payload)
    → apply_accepted_output_modes lower dumps accepted p ≡ some q
    → is_message q ≡ is_message p
unfolding apply_accepted_output_modes
apply-is_message lower dumps accepted p q h =
    elim (Option-cases (normalize_accepted_output_modes lower accepted)) [
      | inl n ↦ ground (arith, n, h)
      | inr (modes, n) ↦ filter-is_message dumps modes p q (ground (arith, n, h))
    ]

annotate-is_message :
    (lower : String → String) (accepted : Option (List (Option String))) (p : Payload)
    → is_message (annotate lower accepted p) ≡ is_message p
unfolding annotate
annotate-is_message lower accepted (artifact_update a others) = refl
annotate-is_message lower accepted (status_update m others) = refl
annotate-is_message lower accepted (task t) = refl
annotate-is_message lower accepted (message m) = refl
annotate-is_message lower accepted (other_payload others) = refl

annotated-is_message :
    (lower : String → String) (accepted : Option (List (Option String))) (p : Payload)
    → is_message (annotate_output_negotiation_metadata lower p accepted) ≡ is_message p
unfolding annotate_output_negotiation_metadata
annotated-is_message lower accepted p =
    elim (Option-cases (normalize_accepted_output_modes lower accepted)) [
      | inl n ↦ ground (arith, n)
      | inr (modes, n) ↦ ground (arith, n, annotate-is_message lower (as_source (some modes)) p)
    ]

module _ {S : Type 0} (lower : String → String) (dumps : Fields → String) (manager : TaskManager S)
    (modes : Option (List String)) where
  abbrev all : List Payload → S → Consumption S
  all events s = consume_all lower dumps manager modes events s

  abbrev broken : Bool → List Payload → S → Consumption S
  broken blocking events s =
      consume_and_break_on_interrupt lower dumps manager modes blocking events s

  abbrev go_on : List Payload → S → S
  go_on events s = continue_consuming lower dumps manager modes (λ s. s) events s

  abbrev taken : Payload → S → S
  taken q s = take_event lower dumps manager modes q s

  module _ (event : Payload) (events : List Payload) (s : S) where
    module _ (skips : transform_event lower dumps manager modes event ≡ none) where
      all_skips : all (event ∷ events) s ≡ all events s
      unfolding consume_all
      all_skips = rw (skips, consume_all)

      go_on_skips : go_on (event ∷ events) s ≡ go_on events s
      unfolding continue_consuming
      go_on_skips = rw (skips, continue_consuming)

      broken_skips :
          (blocking : Bool) → broken blocking (event ∷ events) s ≡ broken blocking events s
      unfolding consume_and_break_on_interrupt
      broken_skips blocking = rw (skips, consume_and_break_on_interrupt)

    transform-is_message :
        (q : Payload)
        → transform_event lower dumps manager modes event ≡ some q
        → is_message q ≡ is_message event
    unfolding transform_event
    transform-is_message q h =
        elim (Option-cases (apply_accepted_output_modes lower dumps (as_source modes) event)) [
          | inl e ↦ absurd (ground (arith, e, h))
          | inr (kept, e) ↦ ground (
            arith,
            e,
            h,
            apply-is_message lower dumps (as_source modes) event kept e,
            annotated-is_message lower (as_source modes) kept,
          )
        ]

    all_takes :
        (q : Payload)
        → transform_event lower dumps manager modes event ≡ some q
        → is_message q ≡ false
        → all (event ∷ events) s ≡ all events (taken q s)
    unfolding consume_all
    all_takes (message m) e h = absurd (ground (arith, h))
    all_takes (artifact_update a others) e h = rw (e, consume_all)
    all_takes (status_update m others) e h = rw (e, consume_all)
    all_takes (task t) e h = rw (e, consume_all)
    all_takes (other_payload others) e h = rw (e, consume_all)

    go_on_takes :
        (q : Payload)
        → transform_event lower dumps manager modes event ≡ some q
        → go_on (event ∷ events) s ≡ go_on events (taken q s)
    unfolding continue_consuming
    go_on_takes q e = rw (e, continue_consuming)

    -- What follows an event, by whether the consumption breaks off
    abbrev breaks_if : Bool → Bool → Payload → Consumption S
    breaks_if stops blocking q = elim stops [
      | true ↦ breaking lower dumps manager modes events (taken q s)
      | false ↦ broken blocking events (taken q s)
    ]

    broken_takes :
        (blocking : Bool) (q : Payload)
        → transform_event lower dumps manager modes event ≡ some q
        → is_message q ≡ false
        → broken blocking (event ∷ events) s
          ≡ breaks_if (is_auth_required q || not blocking) blocking q
    unfolding consume_and_break_on_interrupt
    broken_takes blocking (message m) e h = absurd (ground (arith, h))
    broken_takes blocking (artifact_update a others) e h = rw (e, consume_and_break_on_interrupt)
    broken_takes blocking (status_update m others) e h = rw (e, consume_and_break_on_interrupt)
    broken_takes blocking (task t) e h = rw (e, consume_and_break_on_interrupt)
    broken_takes blocking (other_payload others) e h = rw (e, consume_and_break_on_interrupt)

  go_on-eq-all :
      (events : List Payload) (s : S) → NoMessages events → go_on events s ≡ (all events s).state
  unfolding continue_consuming consume_all with_task
  go_on-eq-all [] s free = refl
  go_on-eq-all (event ∷ events) s (other, free) =
      elim (Option-cases (transform_event lower dumps manager modes event)) [
        | inl e ↦
            go_on_skips event events s e
            ∙ go_on-eq-all events s free
            ∙ ap (λ c. c.state) (sym (all_skips event events s e))
        | inr (q, e) ↦
            go_on_takes event events s q e
            ∙ go_on-eq-all events (taken q s) free
            ∙ ap (λ c. c.state)
                (sym
                  (all_takes event events s q e (transform-is_message event events s q e ∙ other)))
      ]

  -- What a consumption comes to once the background is done
  abbrev finished : Consumption S → S
  finished c = go_on c.left c.state

  breaks_if-eq-all :
      (event : Payload) (events : List Payload) (s : S) (stops blocking : Bool) (q : Payload)
      → NoMessages events
      → finished (broken blocking events (taken q s)) ≡ (all events (taken q s)).state
      → finished (breaks_if event events s stops blocking q) ≡ (all events (taken q s)).state
  unfolding breaking
  breaks_if-eq-all event events s true blocking q free ih = go_on-eq-all events (taken q s) free
  breaks_if-eq-all event events s false blocking q free ih = ih

  -- When no event is a message, then a consumption that may break off, blocking or not, followed
  -- by the consumption of what it left without a callback, ends in the same state of the task
  -- manager as `consume_all` on all the events.
  pub interrupted-eq-consume_all :
      (blocking : Bool) (events : List Payload) (s : S)
      → NoMessages events
      → continue_consuming lower dumps manager modes
          (λ s. s)
          (consume_and_break_on_interrupt lower dumps manager modes blocking events s).left
          (consume_and_break_on_interrupt lower dumps manager modes blocking events s).state
        ≡ (consume_all lower dumps manager modes events s).state
  unfolding continue_consuming consume_all consume_and_break_on_interrupt with_task
  interrupted-eq-consume_all blocking [] s free = refl
  interrupted-eq-consume_all blocking (event ∷ events) s (other, free) =
      elim (Option-cases (transform_event lower dumps manager modes event)) [
        | inl e ↦
            ap finished (broken_skips event events s e blocking)
            ∙ interrupted-eq-consume_all blocking events s free
            ∙ ap (λ c. c.state) (sym (all_skips event events s e))
        | inr (q, e) ↦
            let quiet = transform-is_message event events s q e ∙ other in
            ap finished (broken_takes event events s blocking q e quiet)
            ∙ breaks_if-eq-all event events s (is_auth_required q || not blocking) blocking q free
                (interrupted-eq-consume_all blocking events (taken q s) free)
            ∙ ap (λ c. c.state) (sym (all_takes event events s q e quiet))
      ]
