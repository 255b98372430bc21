-- ===== src/OutputModes/Aggregator/Laws.antt =====
-- What `NegotiatingResultAggregator` of src/opencode_a2a/output_modes.py lets through and records.
use opencode_a2a_serve.Base.Names.{
  String, Option, none, some, List, [], ◌∷◌, ◌≡◌, subst, arith, inl, inr,
}
use opencode_a2a_serve.Base.Equality.{Option-cases}
use opencode_a2a_serve.Base.Text.{strip}
use opencode_a2a_serve.Base.Value.{Fields, get, get-put_self}
use opencode_a2a_serve.OutputModes.{
  Payload, artifact_update, status_update, task, message, other_payload,
  normalize_accepted_output_modes, apply_accepted_output_modes,
}
use opencode_a2a_serve.OutputModes.Laws.{PayloadIsAccepted, apply-PayloadIsAccepted}
use opencode_a2a_serve.OutputModes.Metadata.{
  as_texts, with_metadata, annotate, merge_output_negotiation_metadata,
  annotate_output_negotiation_metadata,
}
use opencode_a2a_serve.OutputModes.Metadata.Normal.{normalize_again}
use opencode_a2a_serve.OutputModes.Metadata.Recorded.{Records, extract-merge}
use opencode_a2a_serve.OutputModes.Aggregator.{
  TaskManager, transform_event, take_event, emitting, consume_and_emit,
}

module _ (lower : String → String) (modes : List String) where
  -- A task and an update carry the modes; a message carries none.
  abbrev pub PayloadRecords : Payload → Type 0
  PayloadRecords (task t) = Records lower modes (get "metadata" t.task_others)
  PayloadRecords (status_update m others) = Records lower modes (get "metadata" others)
  PayloadRecords (artifact_update a others) = Records lower modes (get "metadata" others)
  PayloadRecords (message m) = Unit
  PayloadRecords (other_payload others) = Unit

  -- Each payload of a list has only parts that are accepted, and records the modes.
  abbrev pub AllNegotiated : List Payload → Type 0
  AllNegotiated [] = Unit
  AllNegotiated (p ∷ ps) = PayloadIsAccepted modes p × PayloadRecords p × AllNegotiated ps

  module _ (lower_again : (s : String) → lower (strip (lower (strip s))) ≡ lower (strip s))
      (accepted : Option (List (Option String)))
      (n : normalize_accepted_output_modes lower accepted ≡ some modes) where
    with_metadata-Records :
        (others : Fields)
        → Records lower modes (get "metadata" (with_metadata lower (some (as_texts modes)) others))
    unfolding with_metadata
    with_metadata-Records others =
        rw
          (get-put_self "metadata"
            (merge_output_negotiation_metadata lower (get "metadata" others)
              (some (as_texts modes)))
            others)
          (extract-merge lower lower_again (get "metadata" others) (some (as_texts modes)) modes
            (normalize_again lower lower_again accepted modes n)).0

    annotate-IsNegotiated :
        (p : Payload)
        → PayloadIsAccepted modes p
        → PayloadIsAccepted modes (annotate lower (some (as_texts modes)) p)
          × PayloadRecords (annotate lower (some (as_texts modes)) p)
    unfolding annotate
    annotate-IsNegotiated (task t) h = (h, with_metadata-Records t.task_others)
    annotate-IsNegotiated (status_update m others) h = (h, with_metadata-Records others)
    annotate-IsNegotiated (artifact_update a others) h = (h, with_metadata-Records others)
    annotate-IsNegotiated (message m) h = (h, tt)
    annotate-IsNegotiated (other_payload others) h = (h, tt)

    annotated_lem :
        (p : Payload)
        → annotate_output_negotiation_metadata lower p (some (as_texts modes))
          ≡ annotate lower (some (as_texts modes)) p
    unfolding annotate_output_negotiation_metadata
    annotated_lem p =
        rw
          (normalize_again lower lower_again accepted modes n, annotate_output_negotiation_metadata)

    module _ {S : Type 0} (dumps : Fields → String) (manager : TaskManager S) where
      pub transform-IsNegotiated :
          (p q : Payload)
          → transform_event lower dumps manager (some modes) p ≡ some q
          → PayloadIsAccepted modes q × PayloadRecords q
      unfolding transform_event
      transform-IsNegotiated p q h =
          elim (Option-cases (apply_accepted_output_modes lower dumps (some (as_texts modes)) p)) [
            | inl e ↦ absurd (ground (arith, e, h))
            | inr (kept, e) ↦
                subst (λ r. PayloadIsAccepted modes r × PayloadRecords r)
                  (ground (arith, e, h, annotated_lem kept))
                  (annotate-IsNegotiated kept (
                    apply-PayloadIsAccepted lower dumps (some (as_texts modes)) modes p kept
                      (normalize_again lower lower_again accepted modes n) e))
          ]

      -- How the loop goes on
      emit_skips :
          (event : Payload) (events : List Payload) (s : S)
          → transform_event lower dumps manager (some modes) event ≡ none
          → consume_and_emit lower dumps manager (some modes) (event ∷ events) s
            ≡ consume_and_emit lower dumps manager (some modes) events s
      unfolding consume_and_emit
      emit_skips event events s e = rw (e, consume_and_emit)

      emit_yields :
          (event q : Payload) (events : List Payload) (s : S)
          → transform_event lower dumps manager (some modes) event ≡ some q
          → consume_and_emit lower dumps manager (some modes) (event ∷ events) s
            ≡ emitting lower dumps manager (some modes) q (
                consume_and_emit lower dumps manager
                  (some modes)
                  events
                  (take_event lower dumps manager (some modes) q s))
      unfolding consume_and_emit
      emit_yields event q events s e = rw (e, consume_and_emit)

      -- For lower-casing that is settled after one round: whatever the events, when the aggregator
      -- has modes that come from a normalization, each payload that `consume_and_emit` yields has
      -- only parts of an accepted media type or of none that is known, and each task, status
      -- update and artifact update among them records the modes in its metadata.
      pub consume_and_emit-AllNegotiated :
          (events : List Payload) (s : S)
          → AllNegotiated (consume_and_emit lower dumps manager (some modes) events s).0
      unfolding consume_and_emit emitting
      consume_and_emit-AllNegotiated [] s = tt
      consume_and_emit-AllNegotiated (event ∷ events) s =
          elim (Option-cases (transform_event lower dumps manager (some modes) event)) [
            | inl e ↦ rw (emit_skips event events s e) (consume_and_emit-AllNegotiated events s)
            | inr (q, e) ↦
                let (ok, recorded) = transform-IsNegotiated event q e in
                let rest =
                  consume_and_emit-AllNegotiated events
                    (take_event lower dumps manager (some modes) q s) in
                rw (emit_yields event q events s e) (ok, recorded, rest)
          ]
