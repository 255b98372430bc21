-- ===== src/OutputModes/Laws.antt =====
-- What src/opencode_a2a/output_modes.py lets through, and that filtering again changes nothing.
use opencode_a2a_serve.Base.Names.{
  String, true, Option, none, some, List, [], ◌∷◌, ◌≡◌, refl, arith, inl, inr,
}
use opencode_a2a_serve.Base.Equality.{string_eq, contains, if◌then◌else◌, Bool-cases, Option-cases}
use opencode_a2a_serve.Base.Value.{Fields}
use opencode_a2a_serve.OutputModes.{
  AnyPart, text_part, Message, Artifact, Task, Payload, artifact_update, status_update, task,
  message, other_payload, part_media_type, text_fallback, accepts, filter_part, filter_parts,
  filter_message, filter_artifact, filter_optional_message, filter_history, filter_artifacts,
  filter_optional_history, filter_optional_artifacts, filter_task, filter_payload,
  normalize_accepted_output_modes, apply_accepted_output_modes,
}

module _ (modes : List String) where
  abbrev pub AllAccepted : List AnyPart → Type 0
  AllAccepted [] = Unit
  AllAccepted (part ∷ rest) = (accepts modes (part_media_type part) ≡ true) × AllAccepted rest

  abbrev pub AllMessages : List Message → Type 0
  AllMessages [] = Unit
  AllMessages (m ∷ rest) = AllAccepted m.parts × AllMessages rest

  abbrev pub AllArtifacts : List Artifact → Type 0
  AllArtifacts [] = Unit
  AllArtifacts (a ∷ rest) = AllAccepted a.artifact_parts × AllArtifacts rest

  abbrev pub OptionalMessage : Option Message → Type 0
  OptionalMessage none = Unit
  OptionalMessage (some m) = AllAccepted m.parts

  abbrev pub OptionalHistory : Option (List Message) → Type 0
  OptionalHistory none = Unit
  OptionalHistory (some ms) = AllMessages ms

  abbrev pub OptionalArtifacts : Option (List Artifact) → Type 0
  OptionalArtifacts none = Unit
  OptionalArtifacts (some xs) = AllArtifacts xs

  -- Each part of a payload has no media type or an accepted one.
  abbrev pub PayloadIsAccepted : Payload → Type 0
  PayloadIsAccepted (artifact_update a _) = AllAccepted a.artifact_parts
  PayloadIsAccepted (status_update m _) = OptionalMessage m
  PayloadIsAccepted (task t) =
      OptionalMessage t.status_message × OptionalHistory t.history × OptionalArtifacts t.artifacts
  PayloadIsAccepted (message m) = AllAccepted m.parts
  PayloadIsAccepted (other_payload _) = Unit

module _ (dumps : Fields → String) (modes : List String) where
  filter_part_same :
      (p : AnyPart) → accepts modes (part_media_type p) ≡ true → filter_part dumps modes p ≡ some p
  unfolding filter_part
  filter_part_same p h = rw h refl

  fallback_accepted :
      (o : Option String) (q : AnyPart)
      → (if contains modes "text/plain"
          then (elim o [ none ↦ none | some text ↦ some (text_part text) ])
          else none)
        ≡ some q
      → accepts modes (part_media_type q) ≡ true
  unfolding accepts part_media_type
  fallback_accepted o (text_part _) h = ground arith
  fallback_accepted o q h = absurd (ground arith)

  filter_part_accepted :
      (p q : AnyPart)
      → filter_part dumps modes p ≡ some q
      → accepts modes (part_media_type q) ≡ true
  unfolding filter_part
  filter_part_accepted p q h = elim (Bool-cases (accepts modes (part_media_type p))) [
    | inl ok ↦ ground (arith, ok, h)
    | inr refused ↦ fallback_accepted (text_fallback dumps p) q (ground (arith, refused, h))
  ]

  filter_parts-AllAccepted : (ps : List AnyPart) → AllAccepted modes (filter_parts dumps modes ps)
  unfolding filter_parts
  filter_parts-AllAccepted [] = tt
  filter_parts-AllAccepted (p ∷ ps) = elim (Option-cases (filter_part dumps modes p)) [
    | inl e ↦ ground (arith, e, filter_parts-AllAccepted ps)
    | inr (q, e) ↦ ground (arith, e, filter_part_accepted p q e, filter_parts-AllAccepted ps)
  ]

  filter_parts_same : (ps : List AnyPart) → AllAccepted modes ps → filter_parts dumps modes ps ≡ ps
  unfolding filter_parts
  filter_parts_same [] h = refl
  filter_parts_same (p ∷ ps) (ok, h) = ground (arith, filter_part_same p ok, filter_parts_same ps h)

  message_kept :
      (m k : Message)
      → filter_message dumps modes m ≡ some k
      → AllAccepted modes k.parts × (filter_message dumps modes k ≡ some k)
  unfolding filter_message
  message_kept m k h =
      let ok = filter_parts-AllAccepted m.parts in
      let same = filter_parts_same (filter_parts dumps modes m.parts) ok in
      ground (arith, ok, same, h)

  artifact_kept :
      (a k : Artifact)
      → filter_artifact dumps modes a ≡ some k
      → AllAccepted modes k.artifact_parts × (filter_artifact dumps modes k ≡ some k)
  unfolding filter_artifact
  artifact_kept a k h =
      let ok = filter_parts-AllAccepted a.artifact_parts in
      let same = filter_parts_same (filter_parts dumps modes a.artifact_parts) ok in
      ground (arith, ok, same, h)

  history_kept :
      (ms : List Message)
      → AllMessages modes (filter_history dumps modes ms)
        × (filter_history dumps modes (filter_history dumps modes ms)
            ≡ filter_history dumps modes ms)
  unfolding filter_history
  history_kept [] = (tt, refl)
  history_kept (m ∷ ms) = elim (Option-cases (filter_message dumps modes m)) [
    | inl e ↦ ground (arith, e, history_kept ms)
    | inr (k, e) ↦ ground (arith, e, message_kept m k e, history_kept ms)
  ]

  artifacts_kept :
      (xs : List Artifact)
      → AllArtifacts modes (filter_artifacts dumps modes xs)
        × (filter_artifacts dumps modes (filter_artifacts dumps modes xs)
            ≡ filter_artifacts dumps modes xs)
  unfolding filter_artifacts
  artifacts_kept [] = (tt, refl)
  artifacts_kept (a ∷ xs) = elim (Option-cases (filter_artifact dumps modes a)) [
    | inl e ↦ ground (arith, e, artifacts_kept xs)
    | inr (k, e) ↦ ground (arith, e, artifact_kept a k e, artifacts_kept xs)
  ]

  optional_kept :
      (m : Option Message)
      → OptionalMessage modes (filter_optional_message dumps modes m)
        × (filter_optional_message dumps modes (filter_optional_message dumps modes m)
            ≡ filter_optional_message dumps modes m)
  unfolding filter_optional_message
  optional_kept none = (tt, refl)
  optional_kept (some m) = elim (Option-cases (filter_message dumps modes m)) [
    | inl e ↦ ground (arith, e)
    | inr (k, e) ↦ ground (arith, e, message_kept m k e)
  ]

  kept_history :
      (o : Option (List Message))
      → OptionalHistory modes (filter_optional_history dumps modes o)
        × (filter_optional_history dumps modes (filter_optional_history dumps modes o)
            ≡ filter_optional_history dumps modes o)
  unfolding filter_optional_history
  kept_history none = (tt, refl)
  kept_history (some ms) = ground (arith, history_kept ms)

  kept_artifacts :
      (o : Option (List Artifact))
      → OptionalArtifacts modes (filter_optional_artifacts dumps modes o)
        × (filter_optional_artifacts dumps modes (filter_optional_artifacts dumps modes o)
            ≡ filter_optional_artifacts dumps modes o)
  unfolding filter_optional_artifacts
  kept_artifacts none = (tt, refl)
  kept_artifacts (some xs) = ground (arith, artifacts_kept xs)

  task_kept :
      (t : Task)
      → PayloadIsAccepted modes (task (filter_task dumps modes t))
        × (filter_task dumps modes (filter_task dumps modes t) ≡ filter_task dumps modes t)
  unfolding filter_task
  task_kept t =
      ground
        (arith, optional_kept t.status_message, kept_history t.history, kept_artifacts t.artifacts)

  emptied : (m : Message) → filter_message dumps modes (record m { parts = [] }) ≡ none
  unfolding filter_message filter_parts
  emptied m = refl

  payload_kept :
      (p q : Payload)
      → filter_payload dumps modes p ≡ some q
      → PayloadIsAccepted modes q × (filter_payload dumps modes q ≡ some q)
  unfolding filter_payload
  payload_kept (artifact_update a o) q h = elim (Option-cases (filter_artifact dumps modes a)) [
    | inl e ↦ absurd (ground (arith, e, h))
    | inr (k, e) ↦ ground (arith, e, h, artifact_kept a k e)
  ]
  payload_kept (status_update m o) q h = ground (arith, h, optional_kept m)
  payload_kept (task t) q h = ground (arith, h, task_kept t)
  payload_kept (message m) q h = elim (Option-cases (filter_message dumps modes m)) [
    | inl e ↦ ground (arith, e, h, emptied m)
    | inr (k, e) ↦ ground (arith, e, h, message_kept m k e)
  ]
  payload_kept (other_payload o) q h = ground (arith, h)

-- When the accepted output modes come out as a list of modes, and a payload is sent at all, then
-- each part of what is sent, in artifacts, messages, status and history alike, has an accepted
-- media type or none that is known.
pub apply-PayloadIsAccepted :
    (lower : String → String) (dumps : Fields → String) (accepted : Option (List (Option String)))
    (modes : List String) (p q : Payload)
    → normalize_accepted_output_modes lower accepted ≡ some modes
    → apply_accepted_output_modes lower dumps accepted p ≡ some q
    → PayloadIsAccepted modes q
unfolding apply_accepted_output_modes
apply-PayloadIsAccepted lower dumps accepted modes p q n h =
    (payload_kept dumps modes p q (ground (arith, n, h))).0

-- What the filter for some accepted output modes sends, it sends unchanged when it is applied
-- again.
pub apply_again :
    (lower : String → String) (dumps : Fields → String) (accepted : Option (List (Option String)))
    (p q : Payload)
    → apply_accepted_output_modes lower dumps accepted p ≡ some q
    → apply_accepted_output_modes lower dumps accepted q ≡ some q
unfolding apply_accepted_output_modes
apply_again lower dumps accepted p q h =
    elim (Option-cases (normalize_accepted_output_modes lower accepted)) [
      | inl n ↦ ground (arith, n)
      | inr (modes, n) ↦ ground (arith, n, payload_kept dumps modes p q (ground (arith, n, h)))
    ]
