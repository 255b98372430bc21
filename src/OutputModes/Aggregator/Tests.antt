-- ===== src/OutputModes/Aggregator/Tests.antt =====
-- The metadata and the aggregator of src/opencode_a2a/output_modes.py with a client that accepts text and
-- JSON, and a task that waits for authentication in the middle of its events.
use opencode_a2a_serve.Base.Names.{
  String, true, ◌&&◌, Option, none, some, List, [], ◌∷◌, ◌≡◌, refl, arith,
}
use opencode_a2a_serve.Base.Equality.{string_eq}
use opencode_a2a_serve.Base.Text.{strip, lower, text_leb}
use opencode_a2a_serve.Base.Text.Lower.{lower_again}
use opencode_a2a_serve.Base.Sort.{sorted, insert_sorted}
use opencode_a2a_serve.Base.Value.{
  Value, null, str, array, dict, nil, cons, Fields, end, field, get, put, is_none,
}
use opencode_a2a_serve.OutputModes.{
  Artifact, text_part, Task, Payload, artifact_update, status_update, normalize_from,
  normalize_accepted_output_modes, filter_part, filter_parts, filter_artifact,
  filter_optional_message, filter_payload, part_media_type, accepts, apply_accepted_output_modes,
}
use opencode_a2a_serve.OutputModes.Metadata.{
  of_texts, negotiation, merged_metadata, build_output_negotiation_metadata,
  merge_output_negotiation_metadata, extract_accepted_output_modes_from_metadata, with_metadata,
  annotate, annotate_output_negotiation_metadata,
}
use opencode_a2a_serve.OutputModes.Metadata.Recorded.{KeepsOthers, Records, extract-merge}
use opencode_a2a_serve.OutputModes.Aggregator.{
  TaskManager, is_auth_required, transform_event, persist_output_negotiation_metadata,
  consume_and_emit, consume_all, consume_and_break_on_interrupt, continue_consuming,
}
use opencode_a2a_serve.OutputModes.Aggregator.Laws.{AllNegotiated, consume_and_emit-AllNegotiated}
use opencode_a2a_serve.OutputModes.Aggregator.Kept.{KeepsTask, TaskRecords, persist-RecordsModes}
use opencode_a2a_serve.OutputModes.Aggregator.Interrupted.{interrupted-eq-consume_all}

abbrev dumps_none : Fields → String
dumps_none d = "{}"

abbrev wanted_modes : Option (List (Option String))
wanted_modes = some (some "text/plain" ∷ some "Application/JSON " ∷ some "text/plain" ∷ [])

abbrev modes : List String
modes = "text/plain" ∷ "application/json" ∷ []

modes_normalize : normalize_accepted_output_modes lower wanted_modes ≡ some modes
unfolding normalize_accepted_output_modes normalize_from lower strip string_eq
modes_normalize = refl

abbrev some_metadata : Value
some_metadata =
    dict (field "opencode" (dict (field "session" (str "s") end)) (field "x" (str "y") end))

abbrev recorded : Value
recorded = dict (
    field "opencode"
      (dict (
        field "session" (str "s") (
          field "output_negotiation"
            (dict (
              field "accepted_output_modes"
                (array (cons (str "application/json") (cons (str "text/plain") nil))) end))
            end)))
      (field "x" (str "y") end))

merges : merge_output_negotiation_metadata lower some_metadata wanted_modes ≡ recorded
unfolding merge_output_negotiation_metadata build_output_negotiation_metadata negotiation
    merged_metadata of_texts sorted insert_sorted text_leb get put normalize_accepted_output_modes
    normalize_from lower strip string_eq
merges = refl

extract-merge_example :
    Records lower modes (merge_output_negotiation_metadata lower some_metadata wanted_modes)
    × KeepsOthers some_metadata (merge_output_negotiation_metadata lower some_metadata wanted_modes)
extract-merge_example =
    extract-merge lower lower_again some_metadata wanted_modes modes modes_normalize

abbrev first_task : Task
first_task = record { status_message = none; history = none; artifacts = none; task_others = end }

abbrev task_of : Option Task → Task
task_of none = first_task
task_of (some t) = t

-- A manager whose state is its task
abbrev manager : TaskManager (Option Task)
manager = record {
  ensure_task = λ event s. (task_of s, some (task_of s));
  save_task = λ t s. some t;
  process = λ event s. some (task_of s);
  get_task = λ s. s;
  same_metadata = λ a b. is_none a && is_none b;
}

both_none :
    (a b : Value)
    → (is_none a && is_none b) ≡ true
    → extract_accepted_output_modes_from_metadata lower a
      ≡ extract_accepted_output_modes_from_metadata lower b
both_none null null h = refl
both_none a b h = absurd (ground (arith, h))

manager-KeepsTask : KeepsTask lower manager
manager-KeepsTask = record { saved = λ t s. refl; ensured = λ event s. refl; same = both_none }

abbrev text_update : Payload
text_update =
    artifact_update (record { artifact_parts = text_part "hi" ∷ []; artifact_others = end }) end

abbrev auth_update : Payload
auth_update =
    status_update none (field "status" (dict (field "state" (str "auth-required") end)) end)

abbrev stream : List Payload
stream = text_update ∷ auth_update ∷ text_update ∷ []

consume_and_emit-AllNegotiated_example :
    AllNegotiated lower modes (consume_and_emit lower dumps_none manager (some modes) stream none).0
consume_and_emit-AllNegotiated_example =
    consume_and_emit-AllNegotiated lower modes lower_again wanted_modes modes_normalize dumps_none
      manager stream none

interrupted-eq-consume_all_example :
    continue_consuming lower dumps_none manager
      (some modes)
      (λ s. s)
      (consume_and_break_on_interrupt lower dumps_none manager (some modes) true stream none).left
      (consume_and_break_on_interrupt lower dumps_none manager (some modes) true stream none).state
    ≡ (consume_all lower dumps_none manager (some modes) stream none).state
interrupted-eq-consume_all_example =
    interrupted-eq-consume_all lower dumps_none manager (some modes) true stream none
      (refl, (refl, (refl, tt)))

-- What the update becomes
abbrev update_sent : Fields
update_sent =
    field "metadata"
      (dict (
        field "opencode"
          (dict (
            field "output_negotiation"
              (dict (
                field "accepted_output_modes"
                  (array (cons (str "application/json") (cons (str "text/plain") nil))) end))
              end))
          end))
      end

abbrev text_artifact : Artifact
text_artifact = record { artifact_parts = text_part "hi" ∷ []; artifact_others = end }

transforms :
    transform_event lower dumps_none manager (some modes) text_update
    ≡ some (artifact_update text_artifact update_sent)
unfolding transform_event apply_accepted_output_modes annotate_output_negotiation_metadata annotate
    with_metadata merge_output_negotiation_metadata build_output_negotiation_metadata negotiation
    merged_metadata of_texts sorted insert_sorted text_leb get put normalize_accepted_output_modes
    normalize_from lower strip string_eq filter_payload filter_artifact filter_parts filter_part
    part_media_type accepts
transforms = refl

persist-RecordsModes_example : TaskRecords lower manager modes (
    persist_output_negotiation_metadata lower dumps_none manager
      (some modes)
      (artifact_update text_artifact update_sent)
      none)
persist-RecordsModes_example =
    persist-RecordsModes lower lower_again dumps_none manager manager-KeepsTask modes wanted_modes
      text_update text_artifact update_sent none modes_normalize transforms

breaks_off :
    (consume_and_break_on_interrupt lower dumps_none manager (some modes) true stream none).left
    ≡ text_update ∷ []
unfolding consume_and_break_on_interrupt is_auth_required transform_event
    apply_accepted_output_modes annotate_output_negotiation_metadata annotate with_metadata
    merge_output_negotiation_metadata build_output_negotiation_metadata negotiation merged_metadata
    of_texts sorted insert_sorted text_leb get put normalize_accepted_output_modes normalize_from
    lower strip string_eq filter_payload filter_artifact filter_optional_message filter_parts
    filter_part part_media_type accepts
breaks_off = refl
