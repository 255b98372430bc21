-- ===== src/OutputModes/Aggregator/Kept.antt =====
-- The modes that `NegotiatingResultAggregator` of src/opencode_a2a/output_modes.py writes into the task.
use opencode_a2a_serve.Base.Names.{String, true, Option, some, List, ◌≡◌, sym, ap, ◌∙◌, inl, inr}
use opencode_a2a_serve.Base.Equality.{Bool-cases}
use opencode_a2a_serve.Base.Text.{strip, text_leb}
use opencode_a2a_serve.Base.TextOrder.{text_leb_total, text_leb_trans}
use opencode_a2a_serve.Base.Sort.{sorted, sorted_same, sorted-IsSorted}
use opencode_a2a_serve.Base.Value.{Value, Fields, get, put, get-put_self}
use opencode_a2a_serve.OutputModes.{
  Artifact, Task, Payload, artifact_update, normalize_accepted_output_modes,
}
use opencode_a2a_serve.OutputModes.Metadata.{
  as_texts, merge_output_negotiation_metadata, extract_accepted_output_modes_from_metadata,
}
use opencode_a2a_serve.OutputModes.Metadata.Normal.{normalize_again}
use opencode_a2a_serve.OutputModes.Metadata.Recorded.{Records, extract-merge}
use opencode_a2a_serve.OutputModes.Aggregator.{
  TaskManager, transform_event, save_modes, persist_output_negotiation_metadata,
}
use opencode_a2a_serve.OutputModes.Aggregator.Laws.{transform-IsNegotiated}

-- The manager has the task that it saved or ensured last, and metadata that are the same name the same
-- modes.
pub record KeepsTask (lower : String → String) {S : Type 0} (manager : TaskManager S) : Type 0 where
  pub saved : (t : Task) (s : S) → manager.get_task (manager.save_task t s) ≡ some t
  pub ensured :
      (event : Payload) (s : S)
      → manager.get_task (manager.ensure_task event s).1 ≡ some (manager.ensure_task event s).0
  pub same :
      (a b : Value)
      → manager.same_metadata a b ≡ true
      → extract_accepted_output_modes_from_metadata lower a
        ≡ extract_accepted_output_modes_from_metadata lower b

-- The task that the manager has names the modes.
abbrev pub TaskRecords : (String → String) → {S : Type 0} → TaskManager S → List String → S → Type 0
TaskRecords lower manager accepted s =
    (t : Task) × (manager.get_task s ≡ some t)
    × Records lower accepted (get "metadata" t.task_others)

sorted_twice : (xs : List String) → sorted text_leb (sorted text_leb xs) ≡ sorted text_leb xs
sorted_twice xs =
    sorted_same text_leb (sorted text_leb xs)
      (sorted-IsSorted text_leb text_leb_total text_leb_trans xs)

module _ (lower : String → String)
    (lower_again : (s : String) → lower (strip (lower (strip s))) ≡ lower (strip s)) {S : Type 0}
    (dumps : Fields → String) (manager : TaskManager S) (keeps : KeepsTask lower manager)
    (modes : List String) where
  abbrev after_save : List String → Task → S → S
  after_save accepted t s = save_modes lower dumps manager (some modes) accepted (t, s)

  abbrev merged : List String → Task → Value
  merged accepted t =
      merge_output_negotiation_metadata lower (get "metadata" t.task_others)
        (some (as_texts accepted))

  save-TaskRecords :
      (accepted : List String) (t : Task) (s : S)
      → manager.get_task s ≡ some t
      → Records lower accepted (merged accepted t)
      → TaskRecords lower manager accepted (after_save accepted t s)
  unfolding save_modes
  save-TaskRecords accepted t s has recorded =
      elim (Bool-cases (manager.same_metadata (merged accepted t) (get "metadata" t.task_others))) [
        | inl same ↦ rw same (t, has, sym (keeps.same _ _ same) ∙ recorded)
        | inr differ ↦
            let t' = record t { task_others = put "metadata" (merged accepted t) t.task_others } in
            rw differ (
              t',
              keeps.saved t' s,
              rw (get-put_self "metadata" (merged accepted t) t.task_others) recorded,
            )
      ]

  normalized_extract :
      (metadata : Value) (accepted : List String)
      → extract_accepted_output_modes_from_metadata lower metadata ≡ some accepted
      → normalize_accepted_output_modes lower (some (as_texts accepted)) ≡ some accepted
  unfolding extract_accepted_output_modes_from_metadata
  normalized_extract metadata accepted h = normalize_again lower lower_again _ accepted h

  persist-TaskRecords :
      (a : Artifact) (others : Fields) (accepted : List String) (s : S)
      → extract_accepted_output_modes_from_metadata lower (get "metadata" others) ≡ some accepted
      → TaskRecords lower manager accepted (
          persist_output_negotiation_metadata lower dumps manager
            (some modes)
            (artifact_update a others)
            s)
  unfolding persist_output_negotiation_metadata
  persist-TaskRecords a others accepted s h =
      let event = artifact_update a others in
      let ensured = manager.ensure_task event s in
      rw (h, persist_output_negotiation_metadata)
        (save-TaskRecords accepted ensured.0 ensured.1 (keeps.ensured event s)
          (extract-merge lower lower_again (get "metadata" ensured.0.task_others)
            (some (as_texts accepted)) accepted
            (normalized_extract (get "metadata" others) accepted h)).0)

  -- For lower-casing that is settled after one round, and a task manager that keeps the task that
  -- it ensured or saved last: when the aggregator with modes that come from a normalization lets
  -- an event through as an artifact update, persisting its negotiation leaves the manager with a
  -- task whose metadata record the modes.
  pub persist-RecordsModes :
      (accepted : Option (List (Option String))) (event : Payload) (a : Artifact) (others : Fields)
      (s : S)
      → normalize_accepted_output_modes lower accepted ≡ some modes
      → transform_event lower dumps manager (some modes) event ≡ some (artifact_update a others)
      → TaskRecords lower manager modes (
          persist_output_negotiation_metadata lower dumps manager
            (some modes)
            (artifact_update a others)
            s)
  persist-RecordsModes accepted event a others s n h =
      let recorded =
        (transform-IsNegotiated lower modes lower_again accepted n dumps manager event _ h).1 in
      let (t, has, names) = persist-TaskRecords a others (sorted text_leb modes) s recorded in
      (t, has, names ∙ ap some (sorted_twice modes))
