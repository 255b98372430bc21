-- ===== src/OutputModes/Metadata.antt =====
-- The metadata of src/opencode_a2a/output_modes.py that record which output modes were negotiated. Where
-- the source takes an iterable of modes, the model takes what `_accepted_output_modes_source` gives.
pub mod Normal
pub mod Recorded
use opencode_a2a_serve.Base.Names.{String, Option, none, some, List, [], ◌∷◌}
use opencode_a2a_serve.Base.Text.{text_leb}
use opencode_a2a_serve.Base.Value.{
  Value, null, array, dict, str, Items, nil, cons, Fields, end, field, get, put, as_str, as_mapping,
}
use opencode_a2a_serve.Base.Sort.{sorted}
use opencode_a2a_serve.OutputModes.{
  Task, Payload, artifact_update, status_update, task, message, other_payload,
  normalize_accepted_output_modes,
}

-- The elements of a list, of which `none` is no text
unfoldable pub texts : Items → List (Option String)
texts nil = []
texts (cons v rest) = as_str v ∷ texts rest

-- `_accepted_output_modes_source`, for a value that comes from JSON
unfoldable pub modes_source : Value → Option (List (Option String))
unfolding texts
modes_source (array items) = some (texts items)
modes_source _ = none

-- A tuple of modes as a source of modes
abbrev pub as_texts : List String → List (Option String)
as_texts [] = []
as_texts (mode ∷ modes) = some mode ∷ as_texts modes

abbrev pub as_source : Option (List String) → Option (List (Option String))
as_source none = none
as_source (some modes) = some (as_texts modes)

-- A list of texts
unfoldable pub of_texts : List String → Items
of_texts [] = nil
of_texts (text ∷ rest) = cons (str text) (of_texts rest)

-- `dict(value) if isinstance(value, dict) else {}`
abbrev pub fields_or_empty : Value → Fields
fields_or_empty (dict fields) = fields
fields_or_empty _ = end

-- `build_output_negotiation_metadata` once the modes are known
unfoldable pub negotiation : List String → Fields
unfolding of_texts
negotiation modes =
    let accepted = field "accepted_output_modes" (array (of_texts (sorted text_leb modes))) end in
    field "opencode" (dict (field "output_negotiation" (dict accepted) end)) end

-- What `merge_output_negotiation_metadata` returns once the negotiation is built
unfoldable pub merged_metadata : Value → Fields → Value
merged_metadata metadata built =
    let merged = fields_or_empty metadata in
    let opencode = fields_or_empty (get "opencode" merged) in
    let negotiated =
      fields_or_empty (get "output_negotiation" (fields_or_empty (get "opencode" built))) in
    dict (put "opencode" (dict (put "output_negotiation" (dict negotiated) opencode)) merged)

-- The value of a key of a dict, and `None` for what is no dict
abbrev pub get_of : String → Value → Value
get_of key (dict fields) = get key fields
get_of key _ = null

-- `lower` is Python's `str.lower`.
module _ (lower : String → String) where
  -- `build_output_negotiation_metadata`
  unfoldable pub build_output_negotiation_metadata : Option (List (Option String)) → Option Fields
  build_output_negotiation_metadata accepted =
      elim (normalize_accepted_output_modes lower accepted) [
        | none ↦ none
        | some modes ↦ some (negotiation modes)
      ]

  -- `merge_output_negotiation_metadata`
  unfoldable pub merge_output_negotiation_metadata : Value → Option (List (Option String)) → Value
  merge_output_negotiation_metadata metadata accepted =
      elim (build_output_negotiation_metadata accepted) [
        | none ↦ metadata
        | some built ↦ merged_metadata metadata built
      ]

  -- `extract_accepted_output_modes_from_metadata`. A value that is no dict has no modes.
  unfoldable pub extract_accepted_output_modes_from_metadata : Value → Option (List String)
  extract_accepted_output_modes_from_metadata metadata = normalize_accepted_output_modes lower (
      modes_source
        (get_of "accepted_output_modes" (get_of "output_negotiation" (get_of "opencode" metadata))))

  -- `payload.model_copy(update={"metadata": ...})`, on the fields that are copied
  unfoldable pub with_metadata : Option (List (Option String)) → Fields → Fields
  with_metadata accepted others =
      put "metadata" (merge_output_negotiation_metadata (get "metadata" others) accepted) others

  -- `annotate_output_negotiation_metadata` once the modes are known
  unfoldable pub annotate : Option (List (Option String)) → Payload → Payload
  annotate accepted (task t) =
      task (record t { task_others = with_metadata accepted t.task_others })
  annotate accepted (status_update m others) = status_update m (with_metadata accepted others)
  annotate accepted (artifact_update a others) = artifact_update a (with_metadata accepted others)
  annotate accepted (message m) = message m
  annotate accepted (other_payload others) = other_payload others

  -- `annotate_output_negotiation_metadata`
  unfoldable pub annotate_output_negotiation_metadata :
      Payload → Option (List (Option String)) → Payload
  annotate_output_negotiation_metadata payload accepted =
      elim (normalize_accepted_output_modes lower accepted) [
        | none ↦ payload
        | some modes ↦ annotate (as_source (some modes)) payload
      ]
