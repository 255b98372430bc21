-- ===== src/OutputModes.antt =====
-- What a client that accepts only some media types is sent: src/opencode_a2a/output_modes.py.
pub mod Metadata
pub mod Aggregator
pub mod Laws
pub mod Tests
use opencode_a2a_serve.Base.Names.{
  String, Bool, true, false, not, ◌||◌, Option, none, some, List, [], ◌∷◌, ◌++◌,
}
use opencode_a2a_serve.Base.Equality.{◌==◌, string_eq, contains, if◌then◌else◌}
use opencode_a2a_serve.Base.Text.{is_truthy, strip}
use opencode_a2a_serve.Base.Value.{Fields}

-- `FilePart.file`, with the two attributes that are looked up
pub record File : Type 0 where
  pub mime_type : Option String
  pub mime_type_alias : Option String
  pub content : Fields

-- `Part.root`; `other_part` stands for what is of no kind that is known.
pub data AnyPart : Type 0 where
  text_part : String → AnyPart
  data_part : Fields → AnyPart
  file_part : File → AnyPart
  other_part : Fields → AnyPart

-- `others` holds the fields that are copied as they are.
pub record Message : Type 0 where
  pub parts : List AnyPart
  pub others : Fields

pub record Artifact : Type 0 where
  pub artifact_parts : List AnyPart
  pub artifact_others : Fields

pub record Task : Type 0 where
  pub status_message : Option Message
  pub history : Option (List Message)
  pub artifacts : Option (List Artifact)
  pub task_others : Fields

pub data Payload : Type 0 where
  artifact_update : Artifact → Fields → Payload
  status_update : Option Message → Fields → Payload
  task : Task → Payload
  message : Message → Payload
  other_payload : Fields → Payload

or_else : Option String → String → String
or_else none d = d
or_else (some t) d = if is_truthy t then t else d

-- `_part_media_type`
unfoldable pub part_media_type : AnyPart → Option String
unfolding or_else
part_media_type (text_part _) = some "text/plain"
part_media_type (data_part _) = some "application/json"
part_media_type (file_part f) =
    some (or_else f.mime_type (or_else f.mime_type_alias "application/octet-stream"))
part_media_type (other_part _) = none

abbrev is_wildcard : String → Bool
is_wildcard mode = mode == "*" || mode == "*/*"

-- `lower` is Python's `str.lower`.
module _ (lower : String → String) where
  -- The loop of `normalize_accepted_output_modes`; a value that is no text is `none`.
  unfoldable pub normalize_from : List (Option String) → List String → Option (List String)
  normalize_from [] [] = none
  normalize_from [] (mode ∷ rest) = some (mode ∷ rest)
  normalize_from (none ∷ values) normalized = normalize_from values normalized
  normalize_from (some value ∷ values) normalized =
      let mode = lower (strip value) in
      let skipped = normalize_from values normalized in
      let added = normalize_from values (normalized ++ mode ∷ []) in
      if not (is_truthy mode) || contains normalized mode
      then skipped
      else (if is_wildcard mode then none else added)

  -- `normalize_accepted_output_modes`, from what `_accepted_output_modes_source` gives
  unfoldable pub normalize_accepted_output_modes :
      Option (List (Option String)) → Option (List String)
  unfolding normalize_from
  normalize_accepted_output_modes none = none
  normalize_accepted_output_modes (some accepted) = normalize_from accepted []

-- `media_type is None or accepts_output_mode(...)`
unfoldable pub accepts : List String → Option String → Bool
accepts modes none = true
accepts modes (some media_type) = contains modes media_type

-- `part_text_fallback`, with `json.dumps` with sorted keys
unfoldable pub text_fallback : (Fields → String) → AnyPart → Option String
text_fallback dumps (text_part text) = some text
text_fallback dumps (data_part d) = some (dumps d)
text_fallback dumps (file_part _) = none
text_fallback dumps (other_part _) = none

module _ (dumps : Fields → String) (modes : List String) where
  -- What the loop of `_filter_parts` appends for a part
  unfoldable pub filter_part : AnyPart → Option AnyPart
  filter_part part =
      if accepts modes (part_media_type part)
      then some part
      else (if contains modes "text/plain"
          then (elim (text_fallback dumps part) [ none ↦ none | some text ↦ some (text_part text) ])
          else none)

  unfoldable pub filter_parts : List AnyPart → List AnyPart
  filter_parts [] = []
  filter_parts (part ∷ rest) = elim (filter_part part) [
    | none ↦ filter_parts rest
    | some kept ↦ kept ∷ filter_parts rest
  ]

  unfoldable pub filter_message : Message → Option Message
  filter_message m = elim (filter_parts m.parts) [
    | [] ↦ none
    | part ∷ rest ↦ some (record m { parts = part ∷ rest })
  ]

  unfoldable pub filter_artifact : Artifact → Option Artifact
  filter_artifact a = elim (filter_parts a.artifact_parts) [
    | [] ↦ none
    | part ∷ rest ↦ some (record a { artifact_parts = part ∷ rest })
  ]

  unfoldable pub filter_optional_message : Option Message → Option Message
  filter_optional_message none = none
  filter_optional_message (some m) = filter_message m

  -- The comprehensions of `_filter_task`
  unfoldable pub filter_history : List Message → List Message
  filter_history [] = []
  filter_history (m ∷ rest) = elim (filter_message m) [
    | none ↦ filter_history rest
    | some kept ↦ kept ∷ filter_history rest
  ]

  unfoldable pub filter_artifacts : List Artifact → List Artifact
  filter_artifacts [] = []
  filter_artifacts (a ∷ rest) = elim (filter_artifact a) [
    | none ↦ filter_artifacts rest
    | some kept ↦ kept ∷ filter_artifacts rest
  ]

  unfoldable pub filter_optional_history : Option (List Message) → Option (List Message)
  filter_optional_history none = none
  filter_optional_history (some ms) = some (filter_history ms)

  unfoldable pub filter_optional_artifacts : Option (List Artifact) → Option (List Artifact)
  filter_optional_artifacts none = none
  filter_optional_artifacts (some xs) = some (filter_artifacts xs)

  -- `_filter_task`
  unfoldable pub filter_task : Task → Task
  filter_task t = record t {
    status_message = filter_optional_message t.status_message;
    history = filter_optional_history t.history;
    artifacts = filter_optional_artifacts t.artifacts;
  }

  -- `apply_accepted_output_modes` once the modes are known
  unfoldable pub filter_payload : Payload → Option Payload
  filter_payload (artifact_update a others) = elim (filter_artifact a) [
    | none ↦ none
    | some kept ↦ some (artifact_update kept others)
  ]
  filter_payload (status_update m others) = some (status_update (filter_optional_message m) others)
  filter_payload (task t) = some (task (filter_task t))
  filter_payload (message m) = elim (filter_message m) [
    | some kept ↦ some (message kept)
    | none ↦ some (message (record m { parts = [] }))
  ]
  filter_payload (other_payload others) = some (other_payload others)

-- `apply_accepted_output_modes`
unfoldable pub apply_accepted_output_modes :
    (String → String) → (Fields → String) → Option (List (Option String)) → Payload → Option Payload
unfolding normalize_accepted_output_modes
apply_accepted_output_modes lower dumps accepted payload =
    elim (normalize_accepted_output_modes lower accepted) [
      | none ↦ some payload
      | some modes ↦ filter_payload dumps modes payload
    ]
