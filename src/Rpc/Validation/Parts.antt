-- ===== src/Rpc/Validation/Parts.antt =====
-- The validators of parts, models and formats in src/opencode_a2a/jsonrpc/methods.py.
use Prim.Native.Char.{code}
use opencode_a2a_serve.Base.Names.{ℕ, ◌+◌, String, ◌<>◌, Bool, true, false, ◌&&◌}
use opencode_a2a_serve.Base.Equality.{◌==◌, string_eq, nat_eq, if◌then◌else◌}
use opencode_a2a_serve.Base.Int.{pos}
use opencode_a2a_serve.Base.Text.{strip, is_truthy, show}
use opencode_a2a_serve.Base.Value.{
  Value, Items, Fields, null, bool, int, str, array, dict, nil, cons, get,
}

-- A validator returns, or raises `_PromptAsyncValidationError(field=..., message=...)`.
pub data Valid : Type 0 where
  valid : Valid
  faulty : String → String → Valid

infixl 5 ◌>>◌
abbrev pub ◌>>◌ : Valid → Valid → Valid
valid >> next = next
faulty name message >> next = faulty name message

-- `if not test: raise`
abbrev pub unless : Bool → String → String → Valid
unless test name message = if test then valid else faulty name message

-- `s.startswith(prefix)`
unfoldable pub starts_with : String → String → Bool
starts_with String.[] s = true
starts_with (String.◌∷◌ a p) String.[] = false
starts_with (String.◌∷◌ a p) (String.◌∷◌ b s) = code a == code b && starts_with p s

-- `isinstance(value, str)`
abbrev pub is_str : Value → Bool
is_str (str s) = true
is_str _ = false

-- `isinstance(value, str) and value.strip()`
abbrev pub is_given_text : Value → Bool
is_given_text (str s) = is_truthy (strip s)
is_given_text _ = false

-- `value is not None and not isinstance(value, str)`
abbrev pub is_optional_text : Value → Bool
is_optional_text null = true
is_optional_text (str s) = true
is_optional_text _ = false

-- `_validate_model_ref`
unfoldable pub validate_model_ref : Value → String → Valid
validate_model_ref (dict value) name =
    unless (is_given_text (get "providerID" value)) (name <> ".providerID")
      (name <> ".providerID must be a non-empty string")
    >> unless (is_given_text (get "modelID" value)) (name <> ".modelID")
        (name <> ".modelID must be a non-empty string")
validate_model_ref _ name = faulty name (name <> " must be an object")

-- `if (model := value.get("model")) is not None: _validate_model_ref(model, field=field)`
unfoldable pub validate_optional_model : Value → String → Valid
validate_optional_model null name = valid
validate_optional_model model name = validate_model_ref model name

-- `retry_count is None or isinstance(retry_count, int) and retry_count >= 0`; a `bool` is an `int`.
is_retry_count : Value → Bool
is_retry_count null = true
is_retry_count (bool b) = true
is_retry_count (int (pos n)) = true
is_retry_count _ = false

is_dict : Value → Bool
is_dict (dict d) = true
is_dict _ = false

-- `_validate_prompt_async_format`
unfoldable pub validate_prompt_async_format : Value → String → Valid
unfolding is_retry_count is_dict
validate_prompt_async_format (dict value) name = elim (get "type" value) [
  | str kind ↦
      if kind == "text"
      then valid
      else if kind == "json_schema"
      then unless (is_dict (get "schema" value)) (name <> ".schema")
          (name <> ".schema must be an object for type=json_schema")
        >> unless (is_retry_count (get "retryCount" value)) (name <> ".retryCount")
            (name <> ".retryCount must be an integer >= 0")
      else faulty (name <> ".type") (name <> ".type must be 'text' or 'json_schema'")
  | _ ↦ faulty (name <> ".type") (name <> ".type must be 'text' or 'json_schema'")
]
validate_prompt_async_format _ name = faulty name (name <> " must be an object")

-- `isinstance(value.get(key), str)`, with the message of the parts
needs_text : String → String → Fields → Valid
needs_text name key value =
    unless (is_str (get key value)) (name <> "." <> key) (name <> "." <> key <> " must be a string")

part_of_type : String → String → Fields → Valid
unfolding needs_text
part_of_type kind name value =
    if kind == "text"
    then needs_text name "text" value
    else if kind == "file"
    then needs_text name "mime" value >> needs_text name "url" value
    else if kind == "agent"
    then needs_text name "name" value
    else if kind == "subtask"
    then needs_text name "prompt" value
      >> needs_text name "description" value
      >> needs_text name "agent" value
      >> validate_optional_model (get "model" value) (name <> ".model")
      >> unless (is_optional_text (get "command" value)) (name <> ".command")
          (name <> ".command must be a string")
    else faulty (name <> ".type") (name <> ".type must be one of: text, file, agent, subtask")

-- `_validate_prompt_async_part`
unfoldable pub validate_prompt_async_part : Value → String → Valid
unfolding part_of_type
validate_prompt_async_part (dict value) name = elim (get "type" value) [
  | str kind ↦ part_of_type kind name value
  | _ ↦ faulty (name <> ".type") (name <> ".type must be a string")
]
validate_prompt_async_part _ name = faulty name (name <> " must be an object")

-- `part_type != "file"`
is_file_type : Value → Bool
is_file_type (str kind) = kind == "file"
is_file_type _ = false

-- `_validate_command_part`
unfoldable pub validate_command_part : Value → String → Valid
unfolding is_file_type
validate_command_part (dict value) name =
    unless (is_file_type (get "type" value)) (name <> ".type") (name <> ".type must be 'file'")
    >> unless (is_given_text (get "mime" value)) (name <> ".mime")
        (name <> ".mime must be a non-empty string")
    >> unless (is_given_text (get "url" value)) (name <> ".url")
        (name <> ".url must be a non-empty string")
validate_command_part _ name = faulty name (name <> " must be an object")

-- The loop of `_validate_parts_array`, from an index on
unfoldable pub validate_parts_from : (Value → String → Valid) → String → ℕ → Items → Valid
validate_parts_from validator name index nil = valid
validate_parts_from validator name index (cons part rest) =
    validator part (name <> "[" <> show index <> "]")
    >> validate_parts_from validator name (index + 1) rest

-- `_validate_parts_array`
unfoldable pub validate_parts_array : (Value → String → Valid) → String → Value → Valid
validate_parts_array validator name (array parts) = validate_parts_from validator name 0 parts
validate_parts_array validator name _ = faulty name (name <> " must be an array")
