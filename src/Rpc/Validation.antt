-- ===== src/Rpc/Validation.antt =====
-- The payloads of prompts, commands and shell calls: the validators of
-- src/opencode_a2a/jsonrpc/methods.py, with the field lists of src/opencode_a2a/contracts/extensions.py.
pub mod Parts
use opencode_a2a_serve.Base.Names.{
  String, ◌<>◌, Bool, true, false, Option, none, some, List, [], ◌∷◌, map,
}
use opencode_a2a_serve.Base.Equality.{if◌then◌else◌}
use opencode_a2a_serve.Base.Value.{Value, Fields, null, bool, str, dict, end, field, get}
use opencode_a2a_serve.Rpc.Common.{unknown_names, join}
use opencode_a2a_serve.Rpc.Validation.Parts.{
  Valid, valid, faulty, ◌>>◌, unless, starts_with, is_given_text, is_optional_text,
  validate_optional_model, validate_prompt_async_part, validate_command_part,
  validate_prompt_async_format, validate_parts_array,
}

-- `PROMPT_ASYNC_REQUEST_ALLOWED_FIELDS`
abbrev pub prompt_async_fields : List String
prompt_async_fields =
    "parts" ∷ "messageID" ∷ "model" ∷ "agent" ∷ "noReply" ∷ "tools" ∷ "format" ∷ "system"
    ∷ "variant" ∷ []

-- `COMMAND_REQUEST_ALLOWED_FIELDS`
abbrev pub command_fields : List String
command_fields =
    "command" ∷ "arguments" ∷ "messageID" ∷ "agent" ∷ "model" ∷ "variant" ∷ "parts" ∷ []

-- `SHELL_REQUEST_ALLOWED_FIELDS`
abbrev pub shell_fields : List String
shell_fields = "agent" ∷ "command" ∷ "model" ∷ []

-- `_validate_allowed_request_fields`
unfoldable pub validate_allowed_request_fields : List String → Fields → Valid
validate_allowed_request_fields allowed value = elim (unknown_names allowed value) [
  | [] ↦ valid
  | name ∷ rest ↦
      faulty "request"
        ("Unsupported fields: " <> join ", " (map (λ n. "request." <> n) (name ∷ rest)))
]

-- `_validate_optional_message_id`
unfoldable pub validate_optional_message_id : Value → String → Valid
validate_optional_message_id null name = valid
validate_optional_message_id (str value) name =
    unless (starts_with "msg" value) name (name <> " must be a string starting with 'msg'")
validate_optional_message_id _ name = faulty name (name <> " must be a string starting with 'msg'")

-- `_validate_optional_string_fields`
unfoldable pub validate_optional_string_fields : List String → Fields → Valid
validate_optional_string_fields [] value = valid
validate_optional_string_fields (name ∷ names) value =
    unless (is_optional_text (get name value)) ("request." <> name)
      ("request." <> name <> " must be a string")
    >> validate_optional_string_fields names value

-- `_validate_required_non_empty_string_fields`
unfoldable pub validate_required_non_empty_string_fields : List String → Fields → Valid
validate_required_non_empty_string_fields [] value = valid
validate_required_non_empty_string_fields (name ∷ names) value =
    unless (is_given_text (get name value)) ("request." <> name)
      ("request." <> name <> " must be a non-empty string")
    >> validate_required_non_empty_string_fields names value

validate_no_reply : Value → Valid
validate_no_reply null = valid
validate_no_reply (bool b) = valid
validate_no_reply _ = faulty "request.noReply" "request.noReply must be a boolean"

-- The loop over the tools; the keys of a JSON object are texts.
validate_tool_values : Fields → Valid
validate_tool_values end = valid
validate_tool_values (field key (bool b) rest) = validate_tool_values rest
validate_tool_values (field key _ rest) =
    faulty ("request.tools." <> key) ("request.tools." <> key <> " must be a boolean")

validate_tools : Value → Valid
unfolding validate_tool_values
validate_tools null = valid
validate_tools (dict tools) = validate_tool_values tools
validate_tools _ = faulty "request.tools" "request.tools must be an object"

validate_format : Value → Valid
validate_format null = valid
validate_format fmt = validate_prompt_async_format fmt "request.format"

-- `_validate_prompt_async_request_payload`
unfoldable pub validate_prompt_async_request_payload : Fields → Valid
unfolding validate_no_reply validate_tools validate_format
validate_prompt_async_request_payload value =
    validate_allowed_request_fields prompt_async_fields value
    >> validate_optional_message_id (get "messageID" value) "request.messageID"
    >> validate_optional_model (get "model" value) "request.model"
    >> validate_optional_string_fields ("agent" ∷ "system" ∷ "variant" ∷ []) value
    >> validate_no_reply (get "noReply" value)
    >> validate_tools (get "tools" value)
    >> validate_format (get "format" value)
    >> validate_parts_array validate_prompt_async_part "request.parts" (get "parts" value)

validate_command_parts : Value → Valid
validate_command_parts null = valid
validate_command_parts parts = validate_parts_array validate_command_part "request.parts" parts

-- `_validate_command_request_payload`
unfoldable pub validate_command_request_payload : Fields → Valid
unfolding validate_command_parts
validate_command_request_payload value =
    validate_allowed_request_fields command_fields value
    >> validate_required_non_empty_string_fields ("command" ∷ "arguments" ∷ []) value
    >> validate_optional_message_id (get "messageID" value) "request.messageID"
    >> validate_optional_model (get "model" value) "request.model"
    >> validate_optional_string_fields ("agent" ∷ "variant" ∷ []) value
    >> validate_command_parts (get "parts" value)

-- `_validate_shell_request_payload`
unfoldable pub validate_shell_request_payload : Fields → Valid
validate_shell_request_payload value =
    validate_allowed_request_fields shell_fields value
    >> validate_required_non_empty_string_fields ("agent" ∷ "command" ∷ []) value
    >> validate_optional_model (get "model" value) "request.model"
