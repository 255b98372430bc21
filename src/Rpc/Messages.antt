-- ===== src/Rpc/Messages.antt =====
-- `_as_a2a_message` of src/opencode_a2a/jsonrpc/methods.py and src/opencode_a2a/parts/text.py.
use opencode_a2a_serve.Base.Names.{String, ◌<>◌, Bool, false, Option, none, some}
use opencode_a2a_serve.Base.Equality.{◌==◌, string_eq, if◌then◌else◌}
use opencode_a2a_serve.Base.Text.{is_truthy, strip, lower}
use opencode_a2a_serve.Base.Value.{Value, Items, Fields, str, array, dict, nil, cons, get}

-- A message for the SDK to write out
pub record A2aMessage : Type 0 where
  pub message_id : String
  pub is_user : Bool
  pub text : String
  pub context_id : String
  pub session_id : String

text_in : Value → Option String
text_in (dict part) = elim (get "type" part) [
  | str kind ↦
      if kind == "text" then (elim (get "text" part) [ str text ↦ some text | _ ↦ none ]) else none
  | _ ↦ none
]
text_in _ = none

joined_texts : Items → String
unfolding text_in
joined_texts nil = ""
joined_texts (cons part rest) = elim (text_in part) [
  | none ↦ joined_texts rest
  | some text ↦ text <> joined_texts rest
]

-- `extract_text_from_parts`
unfoldable pub extract_text_from_parts : Value → String
unfolding joined_texts
extract_text_from_parts (array parts) = strip (joined_texts parts)
extract_text_from_parts _ = ""

info_of : Fields → Fields
info_of item = elim (get "info" item) [ dict info ↦ info | _ ↦ item ]

is_user_role : Value → Bool
is_user_role (str role) = lower (strip role) == "user"
is_user_role _ = false

message_with : String → Fields → Fields → Value → Option A2aMessage
unfolding is_user_role
message_with session_id item info (str raw_id) =
    if is_truthy (strip raw_id)
    then some (record {
      message_id = strip raw_id;
      is_user = is_user_role (get "role" info);
      text = extract_text_from_parts (get "parts" item);
      context_id = "ctx:opencode-session:" <> session_id;
      session_id = session_id;
    })
    else none
message_with session_id item info _ = none

-- `_as_a2a_message`
unfoldable pub as_a2a_message : String → Value → Option A2aMessage
unfolding info_of message_with
as_a2a_message session_id (dict item) =
    message_with session_id item (info_of item) (get "id" (info_of item))
as_a2a_message session_id _ = none
