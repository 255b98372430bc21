-- ===== src/Rpc/Methods.antt =====
-- The parsers of replies to interrupts: src/opencode_a2a/jsonrpc/methods.py.
use opencode_a2a_serve.Base.Names.{ℕ, ◌+◌, String, ◌<>◌, List, [], ◌∷◌}
use opencode_a2a_serve.Base.Equality.{◌==◌, string_eq, if◌then◌else◌}
use opencode_a2a_serve.Base.Text.{is_truthy, strip, lower, show}
use opencode_a2a_serve.Base.Value.{Value, Items, str, array, nil, cons}

-- A result, or the text of a `ValueError`
pub data Parsed (A : Type 0) : Type 0 where
  parsed : A → Parsed A
  invalid : String → Parsed A

infixl 5 ◌>>=◌
abbrev pub ◌>>=◌ : {A B : Type 0} → Parsed A → (A → Parsed B) → Parsed B
parsed a >>= f = f a
invalid message >>= f = invalid message

known_reply : String → Parsed String
known_reply normalized =
    if normalized == "once"
    then parsed "once"
    else if normalized == "always"
    then parsed "always"
    else if normalized == "reject"
    then parsed "reject"
    else invalid "reply must be one of: once, always, reject"

-- `_normalize_permission_reply`
unfoldable pub normalize_permission_reply : Value → Parsed String
unfolding known_reply
normalize_permission_reply (str value) = known_reply (lower (strip value))
normalize_permission_reply _ = invalid "reply must be a string"

-- The loop over the options of one answer
unfoldable pub parse_options : ℕ → Items → Parsed (List String)
parse_options index nil = parsed []
parse_options index (cons (str option) rest) = do
  more ← parse_options index rest
  if is_truthy (strip option) then parsed (strip option ∷ more) else parsed more
parse_options index (cons _ rest) =
    invalid ("answers[" <> show index <> "] must contain only strings")

-- The loop over the answers
unfoldable pub parse_groups : ℕ → Items → Parsed (List (List String))
parse_groups index nil = parsed []
parse_groups index (cons (array options) rest) = do
  group ← parse_options index options
  more ← parse_groups (index + 1) rest
  parsed (group ∷ more)
parse_groups index (cons _ rest) =
    invalid ("answers[" <> show index <> "] must be an array of strings")

-- `_parse_question_answers`
unfoldable pub parse_question_answers : Value → Parsed (List (List String))
parse_question_answers (array items) = parse_groups 0 items
parse_question_answers _ = invalid "answers must be an array"
