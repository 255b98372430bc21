-- ===== src/Stream/Events/Interrupts.antt =====
-- Interrupts in events: src/opencode_a2a/execution/stream_events.py.
use opencode_a2a_serve.Base.Names.{String, ◌||◌, Option, none, some, List, [], ◌∷◌}
use opencode_a2a_serve.Base.Equality.{◌==◌, string_eq, option_eq, if◌then◌else◌}
use opencode_a2a_serve.Base.Value.{
  Value, null, str, array, dict, Items, nil, cons, Fields, end, field, get, put, nonempty_text,
  is_nonempty,
}
use opencode_a2a_serve.Stream.Events.{extract_first_nonempty_string, put_text}

-- The loop of `_extract_string_list`
unfoldable pub strings : Items → Items
strings nil = nil
strings (cons item items) =
    let rest = strings items in
    elim (nonempty_text item) [ some s ↦ cons (str s) rest | none ↦ rest ]

-- `_extract_string_list`
unfoldable pub extract_string_list : Value → Items
extract_string_list (array items) = strings items
extract_string_list _ = nil

-- `for key in keys: ... = _extract_optional_string(item, key)`
unfoldable pub copy_texts : List String → Fields → Fields → Fields
copy_texts [] item out = out
copy_texts (key ∷ keys) item out =
    copy_texts keys item (put_text key (nonempty_text (get key item)) out)

abbrev cons_nonempty : Fields → Items → Items
cons_nonempty d items = if is_nonempty d then cons (dict d) items else items

unfoldable pub options : Items → Items
options nil = nil
options (cons item items) =
    let rest = options items in
    elim item [
      | dict d ↦ cons_nonempty (copy_texts ("label" ∷ "value" ∷ "description" ∷ []) d end) rest
      | _ ↦ rest
    ]

-- `_normalize_interrupt_question_options`
unfoldable pub normalize_interrupt_question_options : Value → Items
normalize_interrupt_question_options (array items) = options items
normalize_interrupt_question_options _ = nil

put_options : Items → Fields → Fields
put_options nil question = question
put_options items question = put "options" (array items) question

unfoldable pub questions : Items → Items
unfolding put_options
questions nil = nil
questions (cons item items) =
    let rest = questions items in
    elim item [
      | dict d ↦
          cons_nonempty
            (put_options (normalize_interrupt_question_options (get "options" d))
              (copy_texts ("header" ∷ "question" ∷ []) d end))
            rest
      | _ ↦ rest
    ]

-- `_normalize_interrupt_questions`
unfoldable pub normalize_interrupt_questions : Value → Items
normalize_interrupt_questions (array items) = questions items
normalize_interrupt_questions _ = nil

-- The dict that `_extract_interrupt_asked_event` returns
pub record Asked : Type 0 where
  pub request_id : String
  pub interrupt_type : String
  pub details : Fields

-- `text or None` as a value
abbrev optional : Option String → Value
optional none = null
optional (some s) = str s

unfoldable pub asked_details : String → Fields → Fields
asked_details event_type props =
    if event_type == "permission.asked"
    then field "permission" (optional (nonempty_text (get "permission" props)))
        (field "patterns" (array (extract_string_list (get "patterns" props))) end)
    else field "questions" (array (normalize_interrupt_questions (get "questions" props))) end

-- `_extract_interrupt_asked_event`, for an event whose `type` is a text
unfoldable pub extract_interrupt_asked_event : String → Fields → Option Asked
unfolding asked_details
extract_interrupt_asked_event event_type props =
    if event_type == "permission.asked" || event_type == "question.asked"
    then elim (extract_first_nonempty_string props ("id" ∷ [])) [
      | none ↦ none
      | some request_id ↦ some (record {
        request_id = request_id;
        interrupt_type = if event_type == "permission.asked" then "permission" else "question";
        details = asked_details event_type props;
      })
    ]
    else none

-- The dict that `_extract_interrupt_resolved_event` returns
pub record Resolved : Type 0 where
  pub request_id : String
  pub event_type : String
  pub interrupt_type : String
  pub resolution : String

-- `_extract_interrupt_resolved_event`, for an event whose `type` is a text
unfoldable pub extract_interrupt_resolved_event : String → Fields → Option Resolved
extract_interrupt_resolved_event event_type props =
    if event_type == "permission.replied"
      || event_type == "question.replied"
      || event_type == "question.rejected"
    then elim (extract_first_nonempty_string props ("requestID" ∷ [])) [
      | none ↦ none
      | some request_id ↦ some (record {
        request_id = request_id;
        event_type = event_type;
        interrupt_type = if event_type == "permission.replied" then "permission" else "question";
        resolution = if event_type == "question.rejected" then "rejected" else "replied";
      })
    ]
    else none
