-- ===== src/Stream/Events/Usage.antt =====
-- Token counts in events: src/opencode_a2a/execution/stream_events.py. What `_coerce_number` makes of
-- a value and Python's `+` on two results are parameters, since they compute with floats.
use opencode_a2a_serve.Base.Names.{String, Option, none, some, List, [], ◌∷◌, ◌++◌}
use opencode_a2a_serve.Base.Equality.{◌==◌, string_eq, option_eq, if◌then◌else◌}
use opencode_a2a_serve.Base.Value.{Value, dict, Fields, end, get, put, is_nonempty}
use opencode_a2a_serve.Stream.Events.{extract_stream_part_type}

-- `if value is not None: usage[key] = value`
abbrev pub put_number : String → Option Value → Fields → Fields
put_number key none usage = usage
put_number key (some v) usage = put key v usage

module _ (coerce_number : Value → Option Value) (add : Value → Value → Value) where
  total : Fields → Option Value
  total tokens = elim (coerce_number (get "total" tokens)) [
    | some t ↦ some t
    | none ↦ elim (coerce_number (get "input" tokens)) [
      | none ↦ none
      | some i ↦ elim (coerce_number (get "output" tokens)) [
        | none ↦ none
        | some o ↦ some (add i o)
      ]
    ]
  ]

  put_cache : Value → Fields → Fields
  put_cache (dict cache) usage =
      let cache_usage =
        put_number "write_tokens" (coerce_number (get "write" cache))
          (put_number "read_tokens" (coerce_number (get "read" cache)) end) in
      if is_nonempty cache_usage then put "cache_tokens" (dict cache_usage) usage else usage
  put_cache _ usage = usage

  usage_of : Fields → Fields → Fields
  unfolding total put_cache
  usage_of info tokens =
      let counted = put_number "reasoning_tokens" (coerce_number (get "reasoning" tokens)) (
        put_number "total_tokens" (total tokens) (
          put_number "output_tokens" (coerce_number (get "output" tokens))
            (put_number "input_tokens" (coerce_number (get "input" tokens)) end))) in
      put_number "cost" (coerce_number (get "cost" info)) (put_cache (get "cache" tokens) counted)

  -- `_extract_usage_from_info_like`
  unfoldable pub extract_usage_from_info_like : Fields → Option Fields
  unfolding usage_of
  extract_usage_from_info_like info = elim (get "tokens" info) [
    | dict tokens ↦
        (let usage = usage_of info tokens in if is_nonempty usage then some usage else none)
    | _ ↦ none
  ]

  abbrev mappings : Value → List Fields
  mappings (dict d) = d ∷ []
  mappings _ = []

  usage_parts : Value → List Fields
  usage_parts (dict part) =
      if extract_stream_part_type part == some "step-finish" then part ∷ [] else []
  usage_parts _ = []

  -- The candidates of `_extract_token_usage` in their order
  unfoldable pub candidates : Fields → List Fields
  unfolding usage_parts
  candidates payload = mappings (get "info" payload) ++ elim (get "properties" payload) [
    | dict props ↦ mappings (get "info" props) ++ usage_parts (get "part" props)
    | _ ↦ []
  ]

  unfoldable pub first_usage : List Fields → Option Fields
  first_usage [] = none
  first_usage (c ∷ cs) =
      let rest = first_usage cs in
      elim (extract_usage_from_info_like c) [ some usage ↦ some usage | none ↦ rest ]

  -- `_extract_token_usage`
  unfoldable pub extract_token_usage : Fields → Option Fields
  extract_token_usage payload = first_usage (candidates payload)
