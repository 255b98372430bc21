-- ===== src/Rpc/Queries/Params/Limits.antt =====
-- The limits of queries that src/opencode_a2a/jsonrpc/params.py lets through.
use Prim.Native.Char.{Char}
use opencode_a2a_serve.Base.Names.{
  ℕ, ◌≤◌, String, Bool, false, Option, none, some, inl, inr, ◌≡◌, refl, arith, ap, ◌∙◌,
}
use opencode_a2a_serve.Base.Equality.{Eq, ◌==◌, string_eq, Bool-cases}
use opencode_a2a_serve.Base.Lists.{leb}
use opencode_a2a_serve.Base.Int.{ℤ, pos, negsuc}
use opencode_a2a_serve.Base.Text.{strip, is_truthy}
use opencode_a2a_serve.Base.Value.{Value, Fields, int, str, get, put, get-put, get-pop}
use opencode_a2a_serve.Rpc.Common.{◌>>=◌}
use opencode_a2a_serve.Rpc.Queries.Parsing.{
  Validated, is_below, parse_int_field, parse_int_field-minimum,
}
use opencode_a2a_serve.Rpc.Queries.Params.{
  session_query_max_limit, merge_alias, normalize_alias_field, or_default, put_or_pop,
  normalize_session_query_limit, int_eq, parse_list_sessions_params, parse_query_object,
  validate_pagination_fields, with_aliases, list_query, with_before, messages_query_of,
  messages_query_in, with_id, parse_get_session_messages_params, parameters_with,
}

-- A query with a limit between one and the greatest
abbrev pub HasLimit : Fields → Type 0
HasLimit query =
    (n : ℕ) × (get "limit" query ≡ int (pos n)) × (1 ≤ n) × (n ≤ session_query_max_limit)

-- What the parser ensures of a value holds of the value that the two places of a parameter give.
merged-ensures :
    {A : Type 0} ⦃e : Eq A⦄ (P : A → Type 0) (name : String) (top below : Validated (Option A))
    → ((a : A) → top ≡ inr (some a) → P a)
    → ((a : A) → below ≡ inr (some a) → P a)
    → (a : A) → (top >>= λ t. below >>= λ b. merge_alias name t b) ≡ inr (some a)
    → P a
unfolding merge_alias
merged-ensures P name (inl e) below f g a h = absurd (ground (arith, h))
merged-ensures P name (inr t) (inl e) f g a h = absurd (ground (arith, h))
merged-ensures P name (inr none) (inr b) f g a h = g a h
merged-ensures P name (inr (some t)) (inr none) f g a h = f a h
merged-ensures P name (inr (some t)) (inr (some b)) f g a h = elim (Bool-cases (t == b)) [
  | inl same ↦ f a (ground (arith, h, same))
  | inr differ ↦ absurd (ground (arith, h, differ))
]

given-IsPositive :
    (decimal : Char → Option ℕ) (params query : Fields) (n : ℤ)
    → normalize_alias_field params query "limit"
        (λ value name. parse_int_field decimal value name 1)
      ≡ inr (some n)
    → is_below 1 n ≡ false
unfolding normalize_alias_field
given-IsPositive decimal params query n h =
    merged-ensures (λ k. is_below 1 k ≡ false) "limit" _ _
      (λ k. parse_int_field-minimum decimal (get "limit" params) "limit" 1 k)
      (λ k. parse_int_field-minimum decimal (get "limit" query) "limit" 1 k) n h

-- Where a step goes on, the query has a limit.
abbrev pub LimitIfValid : Validated Fields → Type 0
LimitIfValid (inl e) = Unit
LimitIfValid (inr query) = HasLimit query

-- The query of a request for messages
abbrev pub MessagesLimit : Validated (String × Fields) → Type 0
MessagesLimit (inl e) = Unit
MessagesLimit (inr (session_id, query)) = HasLimit query

bind-LimitIfValid :
    {A : Type 0} (m : Validated A) (f : A → Validated Fields)
    → ((a : A) → m ≡ inr a → LimitIfValid (f a))
    → LimitIfValid (m >>= f)
bind-LimitIfValid (inl e) f h = tt
bind-LimitIfValid (inr a) f h = h a refl

-- From a query with a limit on
then-LimitIfValid :
    (m : Validated Fields) (f : Fields → Validated Fields)
    → LimitIfValid m
    → ((query : Fields) → HasLimit query → LimitIfValid (f query))
    → LimitIfValid (m >>= f)
then-LimitIfValid (inl e) f h g = tt
then-LimitIfValid (inr query) f h g = g query h

put_limit :
    (n : ℕ) (query : Fields)
    → 1 ≤ n
    → n ≤ session_query_max_limit
    → HasLimit (put "limit" (int (pos n)) query)
put_limit n query low high =
    (n, rw (get-put "limit" "limit" (int (pos n)) query) (ground arith), low, high)

default-LimitIfValid :
    (given : Option ℤ) (query : Fields)
    → ((n : ℤ) → given ≡ some n → is_below 1 n ≡ false)
    → LimitIfValid (or_default given >>= λ limit. inr (put "limit" (int limit) query))
unfolding or_default
default-LimitIfValid none query ensured = put_limit 20 query (omega arith) (omega arith)
default-LimitIfValid (some (negsuc n)) query ensured =
    absurd (ground (arith, ensured (negsuc n) refl))
default-LimitIfValid (some (pos n)) query ensured =
    elim (Bool-cases (leb n session_query_max_limit)) [
      | inl fits ↦
          rw fits (put_limit n query (ground (arith, ensured (pos n) refl)) (ground (arith, fits)))
      | inr over ↦ rw over tt
    ]

other-HasLimit :
    (name : String) (v : Option Value) (query : Fields)
    → ("limit" == name) ≡ false
    → HasLimit query
    → HasLimit (put_or_pop name v query)
unfolding put_or_pop
other-HasLimit name none query other (n, limit, low, high) =
    (n, ground (arith, get-pop "limit" name query, other, limit), low, high)
other-HasLimit name (some v) query other (n, limit, low, high) =
    (n, ground (arith, get-put "limit" name v query, other, limit), low, high)

module _ (decimal : Char → Option ℕ) where
  normalized-LimitIfValid :
      (params query : Fields) → LimitIfValid (normalize_session_query_limit decimal params query)
  unfolding normalize_session_query_limit
  normalized-LimitIfValid params query =
      bind-LimitIfValid
        (normalize_alias_field params query "limit"
          (λ value name. parse_int_field decimal value name 1))
        (λ given. or_default given >>= λ limit. inr (put "limit" (int limit) query))
        (λ given h.
          default-LimitIfValid given query
            (λ n e. given-IsPositive decimal params query n (h ∙ ap inr e)))

  aliases-LimitIfValid :
      (directory : Validated (Option String)) (roots : Validated (Option Bool))
      (start : Validated (Option ℤ)) (search : Validated (Option String)) (query : Fields)
      → HasLimit query
      → LimitIfValid (with_aliases decimal directory roots start search query)
  unfolding with_aliases string_eq
  aliases-LimitIfValid (inr directory) (inr roots) (inr start) (inr search) query limit =
      other-HasLimit "search" _ _ refl (
        other-HasLimit "start" _ _ refl
          (other-HasLimit "roots" _ _ refl (other-HasLimit "directory" _ query refl limit)))
  aliases-LimitIfValid (inr directory) (inr roots) (inr start) (inl e) query limit = tt
  aliases-LimitIfValid (inr directory) (inr roots) (inl e) search query limit = tt
  aliases-LimitIfValid (inr directory) (inl e) start search query limit = tt
  aliases-LimitIfValid (inl e) roots start search query limit = tt

  before-LimitIfValid :
      (before : Validated (Option String)) (query : Fields)
      → HasLimit query
      → LimitIfValid (with_before decimal before query)
  unfolding with_before string_eq
  before-LimitIfValid (inr before) query limit = other-HasLimit "before" _ query refl limit
  before-LimitIfValid (inl e) query limit = tt

  checked-LimitIfValid :
      (params query : Fields) (checked : Validated (Unit {0})) (f : Fields → Validated Fields)
      → ((normalized : Fields) → HasLimit normalized → LimitIfValid (f normalized))
      → LimitIfValid (checked >>= λ u. normalize_session_query_limit decimal params query >>= f)
  checked-LimitIfValid params query (inl e) f h = tt
  checked-LimitIfValid params query (inr u) f h =
      then-LimitIfValid (normalize_session_query_limit decimal params query) f
        (normalized-LimitIfValid params query) h

  pub parse_list-LimitIfValid :
      (params : Fields) → LimitIfValid (parse_list_sessions_params decimal params)
  unfolding parse_list_sessions_params list_query
  parse_list-LimitIfValid params =
      bind-LimitIfValid (parse_query_object params) (list_query decimal params) (λ query h.
        checked-LimitIfValid params query (validate_pagination_fields params query) _
          (λ normalized. aliases-LimitIfValid _ _ _ _ normalized))

  messages-LimitIfValid : (params : Fields) → LimitIfValid (messages_query_in decimal params)
  unfolding messages_query_in messages_query_of
  messages-LimitIfValid params =
      bind-LimitIfValid (parse_query_object params) (messages_query_of decimal params) (λ query h.
        checked-LimitIfValid params query (validate_pagination_fields params query) _
          (λ normalized. before-LimitIfValid _ normalized))

  with_id-MessagesLimit :
      (session_id : String) (m : Validated Fields)
      → LimitIfValid m
      → MessagesLimit (with_id decimal session_id m)
  unfolding with_id
  with_id-MessagesLimit session_id (inl e) h = tt
  with_id-MessagesLimit session_id (inr query) h = h

  parameters-MessagesLimit :
      (params : Fields) (value : Value) → MessagesLimit (parameters_with decimal params value)
  unfolding parameters_with
  parameters-MessagesLimit params (str session_id) =
      elim (Bool-cases (is_truthy (strip session_id))) [
        | inl given ↦ rw given (
            with_id-MessagesLimit (strip session_id) (messages_query_in decimal params)
              (messages-LimitIfValid params))
        | inr empty ↦ rw empty tt
      ]
  parameters-MessagesLimit params _ = tt

  pub parse_messages-MessagesLimit :
      (params : Fields) → MessagesLimit (parse_get_session_messages_params decimal params)
  unfolding parse_get_session_messages_params
  parse_messages-MessagesLimit params = parameters-MessagesLimit params (get "session_id" params)
