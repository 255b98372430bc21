-- ===== src/Rpc/Queries/Params.antt =====
-- src/opencode_a2a/jsonrpc/params.py: the parameters of the two queries on sessions.
pub mod Limits
use Prim.Native.Char.{Char}
use mathlib.Core.Bool.{Bool-discrete}
use native.Mathlib.Decide.{ℕ_discrete}
use opencode_a2a_serve.Base.Names.{
  ℕ, ◌≤◌, String, ◌<>◌, Bool, true, false, not, ◌&&◌, ◌||◌, Option, none, some, List, [], ◌∷◌, ◌⊎◌,
  inl, inr, ◌≡◌, refl, arith, ap,
}
use opencode_a2a_serve.Base.Equality.{
  Eq, ◌==◌, string_eq, nat_eq, contains, if◌then◌else◌, Option-cases, Bool-cases,
}
use opencode_a2a_serve.Base.Lists.{leb}
use opencode_a2a_serve.Base.Int.{ℤ, pos, negsuc}
use opencode_a2a_serve.Base.Text.{strip, is_truthy, show}
use opencode_a2a_serve.Base.Value.{
  Value, Fields, null, bool, int, str, array, dict, end, field, get, put, pop, get-put, get-pop,
}
use opencode_a2a_serve.Rpc.Errors.{RpcError, invalid_params, invalid_field, missing_field, texts}
use opencode_a2a_serve.Rpc.Common.{◌>>=◌, names_of}
use opencode_a2a_serve.Rpc.Queries.Parsing.{
  Validated, is_below, parse_int_field, parse_int_field-minimum, parse_string_field,
  parse_bool_field,
}

abbrev pub session_query_default_limit : ℕ
session_query_default_limit = 20

abbrev pub session_query_max_limit : ℕ
session_query_max_limit = 100

abbrev session_query_pagination_unsupported : List String
session_query_pagination_unsupported = "cursor" ∷ "page" ∷ "size" ∷ []

instance pub bool_eq : Eq Bool
bool_eq = record { dec = Bool-discrete }

magnitude : ℤ → ℕ
magnitude (pos n) = n
magnitude (negsuc n) = n

int_dec : Discrete ℤ
unfolding magnitude
int_dec (pos m) (pos n) = elim (ℕ_discrete m n) [
  | yes p ↦ yes (ap pos p)
  | no differ ↦ no (λ q. differ (ap magnitude q))
]
int_dec (pos m) (negsuc n) = no (λ p. ground (arith, p))
int_dec (negsuc m) (pos n) = no (λ p. ground (arith, p))
int_dec (negsuc m) (negsuc n) = elim (ℕ_discrete m n) [
  | yes p ↦ yes (ap negsuc p)
  | no differ ↦ no (λ q. differ (ap magnitude q))
]

instance unfoldable pub int_eq : Eq ℤ
unfolding int_dec
int_eq = record { dec = int_dec }

-- `_parse_query_object`
parse_query_object : Fields → Validated Fields
parse_query_object params = elim (get "query" params) [
  | null ↦ inr end
  | dict query ↦ inr query
  | _ ↦ inl (invalid_field "query must be an object" "query")
]

-- `any(field in d for field in fields)`
any_in : List String → Fields → Bool
any_in [] d = false
any_in (name ∷ rest) d = contains (names_of d) name || any_in rest d

-- `_validate_pagination_fields`
validate_pagination_fields : Fields → Fields → Validated (Unit {0})
unfolding any_in
validate_pagination_fields params query =
    if any_in session_query_pagination_unsupported params
      || any_in session_query_pagination_unsupported query
    then inl (
        invalid_params "Only limit pagination is supported" (
          field "type" (str "INVALID_PAGINATION_MODE") (
            field "supported" (array (texts ("limit" ∷ [])))
              (field "unsupported" (array (texts session_query_pagination_unsupported)) end))))
    else inr tt

-- `_normalize_alias_field` once both values are parsed
merge_alias : {A : Type 0} ⦃e : Eq A⦄ → String → Option A → Option A → Validated (Option A)
merge_alias name none query_value = inr query_value
merge_alias name (some v) none = inr (some v)
merge_alias name (some v) (some w) =
    if v == w
    then inr (some v)
    else inl (
        invalid_field
          (name <> " is ambiguous between params." <> name <> " and params.query." <> name) name)

-- `_normalize_alias_field`
normalize_alias_field :
    {A : Type 0} ⦃e : Eq A⦄
    → Fields
    → Fields
    → String
    → (Value → String → Validated (Option A))
    → Validated (Option A)
unfolding merge_alias
normalize_alias_field params query name parser = do
  top_level_value ← parser (get name params) name
  query_value ← parser (get name query) name
  merge_alias name top_level_value query_value

-- The limit in place of one that is not given
or_default : Option ℤ → Validated ℤ
or_default none = inr (pos session_query_default_limit)
or_default (some (negsuc n)) = inr (negsuc n)
or_default (some (pos n)) =
    if leb n session_query_max_limit
    then inr (pos n)
    else inl (
        invalid_params ("limit must be <= " <> show session_query_max_limit) (
          field "type" (str "INVALID_FIELD")
            (field "field" (str "limit") (field "max" (int (pos session_query_max_limit)) end))))

-- `if value is not None: query[name] = value`, and else `query.pop(name, None)`
put_or_pop : String → Option Value → Fields → Fields
put_or_pop name none query = pop name query
put_or_pop name (some v) query = put name v query

value_of {ℓ} : {A : Type ℓ} → (A → Value) → Option A → Option Value
value_of f none = none
value_of f (some a) = some (f a)

module _ (decimal : Char → Option ℕ) where
  -- `_normalize_session_query_limit`
  normalize_session_query_limit : Fields → Fields → Validated Fields
  unfolding normalize_alias_field or_default int_eq
  normalize_session_query_limit params query = do
    given ←
        normalize_alias_field params query "limit"
          (λ value name. parse_int_field decimal value name 1)
    limit ← or_default given
    inr (put "limit" (int limit) query)

  -- The first error of the four parameters, or the query with them
  with_aliases :
      Validated (Option String)
      → Validated (Option Bool)
      → Validated (Option ℤ)
      → Validated (Option String)
      → Fields
      → Validated Fields
  unfolding put_or_pop value_of
  with_aliases (inr directory) (inr roots) (inr start) (inr search) query = inr (
      put_or_pop "search" (value_of str search) (
        put_or_pop "start" (value_of int start) (
          put_or_pop "roots" (value_of bool roots)
            (put_or_pop "directory" (value_of str directory) query))))
  with_aliases (inr directory) (inr roots) (inr start) (inl e) query = inl e
  with_aliases (inr directory) (inr roots) (inl e) search query = inl e
  with_aliases (inr directory) (inl e) start search query = inl e
  with_aliases (inl e) roots start search query = inl e

  list_query : Fields → Fields → Validated Fields
  unfolding validate_pagination_fields normalize_session_query_limit normalize_alias_field
      with_aliases bool_eq int_eq
  list_query params query = do
    checked ← validate_pagination_fields params query
    normalized ← normalize_session_query_limit params query
    with_aliases (normalize_alias_field params query "directory" parse_string_field)
        (normalize_alias_field params query "roots" parse_bool_field)
        (normalize_alias_field params query "start"
          (λ value name. parse_int_field decimal value name 0))
        (normalize_alias_field params query "search" parse_string_field) normalized

  -- `parse_list_sessions_params`
  unfoldable pub parse_list_sessions_params : Fields → Validated Fields
  unfolding parse_query_object list_query
  parse_list_sessions_params params = do query ← parse_query_object params; list_query params query

  with_before : Validated (Option String) → Fields → Validated Fields
  unfolding put_or_pop value_of
  with_before (inr before) query = inr (put_or_pop "before" (value_of str before) query)
  with_before (inl e) query = inl e

  messages_query_of : Fields → Fields → Validated Fields
  unfolding validate_pagination_fields normalize_session_query_limit normalize_alias_field
      with_before
  messages_query_of params query = do
    checked ← validate_pagination_fields params query
    normalized ← normalize_session_query_limit params query
    with_before (normalize_alias_field params query "before" parse_string_field) normalized

  with_id : String → Validated Fields → Validated (String × Fields)
  with_id session_id (inl e) = inl e
  with_id session_id (inr query) = inr (session_id, query)

  messages_query_in : Fields → Validated Fields
  unfolding parse_query_object messages_query_of
  messages_query_in params = do query ← parse_query_object params; messages_query_of params query

  parameters_with : Fields → Value → Validated (String × Fields)
  unfolding with_id messages_query_in
  parameters_with params (str session_id) =
      if is_truthy (strip session_id)
      then with_id (strip session_id) (messages_query_in params)
      else inl (missing_field "Missing required params.session_id" "session_id")
  parameters_with params _ = inl (missing_field "Missing required params.session_id" "session_id")

  -- `parse_get_session_messages_params`
  unfoldable pub parse_get_session_messages_params : Fields → Validated (String × Fields)
  unfolding parameters_with
  parse_get_session_messages_params params = parameters_with params (get "session_id" params)
