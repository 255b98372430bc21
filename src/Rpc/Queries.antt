-- ===== src/Rpc/Queries.antt =====
-- `handle_session_query_request` of src/opencode_a2a/jsonrpc/handlers/session_queries.py, with the
-- functions of src/opencode_a2a/jsonrpc/methods.py that only it uses.
pub mod Parsing
pub mod Params
pub mod Bounds
pub mod Tests
use Prim.Native.Char.{Char}
use opencode_a2a_serve.Base.Names.{
  ℕ, suc, String, ◌<>◌, Bool, true, false, Option, none, some, List, [], ◌∷◌, ◌⊎◌, inl, inr,
}
use opencode_a2a_serve.Base.Equality.{if◌then◌else◌}
use opencode_a2a_serve.Base.Lists.{leb, length, take}
use opencode_a2a_serve.Base.Int.{ℤ, pos, negsuc, pos_part}
use opencode_a2a_serve.Base.Text.{strip, or_none}
use opencode_a2a_serve.Base.Value.{
  Value, Items, Fields, null, bool, int, float, str, array, dict, nil, cons, end, field, get, pop,
  nonempty_text, as_str,
}
use opencode_a2a_serve.Rpc.Errors.{
  RpcError, invalid_field, str_or_null, session_not_found_code, upstream_unreachable_code,
  upstream_http_error_code, upstream_payload_error_code, session_not_found_error,
  upstream_payload_error, UpstreamCall,
}
use opencode_a2a_serve.Rpc.Common.{
  RequestId, Response, error_response, Checked, ◌>>=◌, build_success_response,
}
use opencode_a2a_serve.Rpc.Failures.{
  Failure, other_error, Handling, build_upstream_exception_response,
}
use opencode_a2a_serve.Rpc.Metadata.{
  Resolved, Routing, to_workspace, to_directory, resolve_routing_context,
}
use opencode_a2a_serve.Rpc.Messages.{A2aMessage, as_a2a_message}
use opencode_a2a_serve.Rpc.Queries.Parsing.{Validated}
use opencode_a2a_serve.Rpc.Queries.Params.{
  parse_list_sessions_params, parse_get_session_messages_params,
}

pub data QueryMethod : Type 0 where
  list_sessions get_session_messages : QueryMethod

pub record QueryRequest : Type 0 where
  pub id : RequestId
  pub method : QueryMethod
  pub params : Fields

-- A session as a task, for the SDK to write out
pub record A2aSessionTask : Type 0 where
  pub id : String
  pub context_id : String
  pub title : String

-- `workspace_id` of a routing
abbrev pub workspace_of : Routing → Option String
workspace_of (to_workspace workspace_id) = some workspace_id
workspace_of (to_directory directory) = none

-- The query that is sent to the upstream; `list_messages` is told the workspace, and no directory.
pub data QuerySent : Type 0 where
  sessions_query : Fields → Routing → QuerySent
  messages_query : String → Fields → Option String → QuerySent

-- What the upstream gives: the payload, with the cursor of a page of messages
pub data Answer : Type 0 where
  returned : Value → Option String → Answer
  raised : Failure → Answer

-- The response, or the exception that the handler lets through, and what was sent
pub record QueryHandled : Type 0 where
  pub response : Failure ⊎ Response
  pub sent : Option QuerySent

-- `type(value).__name__`
type_name : Value → String
type_name null = "NoneType"
type_name (bool b) = "bool"
type_name (int n) = "int"
type_name (float m e) = "float"
type_name (str s) = "str"
type_name (array items) = "list"
type_name (dict fields) = "dict"

-- `_extract_raw_items`: the items, or the text of the `ValueError`
extract_raw_items : Value → String → String ⊎ Items
unfolding type_name
extract_raw_items (array items) kind = inr items
extract_raw_items value kind =
    inl ("OpenCode " <> kind <> " payload must be an array; got " <> type_name value)

-- `_extract_session_title`
extract_session_title : Fields → String
extract_session_title session = elim (get "title" session) [ str title ↦ strip title | _ ↦ "" ]

session_task : Fields → Option String → Option A2aSessionTask
unfolding extract_session_title
session_task session none = none
session_task session (some session_id) = some (record {
  id = session_id;
  context_id = "ctx:opencode-session:" <> session_id;
  title = extract_session_title session;
})

-- `_as_a2a_session_task`, with `_extract_session_id`
as_a2a_session_task : Value → Option A2aSessionTask
unfolding session_task
as_a2a_session_task (dict session) = session_task session (nonempty_text (get "id" session))
as_a2a_session_task _ = none

-- `_apply_session_query_limit`
abbrev pub apply_session_query_limit : List Value → ℕ → List Value
apply_session_query_limit items limit = if leb (length items) limit then items else take limit items

-- `int(query["limit"])`, a positive number as `_normalize_session_query_limit` leaves it
abbrev pub limit_in : Fields → ℕ
limit_in query = elim (get "limit" query) [ int n ↦ pos_part n | _ ↦ 0 ]

-- `except JsonRpcParamsValidationError`
or_refused : {A : Type 0} → RequestId → Validated A → Checked A
or_refused id (inl e) = inl (error_response id e)
or_refused id (inr a) = inr a

abbrev pub items_of : List Value → Items
items_of [] = nil
items_of (v ∷ rest) = cons v (items_of rest)

module _ (decimal : Char → Option ℕ) (resolver : Option String → Resolved) where
  -- The steps before the upstream is asked: what is sent, or the response that stops the handler
  route_sessions : QueryRequest → Fields → Checked QuerySent
  route_sessions r query = do
    routing ← resolve_routing_context resolver r.id r.params (as_str (get "directory" query))
    inr (sessions_query (pop "directory" query) routing)

  route_messages : QueryRequest → String × Fields → Checked QuerySent
  route_messages r (session_id, query) = do
    routing ← resolve_routing_context resolver r.id r.params none
    inr (messages_query session_id query (workspace_of routing))

  unfoldable pub prepare : QueryRequest → QueryMethod → Checked QuerySent
  unfolding route_sessions route_messages or_refused
  prepare r list_sessions = do
    query ← or_refused r.id (parse_list_sessions_params decimal r.params)
    route_sessions r query
  prepare r get_session_messages = do
    parameters ← or_refused r.id (parse_get_session_messages_params decimal r.params)
    route_messages r parameters

not_found_in : RequestId → QuerySent → Option Response
not_found_in id (sessions_query query routing) = none
not_found_in id (messages_query session_id query workspace_id) =
    some (error_response id (session_not_found_error session_not_found_code session_id))

no_call : UpstreamCall
no_call = record { method = none; session_id = none; request_id = none }

-- `invoke_upstream_or_error` passes no code for a payload that does not fit.
handling : RequestId → QuerySent → Handling
unfolding not_found_in no_call
handling id sent = record {
  http_error_code = upstream_http_error_code;
  unreachable_code = upstream_unreachable_code;
  payload_error_code = none;
  on_not_found = not_found_in id sent;
  on_permission_error = none;
  call = no_call;
}

payload_mismatch : RequestId → String → Response
unfolding no_call
payload_mismatch id detail =
    error_response id (upstream_payload_error upstream_payload_error_code detail no_call)

-- `model_dump` of the SDK is `dump_task` for a task and `dump` for a message.
module _ (dump_task : A2aSessionTask → Value) (dump : A2aMessage → Value) where
  tasks_in : Items → List Value
  unfolding as_a2a_session_task
  tasks_in nil = []
  tasks_in (cons item rest) = elim (as_a2a_session_task item) [
    | none ↦ tasks_in rest
    | some task ↦ dump_task task ∷ tasks_in rest
  ]

  messages_in : String → Items → List Value
  messages_in session_id nil = []
  messages_in session_id (cons item rest) = elim (as_a2a_message session_id item) [
    | none ↦ messages_in session_id rest
    | some message ↦ dump message ∷ messages_in session_id rest
  ]

  sessions_response : RequestId → ℕ → String ⊎ Items → Response
  unfolding tasks_in payload_mismatch
  sessions_response id limit (inl detail) = payload_mismatch id detail
  sessions_response id limit (inr items) =
      build_success_response id
        (field "items" (array (items_of (apply_session_query_limit (tasks_in items) limit))) end)

  messages_response : RequestId → String → Option String → String ⊎ Items → Response
  unfolding messages_in payload_mismatch
  messages_response id session_id next_cursor (inl detail) = payload_mismatch id detail
  messages_response id session_id next_cursor (inr items) = build_success_response id (
      field "items" (array (items_of (messages_in session_id items)))
        (field "next_cursor" (str_or_null next_cursor) end))

  -- What becomes of the upstream's answer. The `assert` fails for a list of sessions that is null.
  answered : RequestId → QuerySent → Answer → Failure ⊎ Response
  unfolding sessions_response messages_response handling extract_raw_items
  answered id sent (raised failure) =
      inr (build_upstream_exception_response id (handling id sent) failure)
  answered id (sessions_query query routing) (returned null next_cursor) = inl (other_error "")
  answered id (sessions_query query routing) (returned payload next_cursor) =
      inr (sessions_response id (limit_in query) (extract_raw_items payload "sessions"))
  answered id (messages_query session_id query workspace_id) (returned payload next_cursor) =
      inr (messages_response id session_id next_cursor (extract_raw_items payload "messages"))

  after_prepare : RequestId → Answer → Checked QuerySent → QueryHandled
  unfolding answered
  after_prepare id upstream (inl response) = record { response = inr response; sent = none }
  after_prepare id upstream (inr sent) = record {
    response = answered id sent upstream;
    sent = some sent;
  }

  -- `handle_session_query_request`; `upstream` answers if it is asked.
  unfoldable pub handle_session_query_request :
      (Char → Option ℕ) → (Option String → Resolved) → QueryRequest → Answer → QueryHandled
  unfolding after_prepare
  handle_session_query_request decimal resolver r upstream =
      after_prepare r.id upstream (prepare decimal resolver r r.method)
