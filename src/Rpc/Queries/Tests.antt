-- ===== src/Rpc/Queries/Tests.antt =====
-- src/opencode_a2a/jsonrpc/handlers/session_queries.py with a query for one session.
use Prim.Native.Char.{Char, code}
use opencode_a2a_serve.Base.Names.{ℕ, ◌-◌, String, Option, none, some, ◌≡◌, refl}
use opencode_a2a_serve.Base.Equality.{string_eq, nat_eq, if◌then◌else◌}
use opencode_a2a_serve.Base.Lists.{leb}
use opencode_a2a_serve.Base.Int.{pos}
use opencode_a2a_serve.Base.Text.{strip}
use opencode_a2a_serve.Base.Value.{
  Value, null, int, str, array, dict, nil, cons, end, field, get, put, pop,
}
use opencode_a2a_serve.Rpc.Common.{text_id}
use opencode_a2a_serve.Rpc.Metadata.{
  Resolved, resolved, to_directory, resolve_routing_context, resolve_directory,
  extract_directory_from_metadata, extract_workspace_id_from_metadata, parse_metadata_objects,
}
use opencode_a2a_serve.Rpc.Messages.{A2aMessage}
use opencode_a2a_serve.Rpc.Queries.{
  list_sessions, QueryRequest, A2aSessionTask, QuerySent, sessions_query, Answer, returned, prepare,
  handle_session_query_request,
}
use opencode_a2a_serve.Rpc.Queries.Parsing.{
  int_of, parse_int_field, parse_string_field, parse_bool_field,
}
use opencode_a2a_serve.Rpc.Queries.Params.{parse_list_sessions_params}
use opencode_a2a_serve.Rpc.Queries.Bounds.{KeepsLimit, query-KeepsLimit}

-- The digits of ASCII
abbrev decimal : Char → Option ℕ
decimal c = if leb 48 (code c) then (if leb (code c) 57 then some (code c - 48) else none) else none

reads_integers : int_of decimal " +1_0 " ≡ some (pos 10)
unfolding int_of strip nat_eq
reads_integers = refl

refuses_no_integers : int_of decimal "1_" ≡ none
unfolding int_of strip nat_eq
refuses_no_integers = refl

abbrev request : QueryRequest
request = record {
  id = text_id "1";
  method = list_sessions;
  params = field "limit" (str "1") (field "query" (dict (field "search" (str " a ") end)) end);
}

abbrev resolver : Option String → Resolved
resolver directory = resolved (some "/work")

abbrev session : String → Value
session id = dict (field "id" (str id) end)

abbrev answer : Answer
answer = returned (array (cons (session "s1") (cons (session "s2") nil))) none

abbrev dump_task : A2aSessionTask → Value
dump_task task = str task.id

abbrev dump : A2aMessage → Value
dump message = null

abbrev sent : QuerySent
sent =
    sessions_query (field "search" (str "a") (field "limit" (int (pos 1)) end))
      (to_directory (some "/work"))

asks :
    (handle_session_query_request dump_task dump decimal resolver request answer).sent ≡ some sent
unfolding handle_session_query_request prepare parse_list_sessions_params parse_int_field
    parse_string_field parse_bool_field int_of strip nat_eq get put pop string_eq
    resolve_routing_context resolve_directory extract_directory_from_metadata
    extract_workspace_id_from_metadata parse_metadata_objects
asks = refl

query-KeepsLimit_example :
    KeepsLimit sent
      (handle_session_query_request dump_task dump decimal resolver request answer).response
query-KeepsLimit_example = query-KeepsLimit dump_task dump decimal resolver request answer sent asks
