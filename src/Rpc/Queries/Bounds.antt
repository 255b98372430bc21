-- ===== src/Rpc/Queries/Bounds.antt =====
-- What the handler of src/opencode_a2a/jsonrpc/handlers/session_queries.py asks for and returns at most.
use Prim.Native.Char.{Char}
use mathlib.Core.Option.{some-injective}
use opencode_a2a_serve.Base.Names.{
  ℕ, suc, ◌≤◌, String, Option, none, some, List, [], ◌∷◌, ◌⊎◌, inl, inr, ◌≡◌, refl, arith, ap,
  subst,
}
use opencode_a2a_serve.Base.Equality.{◌==◌, string_eq, nat_eq, Bool-cases}
use opencode_a2a_serve.Base.Lists.{leb, length, length-take}
use opencode_a2a_serve.Base.Int.{pos, negsuc}
use opencode_a2a_serve.Base.Value.{
  Value, Items, Fields, null, array, dict, nil, cons, get, pop, get-pop, as_str,
}
use opencode_a2a_serve.Rpc.Common.{
  RequestId, notification, text_id, number_id, Response, success_response, Checked, ◌>>=◌,
  build_success_response,
}
use opencode_a2a_serve.Rpc.Failures.{Failure, build_upstream_exception_response, http_status}
use opencode_a2a_serve.Rpc.Metadata.{Resolved, resolve_routing_context, Routing}
use opencode_a2a_serve.Rpc.Messages.{A2aMessage}
use opencode_a2a_serve.Rpc.Queries.Parsing.{Validated}
use opencode_a2a_serve.Rpc.Queries.Params.{
  parse_list_sessions_params, parse_get_session_messages_params,
}
use opencode_a2a_serve.Rpc.Queries.Params.Limits.{
  HasLimit, LimitIfValid, parse_list-LimitIfValid, MessagesLimit, parse_messages-MessagesLimit,
}
use opencode_a2a_serve.Rpc.Queries.{
  QueryMethod, list_sessions, get_session_messages, QueryRequest, A2aSessionTask, QuerySent,
  sessions_query, messages_query, workspace_of, Answer, returned, raised, extract_raw_items,
  apply_session_query_limit, limit_in, or_refused, items_of, route_sessions, route_messages,
  prepare, tasks_in, sessions_response, answered, after_prepare, handle_session_query_request,
  payload_mismatch, handling, not_found_in,
}

abbrev pub count : Items → ℕ
count nil = 0
count (cons v rest) = suc (count rest)

abbrev items_in : Value → ℕ
items_in (dict result) = elim (get "items" result) [ array items ↦ count items | _ ↦ 0 ]
items_in _ = 0

-- The number of items that a response shows
abbrev pub shown : Failure ⊎ Response → ℕ
shown (inr (success_response id value)) = items_in value
shown _ = 0

-- The query that is sent has a limit, and a response to a query for sessions keeps to it.
abbrev pub KeepsLimit : QuerySent → Failure ⊎ Response → Type 0
KeepsLimit (sessions_query query routing) response =
    HasLimit query × (shown response ≤ limit_in query)
KeepsLimit (messages_query session_id query workspace_id) response = HasLimit query

abbrev SentLimit : Checked QuerySent → Type 0
SentLimit (inl response) = Unit
SentLimit (inr (sessions_query query routing)) = HasLimit query
SentLimit (inr (messages_query session_id query workspace_id)) = HasLimit query

pop-HasLimit : (query : Fields) → HasLimit query → HasLimit (pop "directory" query)
unfolding string_eq
pop-HasLimit query (n, limit, low, high) =
    (n, rw (get-pop "limit" "directory" query) limit, low, high)

count-items_of : (items : List Value) → count (items_of items) ≡ length items
count-items_of [] = refl
count-items_of (v ∷ rest) = ap suc (count-items_of rest)

apply-limit :
    (items : List Value) (limit : ℕ) → length (apply_session_query_limit items limit) ≤ limit
apply-limit items limit = elim (Bool-cases (leb (length items) limit)) [
  | inl few ↦ rw few (ground (arith, few))
  | inr many ↦ rw many (omega (arith, length-take limit items (ground (arith, many))))
]

module _ (decimal : Char → Option ℕ) (resolver : Option String → Resolved) where
  bind-SentLimit :
      {A : Type 0} (m : Checked A) (f : A → Checked QuerySent)
      → ((a : A) → SentLimit (f a))
      → SentLimit (m >>= f)
  bind-SentLimit (inl response) f h = tt
  bind-SentLimit (inr a) f h = h a

  list-SentLimit :
      (r : QueryRequest) (parsed : Validated Fields)
      → LimitIfValid parsed
      → SentLimit (or_refused r.id parsed >>= route_sessions decimal resolver r)
  unfolding or_refused route_sessions
  list-SentLimit r (inl e) h = tt
  list-SentLimit r (inr query) h =
      bind-SentLimit
        (resolve_routing_context resolver r.id r.params (as_str (get "directory" query)))
        (λ routing. inr (sessions_query (pop "directory" query) routing))
        (λ routing. pop-HasLimit query h)

  messages-SentLimit :
      (r : QueryRequest) (parsed : Validated (String × Fields))
      → MessagesLimit parsed
      → SentLimit (or_refused r.id parsed >>= route_messages decimal resolver r)
  unfolding or_refused route_messages
  messages-SentLimit r (inl e) h = tt
  messages-SentLimit r (inr (session_id, query)) h =
      bind-SentLimit (resolve_routing_context resolver r.id r.params none)
        (λ routing. inr (messages_query session_id query (workspace_of routing))) (λ routing. h)

  prepare-SentLimit :
      (r : QueryRequest) (method : QueryMethod) → SentLimit (prepare decimal resolver r method)
  unfolding prepare
  prepare-SentLimit r list_sessions =
      list-SentLimit r (parse_list_sessions_params decimal r.params)
        (parse_list-LimitIfValid decimal r.params)
  prepare-SentLimit r get_session_messages =
      messages-SentLimit r (parse_get_session_messages_params decimal r.params)
        (parse_messages-MessagesLimit decimal r.params)

module _ (dump_task : A2aSessionTask → Value) (dump : A2aMessage → Value) where
  response-shown :
      (id : RequestId) (limit : ℕ) (extracted : String ⊎ Items)
      → shown (inr (sessions_response dump_task dump id limit extracted)) ≤ limit
  unfolding sessions_response payload_mismatch build_success_response get string_eq
  response-shown id limit (inl detail) = omega arith
  response-shown notification limit (inr items) = omega arith
  response-shown (text_id i) limit (inr items) =
      rw (count-items_of (apply_session_query_limit (tasks_in dump_task dump items) limit))
        (apply-limit (tasks_in dump_task dump items) limit)
  response-shown (number_id n) limit (inr items) =
      rw (count-items_of (apply_session_query_limit (tasks_in dump_task dump items) limit))
        (apply-limit (tasks_in dump_task dump items) limit)

  -- An exception of a query for sessions becomes an error.
  failure_shows_nothing :
      (id : RequestId) (query : Fields) (routing : Routing) (failure : Failure)
      → shown (
          inr (
            build_upstream_exception_response id
              (handling id (sessions_query query routing))
              failure))
        ≡ 0
  unfolding build_upstream_exception_response handling not_found_in
  failure_shows_nothing id query routing (http_status (pos n)) = elim (Bool-cases (n == 404)) [
    | inl missing ↦ rw missing refl
    | inr other ↦ rw other refl
  ]
  failure_shows_nothing id query routing (http_status (negsuc n)) = refl
  failure_shows_nothing id query routing failure = refl

  answered-KeepsLimit :
      (id : RequestId) (sent : QuerySent) (upstream : Answer)
      → SentLimit (inr sent)
      → KeepsLimit sent (answered dump_task dump id sent upstream)
  unfolding answered
  answered-KeepsLimit id (sessions_query query routing) (raised failure) limit =
      (limit, omega (arith, failure_shows_nothing id query routing failure))
  answered-KeepsLimit id (sessions_query query routing) (returned null next_cursor) limit =
      (limit, omega arith)
  answered-KeepsLimit id (sessions_query query routing) (returned value next_cursor) limit =
      (limit, response-shown id (limit_in query) (extract_raw_items value "sessions"))
  answered-KeepsLimit id (messages_query session_id query workspace_id) (raised failure) limit =
      limit
  answered-KeepsLimit id (messages_query session_id query workspace_id) (returned value c) limit =
      limit

  after_prepare-KeepsLimit :
      (id : RequestId) (upstream : Answer) (prepared : Checked QuerySent) (sent : QuerySent)
      → SentLimit prepared
      → (after_prepare dump_task dump id upstream prepared).sent ≡ some sent
      → KeepsLimit sent (after_prepare dump_task dump id upstream prepared).response
  unfolding after_prepare
  after_prepare-KeepsLimit id upstream (inl response) sent limit h = absurd (ground (arith, h))
  after_prepare-KeepsLimit id upstream (inr q) sent limit h =
      subst (λ s. KeepsLimit s (answered dump_task dump id q upstream)) (some-injective q sent h)
        (answered-KeepsLimit id q upstream limit)

  -- Whatever a query on sessions asks for, if it is sent to the upstream it has a `limit` between
  -- 1 and 100 in its parameters, and a response to a query for sessions shows at most that many
  -- items, whatever the upstream answers.
  pub query-KeepsLimit :
      (decimal : Char → Option ℕ) (resolver : Option String → Resolved) (r : QueryRequest)
      (upstream : Answer) (sent : QuerySent)
      → (handle_session_query_request dump_task dump decimal resolver r upstream).sent ≡ some sent
      → KeepsLimit sent
          (handle_session_query_request dump_task dump decimal resolver r upstream).response
  unfolding handle_session_query_request
  query-KeepsLimit decimal resolver r upstream sent h =
      after_prepare-KeepsLimit r.id upstream (prepare decimal resolver r r.method) sent
        (prepare-SentLimit decimal resolver r r.method) h
