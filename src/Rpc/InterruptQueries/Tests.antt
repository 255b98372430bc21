-- ===== src/Rpc/InterruptQueries/Tests.antt =====
-- src/opencode_a2a/jsonrpc/handlers/interrupt_queries.py with requests of "ann" and "ben".
use opencode_a2a_serve.Base.Names.{String, none, some, [], ◌∷◌, ◌≡◌, refl}
use opencode_a2a_serve.Base.Equality.{string_eq, option_eq}
use opencode_a2a_serve.Base.Int.{pos}
use opencode_a2a_serve.Base.Dict.{lookup, erase_all}
use opencode_a2a_serve.Base.Sort.{sorted, insert_sorted}
use opencode_a2a_serve.Base.Text.{strip}
use opencode_a2a_serve.Base.Value.{end}
use opencode_a2a_serve.Interrupts.Contract.{InterruptRequest, bind}
use opencode_a2a_serve.Interrupts.Memory.{
  MemoryInterrupts, list_pending, prune_interrupt_requests, prune_tombstones, bury_all,
  expired_requests, expired_tombstones, asked_for,
}
use opencode_a2a_serve.Interrupts.Memory.Laws.{HasNodup}
use opencode_a2a_serve.Rpc.Common.{
  text_id, build_success_response, reject_unknown_fields, unknown_names,
}
use opencode_a2a_serve.Rpc.InterruptQueries.{
  ListingRequest, list_permissions, listed, list_interrupt_requests, handle_interrupt_query_request,
}
use opencode_a2a_serve.Rpc.InterruptQueries.Own.{ShowsOwn, query-ShowsOwn}

abbrev request : String → String → InterruptRequest
request request_id identity = record {
  request_id = request_id;
  session_id = "s";
  interrupt_type = "permission";
  identity = some identity;
  credential_id = none;
  task_id = none;
  context_id = none;
  details = none;
}

abbrev memory : MemoryInterrupts
memory = record {
  request_ttl_seconds = pos 60;
  tombstone_ttl_seconds = pos 60;
  interrupt_requests = ("r", bind (request "r" "ann") 20) ∷ ("q", bind (request "q" "ben") 20) ∷ [];
  interrupt_request_tombstones = [];
}

memory-HasNodup : HasNodup memory
unfolding lookup string_eq
memory-HasNodup = (refl, (refl, tt))

abbrev query : ListingRequest
query = record {
  id = text_id "1";
  method = list_permissions;
  params = end;
  user_identity = some " ann ";
}

shows_one :
    (handle_interrupt_query_request list_pending query 9 none memory).0
    ≡ build_success_response (text_id "1") (listed (bind (request "r" "ann") 20 ∷ []))
unfolding handle_interrupt_query_request list_interrupt_requests list_pending asked_for
    prune_interrupt_requests prune_tombstones bury_all expired_requests expired_tombstones
    reject_unknown_fields unknown_names sorted insert_sorted strip string_eq option_eq erase_all
shows_one = refl

query-ShowsOwn_example :
    ShowsOwn query 9 memory (handle_interrupt_query_request list_pending query 9 none memory).0
query-ShowsOwn_example = query-ShowsOwn query 9 memory memory-HasNodup refl
