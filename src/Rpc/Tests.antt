-- ===== src/Rpc/Tests.antt =====
-- The JSON-RPC handlers of src/opencode_a2a/jsonrpc at concrete requests.
use opencode_a2a_serve.Base.Names.{none, some, [], ◌∷◌, ◌≡◌, refl, arith}
use opencode_a2a_serve.Base.Equality.{string_eq, option_eq}
use opencode_a2a_serve.Base.Int.{pos}
use opencode_a2a_serve.Base.Sort.{sorted, insert_sorted}
use opencode_a2a_serve.Base.Dict.{lookup, erase_all}
use opencode_a2a_serve.Base.Text.{strip, lower}
use opencode_a2a_serve.Base.Value.{end, field, str, get}
use opencode_a2a_serve.Interrupts.Contract.{
  InterruptRequest, InterruptRequestBinding, bind, unexpired,
}
use opencode_a2a_serve.Interrupts.Memory.{
  MemoryInterrupts, memory_interrupts, resolve, prune_interrupt_requests, prune_tombstones,
  bury_all, expired_requests, expired_tombstones,
}
use opencode_a2a_serve.Interrupts.Memory.Laws.{
  HasNodup, memory_pending, memory_interrupts-HoldsRequests,
}
use opencode_a2a_serve.Rpc.Common.{text_id, unknown_names, reject_unknown_fields}
use opencode_a2a_serve.Rpc.Metadata.{
  extract_directory_from_metadata, extract_workspace_id_from_metadata, parse_metadata_objects,
}
use opencode_a2a_serve.Rpc.Methods.{normalize_permission_reply}
use opencode_a2a_serve.Rpc.InterruptCallbacks.{
  CallbackRequest, reply_permission, permission_reply, Sent, accepted,
  handle_interrupt_callback_request, address, check_binding, check_and_answer,
  resolve_interrupt_request, answer, conclude, reply_of,
}
use opencode_a2a_serve.Rpc.InterruptCallbacks.Laws.{
  MayAnswer, PendingAfter, handle-MayAnswer, handle-PendingAfter,
}

abbrev request : InterruptRequest
request = record {
  request_id = "r";
  session_id = "s";
  interrupt_type = "permission";
  identity = some "ann";
  credential_id = none;
  task_id = none;
  context_id = none;
  details = none;
}

abbrev memory : MemoryInterrupts
memory = record {
  request_ttl_seconds = pos 60;
  tombstone_ttl_seconds = pos 60;
  interrupt_requests = ("r", bind request 20) ∷ [];
  interrupt_request_tombstones = [];
}

memory-HasNodup : HasNodup memory
unfolding lookup
memory-HasNodup = (refl, tt)

abbrev callback : CallbackRequest
callback = record {
  id = text_id "1";
  method = reply_permission;
  params = field "request_id" (str " r ") (field "reply" (str "Once") end);
  user_identity = some "ann";
  user_credential_id = none;
}

abbrev sent : Sent
sent = record {
  request_id = "r";
  reply = permission_reply "once" none;
  directory = none;
  workspace_id = none;
}

replies :
    (handle_interrupt_callback_request memory_interrupts callback 9 accepted (λ m. m) memory).sent
    ≡ some sent
unfolding handle_interrupt_callback_request address check_and_answer resolve_interrupt_request
    answer conclude reply_of extract_directory_from_metadata extract_workspace_id_from_metadata
    parse_metadata_objects check_binding reject_unknown_fields unknown_names get strip lower
    normalize_permission_reply resolve prune_interrupt_requests prune_tombstones bury_all
    expired_requests expired_tombstones lookup string_eq option_eq erase_all sorted insert_sorted
replies = refl

handle-MayAnswer_example :
    (b : InterruptRequestBinding) × (unexpired 9 (memory_pending memory "r") ≡ some b)
    × MayAnswer callback b
handle-MayAnswer_example =
    handle-MayAnswer memory_interrupts HasNodup memory_pending (λ d. d)
      memory_interrupts-HoldsRequests callback 9 accepted (λ m. m) memory sent memory-HasNodup
      replies

handle-PendingAfter_example :
    PendingAfter memory_interrupts memory_pending 9 12 accepted
      (λ m. m)
      memory
      "r"
      (handle_interrupt_callback_request memory_interrupts callback 9 accepted (λ m. m) memory)
handle-PendingAfter_example =
    handle-PendingAfter memory_interrupts HasNodup memory_pending (λ d. d)
      memory_interrupts-HoldsRequests callback 9 12 accepted (λ m. m) memory memory-HasNodup
      (omega arith) (λ m v. v) "r"
