-- ===== src/Interrupts/Tests.antt =====
-- The repositories of interrupt requests of src/opencode_a2a/server/state_store.py with one request.
use opencode_a2a_serve.Base.Names.{
  String, true, false, Option, none, some, List, [], ◌∷◌, ◌≡◌, ◌≢◌, ◌↔◌, ap, refl, arith,
}
use opencode_a2a_serve.Base.Equality.{◌==◌, string_eq, option_eq}
use opencode_a2a_serve.Base.Int.{pos}
use opencode_a2a_serve.Base.Dict.{lookup, insert, erase}
use opencode_a2a_serve.Base.Value.{Value, Fields, end, dict, field, str}
use opencode_a2a_serve.Interrupts.Contract.{
  InterruptRequest, active, expired, bind, HoldsRequests, ends_before, normalized, is_asked_for,
}
use opencode_a2a_serve.Interrupts.Memory.{
  MemoryInterrupts, remember, resolve, memory_interrupts, expired_requests, expired_tombstones,
  prune_interrupt_requests, prune_tombstones, bury_all, remember_tombstone, pop_request, asked_for,
  list_pending,
}
use opencode_a2a_serve.Base.Sort.{IsSorted, sorted, insert_sorted}
use opencode_a2a_serve.Base.Text.{text_leb, strip}
use opencode_a2a_serve.Interrupts.Memory.Listed.{IsListed, list_pending_iff}
use opencode_a2a_serve.Interrupts.Memory.Laws.{
  HasNodup, memory_pending, memory_interrupts-HoldsRequests,
}
use opencode_a2a_serve.Interrupts.Database.{DatabaseInterrupts, database_interrupts}
use opencode_a2a_serve.Interrupts.Database.Laws.{IsRequestTable, database_pending}
use opencode_a2a_serve.Interrupts.Database.Held.{read_back, database_interrupts-HoldsRequests}
use opencode_a2a_serve.Interrupts.Life.{
  RequestCall, remembers, resolves, discards, run_calls, resolve-remember_active,
  resolve-remember_over,
}

abbrev request : String → InterruptRequest
request i = record {
  request_id = i;
  session_id = "s";
  interrupt_type = "permission";
  identity = some "ann";
  credential_id = none;
  task_id = some "t";
  context_id = some "c";
  details = some (field "permission" (str "edit") end);
}

abbrev memory : MemoryInterrupts
memory = record {
  request_ttl_seconds = pos 60;
  tombstone_ttl_seconds = pos 60;
  interrupt_requests = [];
  interrupt_request_tombstones = [];
}

abbrev table : DatabaseInterrupts
table = record {
  request_ttl_seconds = pos 60;
  tombstone_ttl_seconds = pos 60;
  interrupt_requests = [];
}

abbrev dumps : Fields → String
dumps d = "{}"

abbrev loads : String → Option Value
loads text = some (dict end)

table-IsRequestTable : IsRequestTable table
unfolding lookup
table-IsRequestTable = record { nodup = tt; buried = λ i. tt }

abbrev calls : List RequestCall
calls = remembers (request "q") 5 2 ∷ resolves "q" 8 ∷ discards "q" ∷ []

differ : ◌≢◌ {A = String} "r" "q"
unfolding string_eq
differ same = let q : false ≡ true = ap (λ (s : String). s == "q") same in absurd (cc)

resolve-remember_active_example :
    (resolve "r" 9
      (run_calls memory_interrupts (remember (request "r") (some (pos 10)) 1 memory) calls)).0
    ≡ (active, some (bind (request "r") 11))
resolve-remember_active_example =
    resolve-remember_active memory_interrupts HasNodup memory_pending (λ d. d)
      memory_interrupts-HoldsRequests (request "r") 10 1 9 calls memory tt refl (omega arith)
      (omega arith) ((omega arith, differ), (omega arith, (differ, tt)))

resolve-remember_over_example :
    let R = database_interrupts dumps loads in
    let answer = (R.resolve "r" 12 (run_calls R (R.remember (request "r") 10 1 table) calls)).0 in
    (answer.1 ≡ none) × (answer.0 ≢ active)
resolve-remember_over_example =
    resolve-remember_over (database_interrupts dumps loads) IsRequestTable
      (database_pending dumps loads) (read_back dumps loads)
      (database_interrupts-HoldsRequests dumps loads) (request "r") 10 1 12 calls table
      table-IsRequestTable (omega arith) ((omega arith, differ), (omega arith, (differ, tt)))

database_interrupts-HoldsRequests_example :
    HoldsRequests
      (database_interrupts dumps loads)
      IsRequestTable
      (database_pending dumps loads)
      (read_back dumps loads)
database_interrupts-HoldsRequests_example = database_interrupts-HoldsRequests dumps loads

expires :
    (resolve "r" 11
      (remember (request "r") none 1 (record memory { request_ttl_seconds = pos 10 }))).0
    ≡ (expired, none)
unfolding resolve remember prune_interrupt_requests prune_tombstones bury_all expired_requests
    expired_tombstones remember_tombstone lookup insert erase string_eq
expires = refl

abbrev two_requests : MemoryInterrupts
two_requests = record memory {
  interrupt_requests =
      ("r", bind (request "r") 20)
      ∷ ("q", bind (request "q") 11)
      ∷ ("p", bind (request "p") 5)
      ∷ [];
}

two_requests-HasNodup : HasNodup two_requests
unfolding lookup string_eq
two_requests-HasNodup = (refl, (refl, (refl, tt)))

list_pending_iff_example :
    let listed = (list_pending "ann" (some " permission") 9 two_requests).0 in
    IsSorted ends_before listed
    × (IsListed (bind (request "q") 11) listed ↔ (
        (i : String) × (memory_pending two_requests i ≡ some (bind (request "q") 11))
        × (is_asked_for "ann"
              (normalized (some " permission"))
              9
              (some "ann")
              (some "permission")
              11
            ≡ true)))
list_pending_iff_example =
    list_pending_iff two_requests two_requests-HasNodup 9 "ann" (some " permission")
      (bind (request "q") 11)

lists_in_order :
    (list_pending "ann" (some " permission") 9 two_requests).0
    ≡ bind (request "q") 11 ∷ bind (request "r") 20 ∷ []
unfolding list_pending prune_interrupt_requests prune_tombstones bury_all expired_requests
    expired_tombstones remember_tombstone pop_request asked_for sorted insert_sorted text_leb strip
    lookup insert erase string_eq option_eq
lists_in_order = refl
