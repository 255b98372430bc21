-- ===== src/Interrupts/Memory.antt =====
-- `MemoryInterruptRequestRepository` of src/opencode_a2a/server/state_store.py.
pub mod Laws
pub mod Listed
use opencode_a2a_serve.Base.Names.{
  ℕ, ◌+◌, String, Bool, true, false, not, ◌&&◌, Option, none, some, List, [], ◌∷◌,
}
use opencode_a2a_serve.Base.Equality.{◌==◌, string_eq, option_eq, if◌then◌else◌}
use opencode_a2a_serve.Base.Lists.{leb}
use opencode_a2a_serve.Base.Text.{is_truthy, strip}
use opencode_a2a_serve.Base.Int.{ℤ, pos, pos_part, le_zero}
use opencode_a2a_serve.Base.Dict.{Dict, lookup, insert, erase, erase_all}
use opencode_a2a_serve.Base.Sort.{sorted}
use opencode_a2a_serve.Interrupts.Contract.{
  InterruptRequestBinding, InterruptRequest, RequestStatus, active, expired, missing, bind,
  ends_before, normalized, is_asked_for, InterruptRepository,
}

-- A tombstone is the time at which it ends.
pub record MemoryInterrupts : Type 0 where
  pub request_ttl_seconds : ℤ
  pub tombstone_ttl_seconds : ℤ
  pub interrupt_requests : Dict String InterruptRequestBinding
  pub interrupt_request_tombstones : Dict String ℕ

-- `[request_id for request_id, binding in ... if binding.expires_at <= now]`
unfoldable pub expired_requests : ℕ → Dict String InterruptRequestBinding → List String
expired_requests now [] = []
expired_requests now ((request_id, b) ∷ rest) =
    let more = expired_requests now rest in if leb b.expires_at now then request_id ∷ more else more

-- The same of tombstones
unfoldable pub expired_tombstones : ℕ → Dict String ℕ → List String
expired_tombstones now [] = []
expired_tombstones now ((request_id, expires_at) ∷ rest) =
    let more = expired_tombstones now rest in if leb expires_at now then request_id ∷ more else more

-- `_remember_interrupt_request_tombstone`
unfoldable pub remember_tombstone : String → ℕ → MemoryInterrupts → MemoryInterrupts
remember_tombstone request_id now m = record m {
  interrupt_request_tombstones =
      if le_zero m.tombstone_ttl_seconds
      then erase request_id m.interrupt_request_tombstones
      else insert request_id (now + pos_part m.tombstone_ttl_seconds)
          m.interrupt_request_tombstones;
}

-- `self._interrupt_requests.pop(request_id, None)`
unfoldable pub pop_request : String → MemoryInterrupts → MemoryInterrupts
pop_request request_id m = record m { interrupt_requests = erase request_id m.interrupt_requests }

-- The loop of `_prune_interrupt_requests`
unfoldable pub bury_all : List String → ℕ → MemoryInterrupts → MemoryInterrupts
unfolding remember_tombstone pop_request
bury_all [] now m = m
bury_all (request_id ∷ rest) now m =
    bury_all rest now (remember_tombstone request_id now (pop_request request_id m))

-- `_prune_interrupt_requests`
unfoldable pub prune_interrupt_requests : ℕ → MemoryInterrupts → MemoryInterrupts
prune_interrupt_requests now m = bury_all (expired_requests now m.interrupt_requests) now m

-- `_prune_interrupt_request_tombstones`
unfoldable pub prune_tombstones : ℕ → MemoryInterrupts → MemoryInterrupts
prune_tombstones now m = record m {
  interrupt_request_tombstones =
      erase_all (expired_tombstones now m.interrupt_request_tombstones)
        m.interrupt_request_tombstones;
}

-- `remember`, with the time to live that is passed, or that of the repository
unfoldable pub remember : InterruptRequest → Option ℤ → ℕ → MemoryInterrupts → MemoryInterrupts
remember r ttl_seconds now m =
    let pruned = prune_tombstones now (prune_interrupt_requests now m) in
    let ttl : ℤ = elim ttl_seconds [ none ↦ m.request_ttl_seconds | some t ↦ t ] in
    record pruned {
      interrupt_requests =
          insert r.request_id (bind r (now + pos_part ttl)) pruned.interrupt_requests;
      interrupt_request_tombstones = erase r.request_id pruned.interrupt_request_tombstones;
    }

found_request :
    String
    → ℕ
    → MemoryInterrupts
    → Option InterruptRequestBinding
    → (RequestStatus × Option InterruptRequestBinding) × MemoryInterrupts
found_request request_id now m none = elim (lookup request_id m.interrupt_request_tombstones) [
  | some _ ↦ ((expired, none), m)
  | none ↦ ((missing, none), m)
]
found_request request_id now m (some b) =
    if leb b.expires_at now
    then (
      (expired, none),
      remember_tombstone request_id now (prune_interrupt_requests now (pop_request request_id m)),
    )
    else ((active, some b), prune_interrupt_requests now m)

-- `resolve`
unfoldable pub resolve :
    String
    → ℕ
    → MemoryInterrupts
    → (RequestStatus × Option InterruptRequestBinding) × MemoryInterrupts
unfolding found_request
resolve request_id now m =
    if not (is_truthy request_id)
    then ((missing, none), m)
    else let m' = prune_tombstones now m in
      found_request request_id now m' (lookup request_id m'.interrupt_requests)

-- `discard`
unfoldable pub discard : String → MemoryInterrupts → MemoryInterrupts
discard request_id m = record m {
  interrupt_requests = erase request_id m.interrupt_requests;
  interrupt_request_tombstones = erase request_id m.interrupt_request_tombstones;
}

-- The requests that `list_pending` lists, as they are stored
unfoldable pub asked_for :
    String → Option String → ℕ → Dict String InterruptRequestBinding → List InterruptRequestBinding
asked_for identity normalized_type now [] = []
asked_for identity normalized_type now ((_, b) ∷ rest) =
    let more = asked_for identity normalized_type now rest in
    if is_asked_for identity normalized_type now b.identity b.interrupt_type b.expires_at
    then b ∷ more
    else more

-- `list_pending`
unfoldable pub list_pending :
    String → Option String → ℕ → MemoryInterrupts → List InterruptRequestBinding × MemoryInterrupts
list_pending identity interrupt_type now m =
    let pruned = prune_tombstones now (prune_interrupt_requests now m) in
    (
      sorted ends_before
          (asked_for identity (normalized interrupt_type) now pruned.interrupt_requests),
      pruned,
    )

-- The operations, with `ttl_seconds` given to `remember`
abbrev pub memory_interrupts : InterruptRepository
memory_interrupts = record {
  State = MemoryInterrupts;
  remember = λ r ttl now m. remember r (some (pos ttl)) now m;
  resolve = resolve;
  discard = discard;
}
