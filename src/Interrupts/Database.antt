-- ===== src/Interrupts/Database.antt =====
-- `DatabaseInterruptRequestRepository` of src/opencode_a2a/server/state_store.py. `dumps` and `loads`
-- are `json.dumps` and `json.loads`, with `none` for a `JSONDecodeError`.
pub mod Laws
pub mod Held
use opencode_a2a_serve.Base.Names.{
  ℕ, ◌+◌, String, Bool, true, false, not, Option, none, some, List, [], ◌∷◌,
}
use opencode_a2a_serve.Base.Equality.{◌==◌, string_eq, if◌then◌else◌}
use opencode_a2a_serve.Base.Lists.{leb, ltb}
use opencode_a2a_serve.Base.Text.{is_truthy}
use opencode_a2a_serve.Base.Int.{ℤ, pos, pos_part, le_zero}
use opencode_a2a_serve.Base.Dict.{Dict, lookup}
use opencode_a2a_serve.Base.Value.{Value, dict, Fields}
use opencode_a2a_serve.Tables.{insert_then_update, update_row, delete_where}
use opencode_a2a_serve.Base.Sort.{sorted}
use opencode_a2a_serve.Interrupts.Contract.{
  InterruptRequestBinding, InterruptRequest, RequestStatus, active, expired, missing, ends_before,
  normalized, is_asked_for, InterruptRepository,
}

-- The columns of `a2a_interrupt_requests` beside the key `request_id`
pub record InterruptRow : Type 0 where
  pub session_id : Option String
  pub interrupt_type : Option String
  pub identity : Option String
  pub credential_id : Option String
  pub task_id : Option String
  pub context_id : Option String
  pub details_json : Option String
  pub expires_at : Option ℕ
  pub tombstone_expires_at : Option ℕ

pub record DatabaseInterrupts : Type 0 where
  pub request_ttl_seconds : ℤ
  pub tombstone_ttl_seconds : ℤ
  pub interrupt_requests : Dict String InterruptRow

-- The WHERE clause of `_prune_tombstones`
unfoldable pub is_over_tombstone : ℕ → InterruptRow → Bool
is_over_tombstone now row = elim row.tombstone_expires_at [ none ↦ false | some x ↦ leb x now ]

-- `_prune_tombstones`
unfoldable pub prune_tombstones : ℕ → DatabaseInterrupts → DatabaseInterrupts
prune_tombstones now d = record d {
  interrupt_requests = delete_where (λ _ row. is_over_tombstone now row) d.interrupt_requests;
}

-- The row of a tombstone that ends at a time, or of none
abbrev pub tombstone : Option ℕ → InterruptRow
tombstone tombstone_expires_at = record {
  session_id = none;
  interrupt_type = none;
  identity = none;
  credential_id = none;
  task_id = none;
  context_id = none;
  details_json = none;
  expires_at = none;
  tombstone_expires_at = tombstone_expires_at;
}

-- `_set_tombstone`
unfoldable pub set_tombstone : String → ℕ → DatabaseInterrupts → DatabaseInterrupts
set_tombstone request_id now d = record d {
  interrupt_requests =
      update_row request_id
        (tombstone (
          if le_zero d.tombstone_ttl_seconds
          then none
          else some (now + pos_part d.tombstone_ttl_seconds)))
        d.interrupt_requests;
}

-- `discard`
unfoldable pub discard : String → DatabaseInterrupts → DatabaseInterrupts
discard request_id d = record d {
  interrupt_requests = delete_where (λ k _. k == request_id) d.interrupt_requests;
}

module _ (dumps : Fields → String) (loads : String → Option Value) where
  -- `_encode_details`
  abbrev pub encode_details : Option Fields → Option String
  encode_details none = none
  encode_details (some d) = some (dumps d)

  decoded : Option Value → Option Fields
  decoded (some (dict d)) = some d
  decoded _ = none

  -- `_decode_details`
  unfoldable pub decode_details : Option String → Option Fields
  unfolding decoded
  decode_details none = none
  decode_details (some text) = if is_truthy text then decoded (loads text) else none

  -- The row that `remember` writes
  abbrev pub row_of : InterruptRequest → ℕ → InterruptRow
  row_of r expires_at = record {
    session_id = some r.session_id;
    interrupt_type = some r.interrupt_type;
    identity = r.identity;
    credential_id = r.credential_id;
    task_id = r.task_id;
    context_id = r.context_id;
    details_json = encode_details r.details;
    expires_at = some expires_at;
    tombstone_expires_at = none;
  }

  -- The binding that `resolve` makes of a row
  abbrev pub binding_of : String → InterruptRow → ℕ → InterruptRequestBinding
  binding_of request_id row expires_at = record {
    request_id = request_id;
    session_id = row.session_id;
    interrupt_type = row.interrupt_type;
    identity = row.identity;
    credential_id = row.credential_id;
    task_id = row.task_id;
    context_id = row.context_id;
    details = decode_details row.details_json;
    expires_at = expires_at;
  }

  -- `remember`, with the time to live that is passed, or that of the repository
  unfoldable pub remember :
      InterruptRequest → Option ℤ → ℕ → DatabaseInterrupts → DatabaseInterrupts
  remember r ttl_seconds now d =
      let pruned = prune_tombstones now d in
      let ttl : ℤ = elim ttl_seconds [ none ↦ d.request_ttl_seconds | some t ↦ t ] in
      record pruned {
        interrupt_requests =
            insert_then_update r.request_id (row_of r (now + pos_part ttl))
              pruned.interrupt_requests;
      }

  unexpired_row :
      String
      → ℕ
      → DatabaseInterrupts
      → InterruptRow
      → (RequestStatus × Option InterruptRequestBinding) × DatabaseInterrupts
  unexpired_row request_id now d row = elim row.expires_at [
    | none ↦ ((missing, none), d)
    | some expires_at ↦
        if leb expires_at now
        then ((expired, none), set_tombstone request_id now d)
        else ((active, some (binding_of request_id row expires_at)), d)
  ]

  -- What `resolve` does with the row that it finds
  unfoldable pub resolve_row :
      String
      → ℕ
      → DatabaseInterrupts
      → Option InterruptRow
      → (RequestStatus × Option InterruptRequestBinding) × DatabaseInterrupts
  unfolding unexpired_row
  resolve_row request_id now d none = ((missing, none), d)
  resolve_row request_id now d (some row) =
      if (elim row.tombstone_expires_at [ none ↦ false | some x ↦ ltb now x ])
      then ((expired, none), d)
      else unexpired_row request_id now d row

  -- `resolve`
  unfoldable pub resolve :
      String
      → ℕ
      → DatabaseInterrupts
      → (RequestStatus × Option InterruptRequestBinding) × DatabaseInterrupts
  resolve request_id now d =
      if not (is_truthy request_id)
      then ((missing, none), d)
      else let d' = prune_tombstones now d in
        resolve_row request_id now d' (lookup request_id d'.interrupt_requests)

  -- The bindings of the rows that `list_pending` selects, as they are stored
  unfoldable pub selected :
      String → Option String → ℕ → Dict String InterruptRow → List InterruptRequestBinding
  selected identity normalized_type now [] = []
  selected identity normalized_type now ((request_id, row) ∷ rest) =
      let more = selected identity normalized_type now rest in
      elim row.expires_at [
        | none ↦ more
        | some x ↦
            if is_asked_for identity normalized_type now row.identity row.interrupt_type x
            then binding_of request_id row x ∷ more
            else more
      ]

  -- `list_pending`, where texts are ordered by their code points
  unfoldable pub list_pending :
      String
      → Option String
      → ℕ
      → DatabaseInterrupts
      → List InterruptRequestBinding × DatabaseInterrupts
  list_pending identity interrupt_type now d =
      let pruned = prune_tombstones now d in
      (
        sorted ends_before
            (selected identity (normalized interrupt_type) now pruned.interrupt_requests),
        pruned,
      )

  -- The operations, with `ttl_seconds` given to `remember`
  abbrev pub database_interrupts : InterruptRepository
  database_interrupts = record {
    State = DatabaseInterrupts;
    remember = λ r ttl now d. remember r (some (pos ttl)) now d;
    resolve = resolve;
    discard = discard;
  }
