-- ===== src/Interrupts/Contract.antt =====
-- The abstract class `InterruptRequestRepository` of src/opencode_a2a/server/state_store.py, the
-- records of src/opencode_a2a/runtime_state.py, and what a repository promises: a request that was
-- remembered is pending until it is discarded or its time is over.
use opencode_a2a_serve.Base.Names.{
  ℕ, ◌+◌, ◌≤◌, String, Bool, true, false, not, ◌&&◌, Option, none, some, ◌≡◌, ◌≢◌,
}
use opencode_a2a_serve.Base.Equality.{◌==◌, string_eq, option_eq, if◌then◌else◌}
use opencode_a2a_serve.Base.Lists.{leb}
use opencode_a2a_serve.Base.Text.{is_truthy, strip, text_leb}
use opencode_a2a_serve.Base.Value.{Fields}

-- `session_id` and `interrupt_type` are `None` only where a database has such a row.
pub record InterruptRequestBinding : Type 0 where
  pub request_id : String
  pub session_id : Option String
  pub interrupt_type : Option String
  pub identity : Option String
  pub credential_id : Option String
  pub task_id : Option String
  pub context_id : Option String
  pub details : Option Fields
  pub expires_at : ℕ

-- The arguments of `remember` that describe a request
pub record InterruptRequest : Type 0 where
  pub request_id : String
  pub session_id : String
  pub interrupt_type : String
  pub identity : Option String
  pub credential_id : Option String
  pub task_id : Option String
  pub context_id : Option String
  pub details : Option Fields

-- The first component of what `resolve` returns
pub data RequestStatus : Type 0 where
  active expired missing : RequestStatus

-- A request with the time at which it ends
abbrev pub bind : InterruptRequest → ℕ → InterruptRequestBinding
bind r expires_at = record {
  request_id = r.request_id;
  session_id = some r.session_id;
  interrupt_type = some r.interrupt_type;
  identity = r.identity;
  credential_id = r.credential_id;
  task_id = r.task_id;
  context_id = r.context_id;
  details = r.details;
  expires_at = expires_at;
}

-- The order of `list_pending`: `(item.expires_at, item.request_id)`
abbrev pub ends_before : InterruptRequestBinding → InterruptRequestBinding → Bool
ends_before a b =
    if leb a.expires_at b.expires_at
    then (if leb b.expires_at a.expires_at then text_leb a.request_id b.request_id else true)
    else false

-- `interrupt_type.strip()` for a text
abbrev pub normalized : Option String → Option String
normalized none = none
normalized (some t) = some (strip t)

-- Whether `list_pending` lists a request that is stored with these values.
abbrev pub is_asked_for : String → Option String → ℕ → Option String → Option String → ℕ → Bool
is_asked_for identity normalized_type now row_identity row_type expires_at =
    row_identity == some identity
    && (elim normalized_type [ none ↦ true | some t ↦ row_type == some t ])
    && not (leb expires_at now)

pub record InterruptRepository : Type 1 where
  pub State : Type 0
  pub remember : InterruptRequest → ℕ → ℕ → State → State
  pub resolve : String → ℕ → State → (RequestStatus × Option InterruptRequestBinding) × State
  pub discard : String → State → State

-- A request that has ended is none.
abbrev pub unexpired : ℕ → Option InterruptRequestBinding → Option InterruptRequestBinding
unexpired now none = none
unexpired now (some b) = if leb b.expires_at now then none else some b

-- `pending` is what was remembered under an id and not discarded; it may keep what has ended. The
-- laws look at it at times that are not before the call, and `remember r ttl now` gives `r` for `ttl`.
-- `stored_details` is what storing and reading makes of the details.
pub record HoldsRequests (R : InterruptRepository) (IsValid : R.State → Type 0)
    (pending : R.State → String → Option InterruptRequestBinding)
    (stored_details : Option Fields → Option Fields) : Type 0 where
  pub resolve_active :
      (i : String) (now : ℕ) (st : R.State) (b : InterruptRequestBinding)
      → IsValid st
      → is_truthy i ≡ true
      → unexpired now (pending st i) ≡ some b
      → (R.resolve i now st).0 ≡ (active, some b)
  pub resolve_inactive :
      (i : String) (now : ℕ) (st : R.State)
      → IsValid st
      → unexpired now (pending st i) ≡ none
      → ((R.resolve i now st).0.1 ≡ none) × ((R.resolve i now st).0.0 ≢ active)
  pub pending-resolve :
      (i j : String) (now t : ℕ) (st : R.State)
      → IsValid st
      → now ≤ t
      → unexpired t (pending (R.resolve j now st).1 i) ≡ unexpired t (pending st i)
  pub pending-remember :
      (i : String) (r : InterruptRequest) (ttl now t : ℕ) (st : R.State)
      → IsValid st
      → now ≤ t
      → unexpired t (pending (R.remember r ttl now st) i) ≡ (
          if i == r.request_id
          then unexpired t
              (some (bind (record r { details = stored_details r.details }) (now + ttl)))
          else unexpired t (pending st i))
  pub pending-discard :
      (i j : String) (t : ℕ) (st : R.State)
      → IsValid st
      → unexpired t (pending (R.discard j st) i)
        ≡ (if i == j then none else unexpired t (pending st i))
  pub resolve-IsValid :
      (i : String) (now : ℕ) (st : R.State) → IsValid st → IsValid (R.resolve i now st).1
  pub remember-IsValid :
      (r : InterruptRequest) (ttl now : ℕ) (st : R.State)
      → IsValid st
      → IsValid (R.remember r ttl now st)
  pub discard-IsValid : (i : String) (st : R.State) → IsValid st → IsValid (R.discard i st)
