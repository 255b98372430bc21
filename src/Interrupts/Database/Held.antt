-- ===== src/Interrupts/Database/Held.antt =====
-- The contract of `InterruptRequestRepository` of src/opencode_a2a/server/state_store.py for its
-- implementation on a database.
use opencode_a2a_serve.Base.Names.{
  ℕ, ◌+◌, ◌≤◌, String, true, Option, none, some, ◌≡◌, ◌≢◌, refl, arith, ◌∙◌, ap, inl, inr,
}
use opencode_a2a_serve.Base.Equality.{◌==◌, string_eq, if◌then◌else◌, Bool-cases}
use opencode_a2a_serve.Base.Text.{is_truthy}
use opencode_a2a_serve.Base.Int.{pos}
use opencode_a2a_serve.Base.Dict.{lookup}
use opencode_a2a_serve.Base.Value.{Value, Fields}
use opencode_a2a_serve.Tables.Laws.{lookup-insert_then_update, insert_then_update-NodupKeys}
use opencode_a2a_serve.Interrupts.Contract.{
  InterruptRequestBinding, InterruptRequest, active, bind, unexpired, HoldsRequests,
}
use opencode_a2a_serve.Interrupts.Database.{
  InterruptRow, DatabaseInterrupts, prune_tombstones, encode_details, decode_details, row_of,
  remember, resolve, database_interrupts,
}
use opencode_a2a_serve.Interrupts.Database.Laws.{
  IsRequestTable, row_pending, database_pending, resolve_row_is, resolve_row_status,
  resolve_row_active, pending-prune, prune-IsRequestTable, pending-resolve_row,
  resolve_row-IsRequestTable, pending-discard_is, discard-IsRequestTable,
}

module _ (dumps : Fields → String) (loads : String → Option Value) where
  -- What storing and reading makes of the details
  abbrev pub read_back : Option Fields → Option Fields
  read_back details = decode_details dumps loads (encode_details dumps loads details)

  module _ (d : DatabaseInterrupts) (v : IsRequestTable d) where
    abbrev pruned_row : String → ℕ → Option InterruptRow
    pruned_row i now = lookup i (prune_tombstones now d).interrupt_requests

    unexpired-pruned :
        (i : String) (now : ℕ)
        → unexpired now (row_pending dumps loads i (pruned_row i now))
          ≡ unexpired now (database_pending dumps loads d i)
    unexpired-pruned i now = ap (unexpired now) (pending-prune dumps loads d v now i)

    resolve_active_is :
        (i : String) (now : ℕ) (b : InterruptRequestBinding)
        → is_truthy i ≡ true
        → unexpired now (database_pending dumps loads d i) ≡ some b
        → (resolve dumps loads i now d).0 ≡ (active, some b)
    unfolding resolve
    resolve_active_is i now b given h = rw given (
        resolve_row_active dumps loads i now (prune_tombstones now d) (pruned_row i now) b
          ((prune-IsRequestTable dumps loads d v now).buried i) (unexpired-pruned i now ∙ h))

    resolve_inactive_is :
        (i : String) (now : ℕ)
        → unexpired now (database_pending dumps loads d i) ≡ none
        → ((resolve dumps loads i now d).0.1 ≡ none) × ((resolve dumps loads i now d).0.0 ≢ active)
    unfolding resolve
    resolve_inactive_is i now h =
        let buried = (prune-IsRequestTable dumps loads d v now).buried i in
        let ended = unexpired-pruned i now ∙ h in
        elim (Bool-cases (is_truthy i)) [
          | inl given ↦ rw given (
            resolve_row_is dumps loads i now (prune_tombstones now d) (pruned_row i now) buried
                ∙ ended,
            resolve_row_status dumps loads i now (prune_tombstones now d) (pruned_row i now) buried
                ended,
          )
          | inr blank ↦ rw blank (refl, λ e. cc)
        ]

    pending-resolve_is :
        (i j : String) (now t : ℕ)
        → now ≤ t
        → unexpired t (database_pending dumps loads (resolve dumps loads j now d).1 i)
          ≡ unexpired t (database_pending dumps loads d i)
    unfolding resolve
    pending-resolve_is i j now t h = elim (Bool-cases (is_truthy j)) [
      | inl given ↦ rw given (
          pending-resolve_row dumps loads (prune_tombstones now d)
            (prune-IsRequestTable dumps loads d v now) i j now t (pruned_row j now) h refl
          ∙ ap (unexpired t) (pending-prune dumps loads d v now i))
      | inr blank ↦ rw blank refl
    ]

    resolve-IsRequestTable : (j : String) (now : ℕ) → IsRequestTable (resolve dumps loads j now d).1
    unfolding resolve
    resolve-IsRequestTable j now = elim (Bool-cases (is_truthy j)) [
      | inl given ↦ rw given (
          resolve_row-IsRequestTable dumps loads (prune_tombstones now d)
            (prune-IsRequestTable dumps loads d v now) j now (pruned_row j now))
      | inr blank ↦ rw blank v
    ]

    lookup-remember :
        (i : String) (r : InterruptRequest) (ttl now : ℕ)
        → lookup i (remember dumps loads r (some (pos ttl)) now d).interrupt_requests ≡ (
            if i == r.request_id then some (row_of dumps loads r (now + ttl)) else pruned_row i now)
    unfolding remember
    lookup-remember i r ttl now =
        lookup-insert_then_update i r.request_id (row_of dumps loads r (now + ttl))
          (prune_tombstones now d).interrupt_requests

    pending-remember_is :
        (i : String) (r : InterruptRequest) (ttl now t : ℕ)
        → unexpired t
            (database_pending dumps loads (remember dumps loads r (some (pos ttl)) now d) i)
          ≡ (if i == r.request_id
              then unexpired t
                  (some (bind (record r { details = read_back r.details }) (now + ttl)))
              else unexpired t (database_pending dumps loads d i))
    pending-remember_is i r ttl now t =
        rw (lookup-remember i r ttl now) (ground (arith, pending-prune dumps loads d v now i))

    remember-IsRequestTable :
        (r : InterruptRequest) (ttl now : ℕ)
        → IsRequestTable (remember dumps loads r (some (pos ttl)) now d)
    remember-IsRequestTable r ttl now =
        let p = prune-IsRequestTable dumps loads d v now in
        record {
          nodup =
              unfold remember in
              insert_then_update-NodupKeys r.request_id (row_of dumps loads r (now + ttl))
                (prune_tombstones now d).interrupt_requests p.nodup;
          buried = λ i. rw (lookup-remember i r ttl now) (ground (arith, p.buried i));
        }

  -- The repository on a database holds requests as the contract says, as long as no id stands
  -- twice and no row has both a request and a tombstone, which every method keeps. The details of
  -- a request come back as storing and reading JSON gives them.
  pub database_interrupts-HoldsRequests :
      HoldsRequests
        (database_interrupts dumps loads)
        IsRequestTable
        (database_pending dumps loads)
        read_back
  database_interrupts-HoldsRequests = record {
    resolve_active = λ i now d b v given h. resolve_active_is d v i now b given h;
    resolve_inactive = λ i now d v h. resolve_inactive_is d v i now h;
    pending-resolve = λ i j now t d v h. pending-resolve_is d v i j now t h;
    pending-remember = λ i r ttl now t d v h. pending-remember_is d v i r ttl now t;
    pending-discard = λ i j t d v. pending-discard_is dumps loads d v i j t;
    resolve-IsValid = λ j now d v. resolve-IsRequestTable d v j now;
    remember-IsValid = λ r ttl now d v. remember-IsRequestTable d v r ttl now;
    discard-IsValid = λ j d v. discard-IsRequestTable dumps loads d v j;
  }
