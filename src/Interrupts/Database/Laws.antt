-- ===== src/Interrupts/Database/Laws.antt =====
-- `DatabaseInterruptRequestRepository` of src/opencode_a2a/server/state_store.py against the contract.
use opencode_a2a_serve.Base.Names.{
  ℕ, ◌+◌, ◌≤◌, String, Option, none, some, ◌≡◌, ◌≢◌, refl, arith, inl, inr,
}
use opencode_a2a_serve.Base.Equality.{◌==◌, string_eq, if◌then◌else◌, Bool-cases, Option-cases}
use opencode_a2a_serve.Base.Int.{pos_part, le_zero}
use opencode_a2a_serve.Base.Dict.{lookup, NodupKeys}
use opencode_a2a_serve.Base.Value.{Value, Fields}
use opencode_a2a_serve.Tables.Laws.{
  lookup-update_row, lookup-delete_where, lookup-delete_key, kept, delete_where-NodupKeys,
  update_row-NodupKeys,
}
use opencode_a2a_serve.Interrupts.Contract.{InterruptRequestBinding, active, unexpired}
use opencode_a2a_serve.Interrupts.Database.{
  InterruptRow, DatabaseInterrupts, is_over_tombstone, prune_tombstones, tombstone, set_tombstone,
  discard, binding_of, resolve_row,
}

-- A row with a tombstone has no request.
abbrev pub IsBuried : Option InterruptRow → Type 0
IsBuried none = Unit
IsBuried (some row) = elim row.tombstone_expires_at [
  | none ↦ Unit {0}
  | some x ↦ row.expires_at ≡ none
]

pub record IsRequestTable (d : DatabaseInterrupts) : Type 0 where
  pub nodup : NodupKeys d.interrupt_requests
  pub buried : (i : String) → IsBuried (lookup i d.interrupt_requests)

module _ (dumps : Fields → String) (loads : String → Option Value) where
  abbrev pub row_pending : String → Option InterruptRow → Option InterruptRequestBinding
  row_pending i none = none
  row_pending i (some row) = elim row.expires_at [
    | none ↦ none
    | some x ↦ some (binding_of dumps loads i row x)
  ]

  abbrev pub database_pending : DatabaseInterrupts → String → Option InterruptRequestBinding
  database_pending d i = row_pending i (lookup i d.interrupt_requests)

  pending-kept :
      (i : String) (now : ℕ) (row : Option InterruptRow)
      → IsBuried row
      → row_pending i (kept (λ _ r. is_over_tombstone now r) i row) ≡ row_pending i row
  unfolding is_over_tombstone
  pending-kept i now none b = refl
  pending-kept i now (some row) b = ground arith

  kept-IsBuried :
      (i : String) (now : ℕ) (row : Option InterruptRow)
      → IsBuried row
      → IsBuried (kept (λ _ r. is_over_tombstone now r) i row)
  unfolding is_over_tombstone
  kept-IsBuried i now none b = tt
  kept-IsBuried i now (some row) b = ground arith

  pub resolve_row_is :
      (i : String) (now : ℕ) (d : DatabaseInterrupts) (row : Option InterruptRow)
      → IsBuried row
      → (resolve_row dumps loads i now d row).0.1 ≡ unexpired now (row_pending i row)
  unfolding resolve_row
  resolve_row_is i now d none b = refl
  resolve_row_is i now d (some row) b = ground arith

  pub resolve_row_status :
      (i : String) (now : ℕ) (d : DatabaseInterrupts) (row : Option InterruptRow)
      → IsBuried row
      → unexpired now (row_pending i row) ≡ none
      → (resolve_row dumps loads i now d row).0.0 ≢ active
  unfolding resolve_row
  resolve_row_status i now d none b h = λ e. cc
  resolve_row_status i now d (some row) b h = ground arith

  pub resolve_row_active :
      (i : String) (now : ℕ) (d : DatabaseInterrupts) (row : Option InterruptRow)
      (c : InterruptRequestBinding)
      → IsBuried row
      → unexpired now (row_pending i row) ≡ some c
      → (resolve_row dumps loads i now d row).0 ≡ (active, some c)
  unfolding resolve_row
  resolve_row_active i now d none c b h = absurd (ground arith)
  resolve_row_active i now d (some row) c b h = ground arith

  module _ (d : DatabaseInterrupts) (v : IsRequestTable d) where
    pub lookup-prune :
        (now : ℕ) (i : String)
        → lookup i (prune_tombstones now d).interrupt_requests
          ≡ kept (λ _ r. is_over_tombstone now r) i (lookup i d.interrupt_requests)
    unfolding prune_tombstones
    lookup-prune now i =
        lookup-delete_where (λ _ r. is_over_tombstone now r) i d.interrupt_requests v.nodup

    pub pending-prune :
        (now : ℕ) (i : String) → database_pending (prune_tombstones now d) i ≡ database_pending d i
    pending-prune now i =
        rw (lookup-prune now i) (pending-kept i now (lookup i d.interrupt_requests) (v.buried i))

    pub prune-IsRequestTable : (now : ℕ) → IsRequestTable (prune_tombstones now d)
    prune-IsRequestTable now = record {
      nodup =
          unfold prune_tombstones in
          delete_where-NodupKeys (λ _ r. is_over_tombstone now r) d.interrupt_requests v.nodup;
      buried = λ i.
          rw (lookup-prune now i)
            (kept-IsBuried i now (lookup i d.interrupt_requests) (v.buried i));
    }

    -- A tombstone takes the place of a request that has ended.
    pending-set_tombstone :
        (i j : String) (now t : ℕ)
        → now ≤ t
        → unexpired now (database_pending d j) ≡ none
        → unexpired t (database_pending (set_tombstone j now d) i)
          ≡ unexpired t (database_pending d i)
    unfolding set_tombstone
    pending-set_tombstone i j now t h e =
        let x =
          if le_zero d.tombstone_ttl_seconds
          then none
          else some (now + pos_part d.tombstone_ttl_seconds) in
        rw (lookup-update_row i j (tombstone x) d.interrupt_requests) (elim (Bool-cases (i == j)) [
          | inr other ↦ rw other refl
          | inl same ↦ elim (Option-cases (lookup i d.interrupt_requests)) [
            | inl absent ↦ rw (absent, same) refl
            | inr (row, present) ↦ ground arith
          ]
        ])

    set_tombstone-IsRequestTable : (j : String) (now : ℕ) → IsRequestTable (set_tombstone j now d)
    unfolding set_tombstone
    set_tombstone-IsRequestTable j now =
        let x =
          if le_zero d.tombstone_ttl_seconds
          then none
          else some (now + pos_part d.tombstone_ttl_seconds) in
        record {
          nodup = update_row-NodupKeys j (tombstone x) d.interrupt_requests v.nodup;
          buried = λ i.
              rw (lookup-update_row i j (tombstone x) d.interrupt_requests)
                (ground (arith, v.buried i));
        }

    pub pending-resolve_row :
        (i j : String) (now t : ℕ) (row : Option InterruptRow)
        → now ≤ t
        → lookup j d.interrupt_requests ≡ row
        → unexpired t (database_pending (resolve_row dumps loads j now d row).1 i)
          ≡ unexpired t (database_pending d i)
    unfolding resolve_row
    pending-resolve_row i j now t none h e = refl
    pending-resolve_row i j now t (some row) h e = ground (arith, pending-set_tombstone i j now t h)

    pub resolve_row-IsRequestTable :
        (j : String) (now : ℕ) (row : Option InterruptRow)
        → IsRequestTable (resolve_row dumps loads j now d row).1
    unfolding resolve_row
    resolve_row-IsRequestTable j now none = v
    resolve_row-IsRequestTable j now (some row) =
        ground (arith, v, set_tombstone-IsRequestTable j now)

    pub pending-discard_is :
        (i j : String) (t : ℕ)
        → unexpired t (database_pending (discard j d) i)
          ≡ (if i == j then none else unexpired t (database_pending d i))
    unfolding discard
    pending-discard_is i j t =
        rw (lookup-delete_key i j d.interrupt_requests)
          (elim (Bool-cases (i == j)) [ inl same ↦ rw same refl | inr other ↦ rw other refl ])

    pub discard-IsRequestTable : (j : String) → IsRequestTable (discard j d)
    unfolding discard
    discard-IsRequestTable j = record {
      nodup = delete_where-NodupKeys (λ k _. k == j) d.interrupt_requests v.nodup;
      buried = λ i. rw (lookup-delete_key i j d.interrupt_requests) (ground (arith, v.buried i));
    }
