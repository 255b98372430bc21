-- ===== src/Interrupts/Memory/Laws.antt =====
-- `MemoryInterruptRequestRepository` of src/opencode_a2a/server/state_store.py against the contract.
use opencode_a2a_serve.Base.Names.{
  ℕ, ◌+◌, ◌≤◌, String, Bool, true, false, Option, none, some, List, [], ◌∷◌, ◌≡◌, ◌≢◌, refl, arith,
  ◌∙◌, ap, inl, inr,
}
use opencode_a2a_serve.Base.Equality.{
  ◌==◌, string_eq, option_eq, contains, if◌then◌else◌, Bool-cases,
}
use opencode_a2a_serve.Base.Lists.{leb}
use opencode_a2a_serve.Base.Text.{is_truthy}
use opencode_a2a_serve.Base.Int.{pos}
use opencode_a2a_serve.Base.Dict.{
  Dict, lookup, erase_all, NodupKeys, lookup-insert, lookup-erase, lookup-erase_all,
  insert-NodupKeys, erase-NodupKeys, erase_all-NodupKeys,
}
use opencode_a2a_serve.Interrupts.Contract.{
  InterruptRequestBinding, InterruptRequest, active, bind, unexpired, HoldsRequests,
}
use opencode_a2a_serve.Interrupts.Memory.{
  MemoryInterrupts, expired_requests, remember_tombstone, pop_request, bury_all,
  prune_interrupt_requests, prune_tombstones, remember, resolve, found_request, discard,
  memory_interrupts,
}

abbrev pub HasNodup : MemoryInterrupts → Type 0
HasNodup m = NodupKeys m.interrupt_requests

abbrev pub memory_pending : MemoryInterrupts → String → Option InterruptRequestBinding
memory_pending m i = lookup i m.interrupt_requests

abbrev is_over : ℕ → Option InterruptRequestBinding → Bool
is_over now none = false
is_over now (some b) = leb b.expires_at now

contains-expired_requests :
    (now : ℕ) (d : Dict String InterruptRequestBinding) (i : String)
    → NodupKeys d
    → contains (expired_requests now d) i ≡ is_over now (lookup i d)
unfolding expired_requests lookup
contains-expired_requests now [] i u = refl
contains-expired_requests now ((k, b) ∷ d) i (fresh, u) =
    ground (arith, contains-expired_requests now d i u)

requests-bury_all :
    (ids : List String) (now : ℕ) (m : MemoryInterrupts)
    → (bury_all ids now m).interrupt_requests ≡ erase_all ids m.interrupt_requests
unfolding bury_all erase_all
requests-bury_all [] now m = refl
requests-bury_all (i ∷ ids) now m =
    requests-bury_all ids now (remember_tombstone i now (pop_request i m))

pub pending-prune :
    (i : String) (now : ℕ) (m : MemoryInterrupts)
    → HasNodup m
    → memory_pending (prune_interrupt_requests now m) i ≡ unexpired now (memory_pending m i)
unfolding prune_interrupt_requests
pending-prune i now m u = rw (requests-bury_all (expired_requests now m.interrupt_requests) now m) (
    lookup-erase_all i (expired_requests now m.interrupt_requests) m.interrupt_requests
    ∙ rw (contains-expired_requests now m.interrupt_requests i u) (ground arith))

pub prune-HasNodup :
    (now : ℕ) (m : MemoryInterrupts) → HasNodup m → HasNodup (prune_interrupt_requests now m)
unfolding prune_interrupt_requests
prune-HasNodup now m u =
    rw (requests-bury_all (expired_requests now m.interrupt_requests) now m)
      (erase_all-NodupKeys (expired_requests now m.interrupt_requests) m.interrupt_requests u)

unexpired-unexpired :
    (now t : ℕ) (b : Option InterruptRequestBinding)
    → now ≤ t
    → unexpired t (unexpired now b) ≡ unexpired t b
unexpired-unexpired now t b h = ground arith

found_is :
    (i : String) (now : ℕ) (m : MemoryInterrupts) (b : Option InterruptRequestBinding)
    → (found_request i now m b).0.1 ≡ unexpired now b
unfolding found_request
found_is i now m none = ground arith
found_is i now m (some b) = ground arith

found_status :
    (i : String) (now : ℕ) (m : MemoryInterrupts) (b : Option InterruptRequestBinding)
    → unexpired now b ≡ none
    → (found_request i now m b).0.0 ≢ active
unfolding found_request
found_status i now m none h = ground arith
found_status i now m (some b) h = ground arith

found_active :
    (i : String) (now : ℕ) (m : MemoryInterrupts) (b : Option InterruptRequestBinding)
    (c : InterruptRequestBinding)
    → unexpired now b ≡ some c
    → (found_request i now m b).0 ≡ (active, some c)
unfolding found_request
found_active i now m none c h = absurd (ground arith)
found_active i now m (some b) c h = ground arith

pending-found :
    (i j : String) (now t : ℕ) (m : MemoryInterrupts) (b : Option InterruptRequestBinding)
    → HasNodup m
    → now ≤ t
    → lookup j m.interrupt_requests ≡ b
    → unexpired t (memory_pending (found_request j now m b).1 i) ≡ unexpired t (memory_pending m i)
unfolding found_request remember_tombstone pop_request
pending-found i j now t m none u h e = ground arith
pending-found i j now t m (some b) u h e =
    let popped = pop_request j m in
    let v = erase-NodupKeys j m.interrupt_requests u in
    elim (Bool-cases (leb b.expires_at now)) [
      | inl over ↦ rw over (
          ap (unexpired t) (pending-prune i now popped v)
          ∙ unexpired-unexpired now t (memory_pending popped i) h
          ∙ ground (arith, lookup-erase i j m.interrupt_requests))
      | inr running ↦ rw running (
          ap (unexpired t) (pending-prune i now m u)
          ∙ unexpired-unexpired now t (memory_pending m i) h)
    ]

found-HasNodup :
    (j : String) (now : ℕ) (m : MemoryInterrupts) (b : Option InterruptRequestBinding)
    → HasNodup m
    → HasNodup (found_request j now m b).1
unfolding found_request remember_tombstone pop_request
found-HasNodup j now m none u = ground arith
found-HasNodup j now m (some b) u = ground (
  arith,
  prune-HasNodup now m u,
  prune-HasNodup now (pop_request j m) (erase-NodupKeys j m.interrupt_requests u),
)

module _ (m : MemoryInterrupts) (u : HasNodup m) where
  resolve_active_is :
      (i : String) (now : ℕ) (b : InterruptRequestBinding)
      → is_truthy i ≡ true
      → unexpired now (memory_pending m i) ≡ some b
      → (resolve i now m).0 ≡ (active, some b)
  unfolding resolve prune_tombstones
  resolve_active_is i now b given h =
      rw given (found_active i now (prune_tombstones now m) (memory_pending m i) b h)

  resolve_inactive_is :
      (i : String) (now : ℕ)
      → unexpired now (memory_pending m i) ≡ none
      → ((resolve i now m).0.1 ≡ none) × ((resolve i now m).0.0 ≢ active)
  unfolding resolve prune_tombstones
  resolve_inactive_is i now h = elim (Bool-cases (is_truthy i)) [
    | inl given ↦ rw given (
      found_is i now (prune_tombstones now m) (memory_pending m i) ∙ h,
      found_status i now (prune_tombstones now m) (memory_pending m i) h,
    )
    | inr blank ↦ rw blank (refl, λ e. cc)
  ]

  pending-resolve_is :
      (i j : String) (now t : ℕ)
      → now ≤ t
      → unexpired t (memory_pending (resolve j now m).1 i) ≡ unexpired t (memory_pending m i)
  unfolding resolve prune_tombstones
  pending-resolve_is i j now t h = elim (Bool-cases (is_truthy j)) [
    | inl given ↦
        rw given (pending-found i j now t (prune_tombstones now m) (memory_pending m j) u h refl)
    | inr blank ↦ rw blank refl
  ]

  resolve-HasNodup : (j : String) (now : ℕ) → HasNodup (resolve j now m).1
  unfolding resolve prune_tombstones
  resolve-HasNodup j now = elim (Bool-cases (is_truthy j)) [
    | inl given ↦ rw given (found-HasNodup j now (prune_tombstones now m) (memory_pending m j) u)
    | inr blank ↦ rw blank u
  ]

  pending-remember_is :
      (i : String) (r : InterruptRequest) (ttl now t : ℕ)
      → now ≤ t
      → unexpired t (memory_pending (remember r (some (pos ttl)) now m) i) ≡ (
          if i == r.request_id
          then unexpired t (some (bind r (now + ttl)))
          else unexpired t (memory_pending m i))
  unfolding remember prune_tombstones
  pending-remember_is i r ttl now t h =
      let p = prune_interrupt_requests now m in
      let earlier =
        ap (unexpired t) (pending-prune i now m u)
        ∙ unexpired-unexpired now t (memory_pending m i) h in
      ap (unexpired t) (lookup-insert i r.request_id (bind r (now + ttl)) p.interrupt_requests)
      ∙ elim (Bool-cases (i == r.request_id)) [
        | inl same ↦ rw same refl
        | inr other ↦ rw other earlier
      ]

  remember-HasNodup :
      (r : InterruptRequest) (ttl now : ℕ) → HasNodup (remember r (some (pos ttl)) now m)
  unfolding remember prune_tombstones
  remember-HasNodup r ttl now =
      insert-NodupKeys r.request_id (bind r (now + ttl))
        (prune_interrupt_requests now m).interrupt_requests (prune-HasNodup now m u)

  pending-discard_is :
      (i j : String) (t : ℕ)
      → unexpired t (memory_pending (discard j m) i)
        ≡ (if i == j then none else unexpired t (memory_pending m i))
  unfolding discard
  pending-discard_is i j t = ground (arith, lookup-erase i j m.interrupt_requests)

  discard-HasNodup : (j : String) → HasNodup (discard j m)
  unfolding discard
  discard-HasNodup j = erase-NodupKeys j m.interrupt_requests u

-- The repository in memory holds requests as the contract says, as long as no id stands twice,
-- which every method keeps.
pub memory_interrupts-HoldsRequests :
    HoldsRequests memory_interrupts HasNodup memory_pending (λ d. d)
memory_interrupts-HoldsRequests = record {
  resolve_active = λ i now m b u given h. resolve_active_is m u i now b given h;
  resolve_inactive = λ i now m u h. resolve_inactive_is m u i now h;
  pending-resolve = λ i j now t m u h. pending-resolve_is m u i j now t h;
  pending-remember = λ i r ttl now t m u h. pending-remember_is m u i r ttl now t h;
  pending-discard = λ i j t m u. pending-discard_is m u i j t;
  resolve-IsValid = λ j now m u. resolve-HasNodup m u j now;
  remember-IsValid = λ r ttl now m u. remember-HasNodup m u r ttl now;
  discard-IsValid = λ j m u. discard-HasNodup m u j;
}
