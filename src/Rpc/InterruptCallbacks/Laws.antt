-- ===== src/Rpc/InterruptCallbacks/Laws.antt =====
-- Who may answer an interrupt request by src/opencode_a2a/jsonrpc/handlers/interrupt_callbacks.py, and
-- what becomes of the request, for every repository that keeps the contract.
use opencode_a2a_serve.Base.Names.{
  ℕ, ◌≤◌, String, Bool, true, false, ◌&&◌, Option, none, some, ◌≡◌, inl, inr, refl, sym, subst,
  arith,
}
use opencode_a2a_serve.Base.Equality.{
  ◌==◌, string_eq, option_eq, if◌then◌else◌, Bool-cases, Option-cases,
}
use opencode_a2a_serve.Base.Text.{is_truthy, strip, strip_idem}
use opencode_a2a_serve.Base.Value.{Value, Fields, str, null, bool, int, float, array, dict, get}
use opencode_a2a_serve.Interrupts.Contract.{
  InterruptRequestBinding, RequestStatus, active, expired, missing, unexpired, InterruptRepository,
  HoldsRequests,
}
use opencode_a2a_serve.Rpc.Common.{
  Response, Checked, ◌>>=◌, bind_inr, either-cases, reject_unknown_fields,
}
use opencode_a2a_serve.Rpc.Failures.{value_error}
use opencode_a2a_serve.Rpc.Metadata.{
  extract_directory_from_metadata, extract_workspace_id_from_metadata,
}
use opencode_a2a_serve.Rpc.Methods.{Parsed, parsed, invalid}
use opencode_a2a_serve.Rpc.InterruptCallbacks.{
  CallbackRequest, Reply, Sent, Outcome, accepted, raised, Handled, expected_interrupt_type,
  is_of_another, check_binding, reply_of, requested, address, is_not_found,
  resolve_interrupt_request, discard_interrupt_request, conclude, answer, check_and_answer,
  handle_interrupt_callback_request, allowed_fields, after_checks, after_address, failure_response,
}

-- The caller may answer a request that is stored as the binding.
pub record MayAnswer (r : CallbackRequest) (b : InterruptRequestBinding) : Type 0 where
  pub typed : b.interrupt_type ≡ some (expected_interrupt_type r.method)
  pub mine : is_of_another r.user_identity b.identity ≡ false
  pub my_credential : is_of_another r.user_credential_id b.credential_id ≡ false

check_binding-MayAnswer :
    (r : CallbackRequest) (i : String) (found : RequestStatus × Option InterruptRequestBinding)
    (b : InterruptRequestBinding)
    → check_binding r i found ≡ inr b
    → (found ≡ (active, some b)) × MayAnswer r b
unfolding check_binding
check_binding-MayAnswer r i (expired, o) b h = absurd (ground arith)
check_binding-MayAnswer r i (missing, o) b h = absurd (ground arith)
check_binding-MayAnswer r i (active, none) b h = absurd (ground arith)
check_binding-MayAnswer r i (active, some c) b h = ground arith

requested_is_stripped :
    (r : CallbackRequest) (v : Value) (i : String)
    → requested r.id v ≡ inr i
    → (strip i ≡ i) × (is_truthy i ≡ true)
unfolding requested
requested_is_stripped r (str s) i h = elim (Bool-cases (is_truthy (strip s))) [
  | inl given ↦ ground (arith, given, h, strip_idem s)
  | inr blank ↦ absurd (ground (arith, blank, h))
]
requested_is_stripped r null i h = absurd (ground arith)
requested_is_stripped r (bool _) i h = absurd (ground arith)
requested_is_stripped r (int _) i h = absurd (ground arith)
requested_is_stripped r (float _ _) i h = absurd (ground arith)
requested_is_stripped r (array _) i h = absurd (ground arith)
requested_is_stripped r (dict _) i h = absurd (ground arith)

address_is_stripped :
    (r : CallbackRequest) (to : String × Option String × Option String)
    → address r ≡ inr to
    → (strip to.0 ≡ to.0) × (is_truthy to.0 ≡ true)
unfolding address
address_is_stripped r to h =
    let (i, asked, h1) = bind_inr (requested r.id (get "request_id" r.params)) _ to h in
    let (d, _, h2) = bind_inr (extract_directory_from_metadata r.id r.params) _ to h1 in
    let (w, _, h3) = bind_inr (extract_workspace_id_from_metadata r.id r.params) _ to h2 in
    let stripped = requested_is_stripped r (get "request_id" r.params) i asked in
    ground (arith, stripped, h3)

-- A reply settles a request if it is accepted, or the upstream does not know the request.
abbrev pub settles : Outcome → Bool
settles accepted = true
settles (raised failure) = is_not_found failure

module _ (R : InterruptRepository)
    (pending : R.State → String → Option InterruptRequestBinding) where
  -- What is pending after the handler has run. Without a reply that is what was pending before; after a
  -- reply, what is pending then, apart from a request that the reply settles.
  abbrev pub PendingAfter :
      ℕ → ℕ → Outcome → (R.State → R.State) → R.State → String → Handled R.State → Type 0
  PendingAfter now t outcome meanwhile st i handled = elim handled.sent [
    | none ↦ unexpired t (pending handled.state i) ≡ unexpired t (pending st i)
    | some s ↦ unexpired t (pending handled.state i) ≡ (
        if settles outcome && i == s.request_id
        then none
        else unexpired t (pending (meanwhile (R.resolve s.request_id now st).1) i))
  ]

module _ (R : InterruptRepository) (IsValid : R.State → Type 0)
    (pending : R.State → String → Option InterruptRequestBinding)
    (stored_details : Option Fields → Option Fields)
    (H : HoldsRequests R IsValid pending stored_details) where
  -- What is found active is pending.
  found_is_pending :
      (i : String) (now : ℕ) (st : R.State) (b : InterruptRequestBinding)
      → IsValid st
      → is_truthy i ≡ true
      → (R.resolve i now st).0 ≡ (active, some b)
      → unexpired now (pending st i) ≡ some b
  found_is_pending i now st b v given h = elim (Option-cases (unexpired now (pending st i))) [
    | inl over ↦
        let (nothing, _) = H.resolve_inactive i now st v over in absurd (ground (arith, h, nothing))
    | inr (c, running) ↦ ground (arith, running, h, H.resolve_active i now st c v given running)
  ]

  resolves_stripped :
      (i : String) (now : ℕ) (st : R.State)
      → strip i ≡ i
      → is_truthy i ≡ true
      → resolve_interrupt_request R i now st ≡ R.resolve i now st
  unfolding resolve_interrupt_request
  resolves_stripped i now st s t = rw s (rw t refl)

  discards_stripped :
      (i : String) (st : R.State)
      → strip i ≡ i
      → is_truthy i ≡ true
      → discard_interrupt_request R i st ≡ R.discard i st
  unfolding discard_interrupt_request
  discards_stripped i st s t = rw s (rw t refl)

  answer_sent :
      (r : CallbackRequest) (to : String × Option String × Option String) (reply : Parsed Reply)
      (outcome : Outcome) (meanwhile : R.State → R.State) (st : R.State) (s : Sent)
      → (answer R r to reply outcome meanwhile st).sent ≡ some s
      → s.request_id ≡ to.0
  unfolding answer conclude
  answer_sent r to (invalid m) outcome meanwhile st s h = absurd (ground arith)
  answer_sent r to (parsed p) accepted meanwhile st s h = ground arith
  answer_sent r to (parsed p) (raised f) meanwhile st s h = ground arith

  check_sent :
      (r : CallbackRequest) (to : String × Option String × Option String)
      (found : RequestStatus × Option InterruptRequestBinding) (st : R.State) (outcome : Outcome)
      (meanwhile : R.State → R.State) (s : Sent)
      → (check_and_answer R r to (found, st) outcome meanwhile).sent ≡ some s
      → (s.request_id ≡ to.0) × (b : InterruptRequestBinding) × (check_binding r to.0 found ≡ inr b)
  unfolding check_and_answer
  check_sent r to found st outcome meanwhile s h =
      elim (either-cases (check_binding r to.0 found)) [
        | inl (response, e) ↦ absurd (ground (arith, e, h))
        | inr (b, e) ↦
            elim (either-cases (
              reject_unknown_fields r.id r.params (allowed_fields r.method) ""
                "Unsupported fields")) [
                  | inl (response, e2) ↦ absurd (ground (arith, e, e2, h))
                  | inr (u, e2) ↦ (
                    answer_sent r to (reply_of r.method r.params) outcome meanwhile st s
                        (ground (arith, e, e2, h)),
                    b,
                    e,
                  )
                ]
      ]

  -- If the handler of interrupt callbacks calls the upstream at all, then the request it replies
  -- to is pending and unexpired in the repository (any that keeps the contract on requests), has
  -- the type that the method expects, and is bound to no other identity and no other credential
  -- than those of the caller, where both sides name one.
  pub handle-MayAnswer :
      (r : CallbackRequest) (now : ℕ) (outcome : Outcome) (meanwhile : R.State → R.State)
      (st : R.State) (s : Sent)
      → IsValid st
      → (handle_interrupt_callback_request R r now outcome meanwhile st).sent ≡ some s
      → (b : InterruptRequestBinding) × (unexpired now (pending st s.request_id) ≡ some b)
        × MayAnswer r b
  unfolding handle_interrupt_callback_request
  handle-MayAnswer r now outcome meanwhile st s v h = elim (either-cases (address r)) [
    | inl (response, e) ↦ absurd (ground (arith, e, h))
    | inr (to, e) ↦
        let (stripped, given) = address_is_stripped r to e in
        let (found, st') = R.resolve to.0 now st in
        let (same, b, passed) =
          check_sent r to found st' outcome meanwhile s
            (ground (arith, e, h, resolves_stripped to.0 now st stripped given)) in
        let (is_active, may) = check_binding-MayAnswer r to.0 found b passed in
        (b, ground (arith, same, found_is_pending to.0 now st b v given is_active), may)
  ]

  conclude-PendingAfter :
      (r : CallbackRequest) (sent : Sent) (now t : ℕ) (outcome : Outcome)
      (meanwhile : R.State → R.State) (st : R.State) (i : String)
      → IsValid (meanwhile (R.resolve sent.request_id now st).1)
      → strip sent.request_id ≡ sent.request_id
      → is_truthy sent.request_id ≡ true
      → PendingAfter R pending now t outcome meanwhile st i
          (conclude R r.id sent outcome (meanwhile (R.resolve sent.request_id now st).1))
  unfolding conclude
  conclude-PendingAfter r sent now t accepted meanwhile st i v stripped given =
      let after = meanwhile (R.resolve sent.request_id now st).1 in
      rw (discards_stripped sent.request_id after stripped given)
        (H.pending-discard i sent.request_id t after v)
  conclude-PendingAfter r sent now t (raised f) meanwhile st i v stripped given =
      let after = meanwhile (R.resolve sent.request_id now st).1 in
      elim (Bool-cases (is_not_found f)) [
        | inl gone ↦ rw gone (
            rw (discards_stripped sent.request_id after stripped given)
              (H.pending-discard i sent.request_id t after v))
        | inr kept ↦ rw kept refl
      ]

  module _ (r : CallbackRequest) (now t : ℕ) (outcome : Outcome) (meanwhile : R.State → R.State)
      (st : R.State) (v : IsValid st) (early : now ≤ t)
      (meanwhile-IsValid : (st' : R.State) → IsValid st' → IsValid (meanwhile st')) where
    stopped-PendingAfter :
        (response : Response) (i j : String)
        → PendingAfter R pending now t outcome meanwhile st i
            (record { response = response; sent = none; state = (R.resolve j now st).1 })
    stopped-PendingAfter response i j = H.pending-resolve i j now t st v early

    answer-PendingAfter :
        (to : String × Option String × Option String) (reply : Parsed Reply) (i : String)
        → strip to.0 ≡ to.0
        → is_truthy to.0 ≡ true
        → PendingAfter R pending now t outcome meanwhile st i
            (answer R r to reply outcome meanwhile (R.resolve to.0 now st).1)
    unfolding answer
    answer-PendingAfter to (invalid m) i stripped given =
        stopped-PendingAfter (failure_response r.id to.0 (value_error m)) i to.0
    answer-PendingAfter to (parsed p) i stripped given =
        conclude-PendingAfter r _ now t outcome meanwhile st i
          (meanwhile-IsValid _ (H.resolve-IsValid to.0 now st v)) stripped given

    checks-PendingAfter :
        (to : String × Option String × Option String) (i : String) (m : Checked (Unit {0}))
        → strip to.0 ≡ to.0
        → is_truthy to.0 ≡ true
        → PendingAfter R pending now t outcome meanwhile st i
            (after_checks R r to outcome meanwhile (R.resolve to.0 now st).1 m)
    unfolding after_checks
    checks-PendingAfter to i (inl response) stripped given = stopped-PendingAfter response i to.0
    checks-PendingAfter to i (inr u) stripped given =
        answer-PendingAfter to (reply_of r.method r.params) i stripped given

    address-PendingAfter :
        (i : String) (m : Checked (String × Option String × Option String))
        → address r ≡ m
        → PendingAfter R pending now t outcome meanwhile st i
            (after_address R r now outcome meanwhile st m)
    unfolding after_address check_and_answer
    address-PendingAfter i (inl response) e = refl
    address-PendingAfter i (inr to) e =
        let (stripped, given) = address_is_stripped r to e in
        subst
          (λ found.
            PendingAfter R pending now t outcome meanwhile st i
              (check_and_answer R r to found outcome meanwhile))
          (sym (resolves_stripped to.0 now st stripped given))
          (checks-PendingAfter to i
            (check_binding r to.0 (R.resolve to.0 now st).0 >>= λ binding.
              reject_unknown_fields r.id r.params (allowed_fields r.method) "" "Unsupported fields")
            stripped given)

    -- After the handler of interrupt callbacks a request is pending exactly if it was so before
    -- and the handler did not settle it; it settles the request it replied to when the upstream
    -- accepts the reply or answers that it knows no such request. Other calls may change the
    -- repository before the reply is discarded, and the clock does not go back.
    pub handle-PendingAfter :
        (i : String)
        → PendingAfter R pending now t outcome meanwhile st i
            (handle_interrupt_callback_request R r now outcome meanwhile st)
    unfolding handle_interrupt_callback_request
    handle-PendingAfter i = address-PendingAfter i (address r) refl
