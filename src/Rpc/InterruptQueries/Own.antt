-- ===== src/Rpc/InterruptQueries/Own.antt =====
-- A caller of src/opencode_a2a/jsonrpc/handlers/interrupt_queries.py sees its own pending requests, and all
-- of them.
use opencode_a2a_serve.Base.Names.{
  ℕ, String, true, Option, none, some, List, [], ◌≡◌, ◌↔◌, refl, sym, subst, arith, inl, inr,
}
use opencode_a2a_serve.Base.Equality.{Bool-cases}
use opencode_a2a_serve.Base.Text.{is_truthy, strip, strip_idem}
use opencode_a2a_serve.Base.Value.{end}
use opencode_a2a_serve.Base.Sort.{IsSorted, sorted}
use opencode_a2a_serve.Interrupts.Contract.{InterruptRequestBinding, is_asked_for, ends_before}
use opencode_a2a_serve.Interrupts.Memory.{MemoryInterrupts, list_pending}
use opencode_a2a_serve.Interrupts.Memory.Laws.{HasNodup, memory_pending}
use opencode_a2a_serve.Interrupts.Memory.Listed.{IsListed, list_pending-IsSorted, list_pending_iff}
use opencode_a2a_serve.Rpc.Common.{
  Response, build_success_response, reject_unknown_fields, unknown_names,
}
use opencode_a2a_serve.Rpc.InterruptQueries.{
  InterruptListing, list_permissions, list_questions, ListingRequest, listed, type_of,
  stripped_identity, list_interrupt_requests, respond, after_fields, handle_interrupt_query_request,
}

-- The binding is pending, of the type that is asked for, and bound to the caller, who has a name.
abbrev pub IsOwn : ListingRequest → ℕ → MemoryInterrupts → InterruptRequestBinding → Type 0
IsOwn r now m b =
    (is_truthy (stripped_identity r.user_identity) ≡ true)
    × (i : String) × (memory_pending m i ≡ some b)
    × (is_asked_for (stripped_identity r.user_identity) (some (type_of r.method)) now b.identity
          b.interrupt_type b.expires_at
        ≡ true)

-- The response shows the bindings of a list in the order of their ends, and the list has exactly those of
-- the caller.
abbrev pub ShowsOwn : ListingRequest → ℕ → MemoryInterrupts → Response → Type 0
ShowsOwn r now m response =
    (bindings : List InterruptRequestBinding) × (response
      ≡ build_success_response r.id (listed bindings))
    × IsSorted ends_before bindings
    × ((b : InterruptRequestBinding) → IsListed b bindings ↔ IsOwn r now m b)

stripped_again : (o : Option String) → strip (stripped_identity o) ≡ stripped_identity o
stripped_again none = unfold strip in refl
stripped_again (some s) = strip_idem s

type_stripped : (method : InterruptListing) → strip (type_of method) ≡ type_of method
unfolding strip
type_stripped list_permissions = refl
type_stripped list_questions = refl

abbrev AsksFor : ListingRequest → ℕ → InterruptRequestBinding → String → Type 0
AsksFor r now b t =
    is_asked_for (stripped_identity r.user_identity) (some t) now b.identity b.interrupt_type
      b.expires_at
    ≡ true

-- What `list_pending` gives to a caller with a name
listing-IsOwn :
    (r : ListingRequest) (now : ℕ) (m : MemoryInterrupts) (b : InterruptRequestBinding)
    → HasNodup m
    → is_truthy (stripped_identity r.user_identity) ≡ true
    → IsListed b
        (list_pending (stripped_identity r.user_identity) (some (type_of r.method)) now m).0
      ↔ IsOwn r now m b
listing-IsOwn r now m b u given =
    let iff =
      (list_pending_iff m u now (stripped_identity r.user_identity) (some (type_of r.method))
        b).1 in
    (
      λ h.
          let (i, pending, asked) = iff.0 h in
          (given, i, pending, subst (AsksFor r now b) (type_stripped r.method) asked),
      λ (named, i, pending, asked).
          iff.1 (i, pending, subst (AsksFor r now b) (sym (type_stripped r.method)) asked),
    )

fields-ShowsOwn :
    (r : ListingRequest) (now : ℕ) (m : MemoryInterrupts)
    → HasNodup m
    → ShowsOwn r now m (after_fields list_pending r now none m (inr tt)).0
unfolding after_fields respond list_interrupt_requests
fields-ShowsOwn r now m u =
    let identity = stripped_identity r.user_identity in
    let found = (list_pending identity (some (type_of r.method)) now m).0 in
    elim (Bool-cases (is_truthy identity)) [
      | inl given ↦ (
        found,
        rw given (rw (stripped_again r.user_identity) (rw given refl)),
        list_pending-IsSorted m u now identity (some (type_of r.method)),
        λ b. listing-IsOwn r now m b u given,
      )
      | inr blank ↦ (
        [],
        rw blank refl,
        tt,
        λ b. (
          λ h. absurd (ground (arith, h)),
          λ (named, i, pending, asked). absurd (ground (arith, blank, named)),
        ),
      )
    ]

nothing_refused :
    (r : ListingRequest)
    → r.params ≡ end
    → reject_unknown_fields r.id r.params [] "" "Unsupported fields" ≡ inr tt
unfolding reject_unknown_fields unknown_names sorted
nothing_refused r no_params = rw no_params refl

-- A query for pending interrupts without parameters, on requests in memory under distinct ids, is
-- answered with a list in the order of the ends, which has exactly the bindings that are pending,
-- unexpired, of the type that the method asks for and bound to the stripped identity of the
-- caller; a caller without a name is shown none.
pub query-ShowsOwn :
    (r : ListingRequest) (now : ℕ) (m : MemoryInterrupts)
    → HasNodup m
    → r.params ≡ end
    → ShowsOwn r now m (handle_interrupt_query_request list_pending r now none m).0
unfolding handle_interrupt_query_request
query-ShowsOwn r now m u no_params = rw (nothing_refused r no_params) (fields-ShowsOwn r now m u)
