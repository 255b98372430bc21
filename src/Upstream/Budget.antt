-- ===== src/Upstream/Budget.antt =====
-- `_FastFailConcurrencyBudget` of src/opencode_a2a/opencode_upstream_client.py, which limits the requests
-- to the upstream that are in flight.
pub mod Tests
use opencode_a2a_serve.Base.Names.{
  ℕ, zero, suc, ◌+◌, ◌-◌, ◌≤◌, Bool, true, false, Option, none, some, List, [], ◌∷◌, ◌≡◌, ◌↔◌, ◌⊎◌,
  inl, inr, refl, arith,
}
use opencode_a2a_serve.Base.Equality.{◌==◌, nat_eq, if◌then◌else◌, Bool-cases}
use opencode_a2a_serve.Base.Lists.{leb}
use opencode_a2a_serve.Base.Int.{ℤ, pos, negsuc, pos_part}

pub record Budget : Type 0 where
  pub limit : ℕ
  pub inflight : ℕ

-- `__init__`
abbrev pub new_budget : ℤ → Budget
new_budget limit = record { limit = pos_part limit; inflight = 0 }

-- `reserve` up to its `yield`, none for an `UpstreamConcurrencyLimitError`
unfoldable pub reserve : Budget → Option Budget
reserve b =
    if leb b.limit 0
    then some b
    else if leb b.limit b.inflight
    then none
    else some (record b { inflight = b.inflight + 1 })

-- `reserve` after its `yield`, whatever the operation did
unfoldable pub leave : Budget → Budget
leave b =
    if leb b.limit 0
    then b
    else if leb b.inflight 0
    then b
    else record b { inflight = b.inflight - 1 }

-- The budget with the number of operations that are between the two ends of `reserve`
pub record Load : Type 0 where
  pub budget : Budget
  pub operations : ℕ

pub data Event : Type 0 where
  -- an operation asks for the budget
  asks : Event
  -- an operation ends, if there is one
  ends : Event

entered : Load → Option Budget → Load
entered s none = s
entered s (some b) = record { budget = b; operations = s.operations + 1 }

unfoldable pub step : Load → Event → Load
unfolding entered
step s asks = entered s (reserve s.budget)
step s ends =
    if leb s.operations 0
    then s
    else record { budget = leave s.budget; operations = s.operations - 1 }

-- Any interleaving of operations
unfoldable pub run : Load → List Event → Load
unfolding step
run s [] = s
run s (event ∷ events) = run (step s event) events

-- Nothing is in flight.
abbrev pub unloaded : ℤ → Load
unloaded limit = record { budget = new_budget limit; operations = 0 }

-- A budget without a limit refuses nothing. One with a limit counts its operations, of which there are at
-- most as many, and refuses another exactly if there are as many.
abbrev pub IsExact : ℤ → Load → Type 0
IsExact limit s =
    ((pos_part limit ≡ 0) × (reserve s.budget ≡ some s.budget))
    ⊎ ((1 ≤ pos_part limit)
        × (s.budget.inflight ≡ s.operations)
        × (s.operations ≤ pos_part limit)
        × ((reserve s.budget ≡ none) ↔ (s.operations ≡ pos_part limit)))

-- What the steps keep
Counts : ℕ → Load → Type 0
Counts limit s =
    (s.budget.limit ≡ limit)
    × (1 ≤ limit → (s.budget.inflight ≡ s.operations) × (s.operations ≤ limit))

step-Counts : (limit : ℕ) (s : Load) (event : Event) → Counts limit s → Counts limit (step s event)
unfolding Counts step reserve leave
step-Counts limit s asks (same, h) = elim (Bool-cases (leb s.budget.limit 0)) [
  | inl free ↦ rw free (same, λ some_limit. absurd (ground (arith, free, same, some_limit)))
  | inr limited ↦ rw limited (elim (Bool-cases (leb s.budget.limit s.budget.inflight)) [
    | inl full ↦ rw full (same, h)
    | inr room ↦ rw room (same, λ some_limit. ground (arith, h some_limit, same, room))
  ])
]
step-Counts limit s ends (same, h) = ground (arith, same, h)

run-Counts :
    (limit : ℕ) (s : Load) (events : List Event) → Counts limit s → Counts limit (run s events)
unfolding run
run-Counts limit s [] h = h
run-Counts limit s (event ∷ events) h =
    run-Counts limit (step s event) events (step-Counts limit s event h)

exact : (limit : ℤ) (s : Load) → Counts (pos_part limit) s → IsExact limit s
unfolding Counts reserve
exact limit s (same, h) = elim (Bool-cases (leb (pos_part limit) 0)) [
  | inl free ↦ inl (ground (arith, free), ground (arith, same, free))
  | inr limited ↦ inr (ground (arith, same, limited, h (ground (arith, limited))))
]

-- From a new budget on and over any interleaving of operations, also those that fail: a budget
-- whose limit is not positive refuses nothing; one with a positive limit counts the operations in
-- flight, of which there are at most as many, and refuses another exactly if there are as many.
pub run-IsExact : (limit : ℤ) (events : List Event) → IsExact limit (run (unloaded limit) events)
run-IsExact limit events = exact limit (run (unloaded limit) events) (
    run-Counts (pos_part limit) (unloaded limit) events
      (unfold Counts in (refl, λ some_limit. (refl, omega arith))))
