-- ===== src/Interrupts/Memory/Listed.antt =====
-- What `list_pending` of `MemoryInterruptRequestRepository` of src/opencode_a2a/server/state_store.py
-- lists, and in which order.
use opencode_a2a_serve.Base.Names.{
  ℕ, String, Bool, true, false, Option, none, some, List, [], ◌∷◌, ◌≡◌, ◌↔◌, ◌⊎◌, inl, inr, arith,
  ◌∙◌, ap,
}
use opencode_a2a_serve.Base.Equality.{string_eq, option_eq, Bool-cases}
use opencode_a2a_serve.Base.TextOrder.{text_leb_total, text_leb_trans}
use opencode_a2a_serve.Base.Dict.{Dict, lookup, NodupKeys}
use opencode_a2a_serve.Base.Sort.{sorted, insert_sorted, IsSorted, sorted-IsSorted}
use opencode_a2a_serve.Interrupts.Contract.{
  InterruptRequestBinding, ends_before, normalized, is_asked_for,
}
use opencode_a2a_serve.Interrupts.Memory.{
  MemoryInterrupts, prune_interrupt_requests, prune_tombstones, asked_for, list_pending,
}
use opencode_a2a_serve.Interrupts.Memory.Laws.{
  HasNodup, memory_pending, pending-prune, prune-HasNodup,
}

-- A binding is one of a list.
abbrev pub IsListed : InterruptRequestBinding → List InterruptRequestBinding → Type 0
IsListed b [] = false ≡ true
IsListed b (c ∷ rest) = (b ≡ c) ⊎ IsListed b rest

ends_before_total :
    (a b : InterruptRequestBinding) → ends_before a b ≡ false → ends_before b a ≡ true
ends_before_total a b h = ground (arith, text_leb_total a.request_id b.request_id)

ends_before_trans :
    (a b c : InterruptRequestBinding)
    → ends_before a b ≡ true
    → ends_before b c ≡ true
    → ends_before a c ≡ true
ends_before_trans a b c h k = ground (arith, text_leb_trans a.request_id b.request_id c.request_id)

insert_sorted-IsListed :
    (b x : InterruptRequestBinding) (xs : List InterruptRequestBinding)
    → IsListed b (insert_sorted ends_before x xs) ↔ IsListed b (x ∷ xs)
unfolding insert_sorted
insert_sorted-IsListed b x [] = (λ h. h, λ h. h)
insert_sorted-IsListed b x (y ∷ ys) = elim (Bool-cases (ends_before x y)) [
  | inl below ↦ rw below (λ h. h, λ h. h)
  | inr above ↦ rw above (
    λ h. elim h [
      | inl e ↦ inr (inl e)
      | inr r ↦ elim ((insert_sorted-IsListed b x ys).0 r) [ inl e ↦ inl e | inr q ↦ inr (inr q) ]
    ],
    λ h. elim h [
      | inl e ↦ inr ((insert_sorted-IsListed b x ys).1 (inl e))
      | inr r ↦ elim r [ inl e ↦ inl e | inr q ↦ inr ((insert_sorted-IsListed b x ys).1 (inr q)) ]
    ],
  )
]

sorted-IsListed :
    (b : InterruptRequestBinding) (xs : List InterruptRequestBinding)
    → IsListed b (sorted ends_before xs) ↔ IsListed b xs
unfolding sorted
sorted-IsListed b [] = (λ h. h, λ h. h)
sorted-IsListed b (x ∷ xs) = (
  λ h. elim ((insert_sorted-IsListed b x (sorted ends_before xs)).0 h) [
    | inl e ↦ inl e
    | inr r ↦ inr ((sorted-IsListed b xs).0 r)
  ],
  λ h.
      (insert_sorted-IsListed b x (sorted ends_before xs)).1
        (elim h [ inl e ↦ inl e | inr r ↦ inr ((sorted-IsListed b xs).1 r) ]),
)

abbrev is_asked : String → Option String → ℕ → InterruptRequestBinding → Bool
is_asked identity wanted now b =
    is_asked_for identity wanted now b.identity b.interrupt_type b.expires_at

module _ (identity : String) (wanted : Option String) (now : ℕ) (b : InterruptRequestBinding) where
  -- The binding is stored under some id, and asked for.
  abbrev IsStored : Dict String InterruptRequestBinding → Type 0
  IsStored d = (i : String) × (lookup i d ≡ some b) × (is_asked identity wanted now b ≡ true)

  IsStored-later :
      (k : String) (c : InterruptRequestBinding) (d : Dict String InterruptRequestBinding)
      → lookup k d ≡ none
      → IsStored d
      → IsStored ((k, c) ∷ d)
  unfolding lookup
  IsStored-later k c d fresh (i, found, asked) = (i, ground (arith, fresh, found), asked)

  IsStored-now :
      (k : String) (c : InterruptRequestBinding) (d : Dict String InterruptRequestBinding)
      → is_asked identity wanted now c ≡ true
      → b ≡ c
      → IsStored ((k, c) ∷ d)
  unfolding lookup
  IsStored-now k c d asked same =
      (k, ground (arith, same), ap (is_asked identity wanted now) same ∙ asked)

  head_or_later :
      (k : String) (c : InterruptRequestBinding) (d : Dict String InterruptRequestBinding)
      → IsListed b (asked_for identity wanted now ((k, c) ∷ d))
      → ((is_asked identity wanted now c ≡ true) × (b ≡ c))
        ⊎ IsListed b (asked_for identity wanted now d)
  unfolding asked_for
  head_or_later k c d h = ground arith

  listed-IsStored :
      (d : Dict String InterruptRequestBinding)
      → NodupKeys d
      → IsListed b (asked_for identity wanted now d)
      → IsStored d
  unfolding asked_for
  listed-IsStored [] u h = absurd (ground arith)
  listed-IsStored ((k, c) ∷ d) (fresh, u) h = elim (head_or_later k c d h) [
    | inl (asked, same) ↦ IsStored-now k c d asked same
    | inr r ↦ IsStored-later k c d fresh (listed-IsStored d u r)
  ]

  stored-IsListed :
      (d : Dict String InterruptRequestBinding) (i : String)
      → lookup i d ≡ some b
      → is_asked identity wanted now b ≡ true
      → IsListed b (asked_for identity wanted now d)
  unfolding asked_for lookup
  stored-IsListed [] i h a = absurd (ground arith)
  stored-IsListed ((k, c) ∷ d) i h a = ground (arith, stored-IsListed d i)

module _ (m : MemoryInterrupts) (u : HasNodup m) (now : ℕ) where
  -- Pruning takes away nothing that is asked for.
  pruned_was_pending :
      (b : InterruptRequestBinding) (i : String)
      → lookup i (prune_interrupt_requests now m).interrupt_requests ≡ some b
      → memory_pending m i ≡ some b
  pruned_was_pending b i h = let e = pending-prune i now m u in ground (arith, e, h)

  asked_is_kept :
      (identity : String) (wanted : Option String) (b : InterruptRequestBinding) (i : String)
      → memory_pending m i ≡ some b
      → is_asked identity wanted now b ≡ true
      → lookup i (prune_interrupt_requests now m).interrupt_requests ≡ some b
  asked_is_kept identity wanted b i h asked =
      let e = pending-prune i now m u in ground (arith, e, h)

  pub list_pending-IsSorted :
      (identity : String) (interrupt_type : Option String)
      → IsSorted ends_before (list_pending identity interrupt_type now m).0
  unfolding list_pending prune_tombstones
  list_pending-IsSorted identity interrupt_type =
      sorted-IsSorted ends_before ends_before_total ends_before_trans (
        asked_for identity (normalized interrupt_type) now
          (prune_interrupt_requests now m).interrupt_requests)

  -- In a repository in memory in which no id stands twice, `list_pending` lists the bindings in
  -- the order of their ends and, where these agree, of their ids, and it lists exactly those that
  -- are stored, belong to the identity, have the stripped type if one is asked for, and end later
  -- than `now`.
  pub list_pending_iff :
      (identity : String) (interrupt_type : Option String) (b : InterruptRequestBinding)
      → IsSorted ends_before (list_pending identity interrupt_type now m).0
        × (IsListed b (list_pending identity interrupt_type now m).0 ↔ (
            (i : String) × (memory_pending m i ≡ some b)
            × (is_asked_for identity
                  (normalized interrupt_type)
                  now
                  b.identity
                  b.interrupt_type
                  b.expires_at
                ≡ true)))
  unfolding list_pending prune_tombstones
  list_pending_iff identity interrupt_type b =
      let wanted = normalized interrupt_type in
      let d = (prune_interrupt_requests now m).interrupt_requests in
      let listed = asked_for identity wanted now d in
      (
        list_pending-IsSorted identity interrupt_type,
        (
          λ h.
              let (i, found, asked) =
                listed-IsStored identity wanted now b d (prune-HasNodup now m u)
                  ((sorted-IsListed b listed).0 h) in
              (i, pruned_was_pending b i found, asked),
          λ (i, found, asked). (sorted-IsListed b listed).1 (
              stored-IsListed identity wanted now b d i
                (asked_is_kept identity wanted b i found asked) asked),
        ),
      )
