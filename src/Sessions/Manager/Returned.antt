-- ===== src/Sessions/Manager/Returned.antt =====
-- Which sessions a call of src/opencode_a2a/execution/session_manager.py returns.
use opencode_a2a_serve.Base.Names.{
  ℕ, String, Bool, true, false, Option, none, some, ◌≡◌, ◌≢◌, refl, arith, inl, inr, ap, ◌∙◌,
}
use opencode_a2a_serve.Base.Equality.{string_eq, option_eq, Bool-cases}
use opencode_a2a_serve.Base.Text.{is_truthy}
use opencode_a2a_serve.Sessions.Repository.{SessionRepository, IsDurable}
use opencode_a2a_serve.Sessions.Manager.{
  Manager, Claim, claimed, denied, Begun, existing, waits, is_foreign, Call, entered, owned,
  awaiting, finalizing, finalized, returned, Input, advance, create, after_claim, after_begin,
  after_end, after_finalize, claim_preferred_session, finalize_session_claim, begin_create,
  end_create, bind_session,
}
use opencode_a2a_serve.Sessions.Manager.Sections.{
  owner, owner-begin_create, begin_create-existing, owner-end_create,
}
use opencode_a2a_serve.Sessions.Manager.Invariant.{
  IsOwned, IsEntitled, bind_session-KeepsOwners, is_truthy_of_ne,
}

-- The caller of a call that is in flight.
abbrev pub caller : Call → Option String
caller (entered i c p) = some i
caller (owned i c s) = some i
caller (awaiting i c task) = some i
caller (finalizing i c s) = some i
caller (finalized i c s) = some i
caller _ = none

module _ (R : SessionRepository) (L : IsDurable R) where
  -- What a section returns for good is owned by `i`.
  abbrev ReturnsOwned : String → Call × Manager R → Type 0
  ReturnsOwned i r = (s : String) → r.0 ≡ returned s false → owner R L r.1 s ≡ some i

  after_claim-ReturnsOwned :
      (i c v : String) (r : Claim × Manager R) → ReturnsOwned i (after_claim R i c v r)
  unfolding after_claim
  after_claim-ReturnsOwned i c v (claimed true, m) s h = absurd (ground arith)
  after_claim-ReturnsOwned i c v (claimed false, m) s h = absurd (ground arith)
  after_claim-ReturnsOwned i c v (denied d, m) s h = absurd (ground arith)

  create-ReturnsOwned :
      (i c : String) (now : ℕ → ℕ) (m : Manager R) (r : Begun × Manager R)
      → begin_create R i c now m ≡ r
      → IsOwned R L m
      → i ≢ ""
      → ReturnsOwned i (after_begin R i c r)
  unfolding after_begin
  create-ReturnsOwned i c now m (existing v, m') e o n s h =
      let is_bound = begin_create-existing R L i c now m (ap (λ (t : Begun × Manager R). t.0) e) in
      let same = owner-begin_create R L i c now m v in
      ground (arith, o i c v n is_bound, same, ap (λ (t : Begun × Manager R). t.1) e)
  create-ReturnsOwned i c now m (waits task, m') e o n s h = absurd (ground arith)

  not_foreign :
      (i c v : String) (task : ℕ) (now : ℕ → ℕ) (m : Manager R) (b : Bool)
      → (end_create R i c task v now m).0 ≡ claimed b
      → is_foreign (owner R L m v) i ≡ false
  unfolding end_create
  not_foreign i c v task now m b h = ground (arith, L.get_owner_lem v (now 0) m.state_repository)

  end_create-claimed :
      (i c v : String) (task : ℕ) (now : ℕ → ℕ) (m : Manager R) (b : Bool)
      → i ≢ ""
      → (end_create R i c task v now m).0 ≡ claimed b
      → owner R L (end_create R i c task v now m).1 v ≡ some i
  end_create-claimed i c v task now m b n h =
      owner-end_create R L i c v task now m v
      ∙ ground (arith, not_foreign i c v task now m b h, is_truthy_of_ne i n)

  after_end-ReturnsOwned :
      (i c v : String) (task : ℕ) (now : ℕ → ℕ) (m : Manager R) (r : Claim × Manager R)
      → end_create R i c task v now m ≡ r
      → i ≢ ""
      → ReturnsOwned i (after_end R v r)
  unfolding after_end
  after_end-ReturnsOwned i c v task now m (claimed b, m') e n s h =
      let o = end_create-claimed i c v task now m b n (ap (λ (t : Claim × Manager R). t.0) e) in
      ground (arith, o, ap (λ (t : Claim × Manager R). t.1) e)
  after_end-ReturnsOwned i c v task now m (denied d, m') e n s h = absurd (ground arith)

  awaited-ReturnsOwned :
      (i c : String) (task : ℕ) (input : Input) (m : Manager R) (outcome : Option String)
      → input.outcome ≡ outcome
      → i ≢ ""
      → ReturnsOwned i (advance R (awaiting i c task) input m)
  unfolding advance
  awaited-ReturnsOwned i c task input m none e n = rw (e, advance) (λ s h. absurd (ground arith))
  awaited-ReturnsOwned i c task input m (some v) e n =
      rw (e, advance)
        (after_end-ReturnsOwned i c v task input.now m (end_create R i c task v input.now m) refl n)

  entered-ReturnsOwned :
      (i c p : String) (input : Input) (m : Manager R)
      → IsOwned R L m
      → i ≢ ""
      → ReturnsOwned i (advance R (entered i c (some p)) input m)
  unfolding advance create
  entered-ReturnsOwned i c p input m o n = elim (Bool-cases (is_truthy p)) [
    | inl given ↦
        rw given (after_claim-ReturnsOwned i c p (claim_preferred_session R i p input.now m))
    | inr blank ↦
        rw blank (create-ReturnsOwned i c input.now m (begin_create R i c input.now m) refl o n)
  ]

  bound-ReturnsOwned :
      (i c v : String) (now : ℕ → ℕ) (m : Manager R)
      → i ≢ ""
      → owner R L m v ≡ some i
      → ReturnsOwned i (returned v false, bind_session R i c v now m)
  bound-ReturnsOwned i c v now m n e s h =
      ground (arith, bind_session-KeepsOwners R L i c v now m i v n e)

  named : (i : String) → ◌≢◌ {A = Option String} (some i) (some "") → i ≢ ""
  named i n q = n (ap (λ (t : String). some t) q)

  finalize_returns_nothing :
      (i c v s : String) (r : Claim × Manager R) → (after_finalize R i c v r).0 ≢ returned s false
  unfolding after_finalize
  finalize_returns_nothing i c v s (claimed b, m) h = ground arith
  finalize_returns_nothing i c v s (denied d, m) h = ground arith

  -- On a repository that forgets nothing by itself: when a section of a call by a caller with a
  -- non-empty name returns a session without a pending claim, that session is owned by the caller
  -- by then, if bound sessions are owned by their callers and the call is entitled to what it
  -- binds, as the interleaving of calls keeps it.
  pub returned_session-IsOwned :
      (call : Call) (input : Input) (m : Manager R) (s : String)
      → IsOwned R L m
      → IsEntitled R L m call
      → caller call ≢ none
      → caller call ≢ some ""
      → (advance R call input m).0 ≡ returned s false
      → owner R L (advance R call input m).1 s ≡ caller call
  unfolding advance create after_finalize
  returned_session-IsOwned (entered i c none) input m s o e who n h =
      create-ReturnsOwned i c input.now m (begin_create R i c input.now m) refl o (named i n) s h
  returned_session-IsOwned (entered i c (some p)) input m s o e who n h =
      entered-ReturnsOwned i c p input m o (named i n) s h
  returned_session-IsOwned (owned i c v) input m s o e who n h =
      bound-ReturnsOwned i c v input.now m (named i n) (e (named i n)) s h
  returned_session-IsOwned (awaiting i c task) input m s o e who n h =
      awaited-ReturnsOwned i c task input m input.outcome refl (named i n) s h
  returned_session-IsOwned (finalizing i c v) input m s o e who n h =
      absurd (finalize_returns_nothing i c v s (finalize_session_claim R i v input.now m) h)
  returned_session-IsOwned (finalized i c v) input m s o e who n h = absurd (ground arith)
  returned_session-IsOwned _ input m s o e who n h = absurd (who refl)
