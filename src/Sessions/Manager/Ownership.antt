-- ===== src/Sessions/Manager/Ownership.antt =====
-- No interleaving of calls of src/opencode_a2a/execution/session_manager.py hands a session to a caller
-- that does not own it, or takes a session from its owner.
use opencode_a2a_serve.Base.Names.{ℕ, String, some, ◌≡◌, ◌≢◌, arith, List, [], ◌∷◌, ◌∙◌, inl, inr}
use opencode_a2a_serve.Base.Equality.{◌==◌, string_eq, option_eq, nat_eq, Bool-cases}
use opencode_a2a_serve.Sessions.Repository.{SessionRepository, IsDurable}
use opencode_a2a_serve.Sessions.Manager.{
  Manager, Call, entered, finalizing, advance, System, Event, get_or_create, finalize, run_section,
  release, pop_cached, step, run, with_call,
}
use opencode_a2a_serve.Sessions.Manager.{release_preferred_session_claim, pop_cached_session}
use opencode_a2a_serve.Sessions.Manager.Sections.{owner}
use opencode_a2a_serve.Sessions.Manager.Invariant.{
  SameView, same-IsOwned, same-KeepsOwners, IsEntitled-later, IsOwned, IsEntitled, KeepsOwners,
}
use opencode_a2a_serve.Sessions.Manager.Soundness.{advance-IsSound}

module _ (R : SessionRepository) (L : IsDurable R) where
  -- Between two events, for the manager and for every call in flight.
  pub record IsSafe (s : System R) : Type 0 where
    pub bindings : IsOwned R L s.manager
    pub calls : (k : ℕ) → IsEntitled R L s.manager (s.call k)

  with_call-IsEntitled :
      (s : System R) (n : ℕ) (call : Call)
      → ((k : ℕ) → IsEntitled R L s.manager (s.call k))
      → IsEntitled R L s.manager call
      → (k : ℕ) → IsEntitled R L s.manager ((with_call R n call s).call k)
  with_call-IsEntitled s n call h e k = elim (Bool-cases (k == n)) [
    | inl same ↦ rw same e
    | inr other ↦ rw other (h k)
  ]

  release-SameView :
      (i v : String) (m : Manager R) → SameView R L m (release_preferred_session_claim R i v m)
  unfolding release_preferred_session_claim
  release-SameView i v m = (
    λ s. L.owner-clear_pending_claim s v (some i) m.state_repository,
    λ j d. L.binding-clear_pending_claim j d v (some i) m.state_repository,
  )

  pop-KeepsOwners :
      (i c : String) (m : Manager R) → KeepsOwners R L m (pop_cached_session R i c m).1
  unfolding pop_cached_session
  pop-KeepsOwners i c m j v n h = L.owner-pop_session v i c m.state_repository ∙ h

  pop-IsOwned :
      (i c : String) (m : Manager R) → IsOwned R L m → IsOwned R L (pop_cached_session R i c m).1
  unfolding pop_cached_session
  pop-IsOwned i c m o j d v n h = ground (
    arith,
    L.owner-pop_session v i c m.state_repository,
    L.binding-pop_session j d i c m.state_repository,
    o j d v n,
  )

  same_calls :
      (s : System R) (m : Manager R)
      → SameView R L s.manager m
      → IsSafe s
      → IsSafe (record s { manager = m }) × KeepsOwners R L s.manager m
  same_calls s m v h =
      let k = same-KeepsOwners R L s.manager m v in
      (
        record {
          bindings = same-IsOwned R L s.manager m v h.bindings;
          calls = λ j. IsEntitled-later R L s.manager m (s.call j) k (h.calls j);
        },
        k,
      )

  step-IsSafe :
      (s : System R) (event : Event)
      → IsSafe s
      → IsSafe (step R s event) × KeepsOwners R L s.manager (step R s event).manager
  unfolding step
  step-IsSafe s (get_or_create n i c p) h = (
    record { bindings = h.bindings; calls = with_call-IsEntitled s n (entered i c p) h.calls tt },
    λ _ _ _ o. o,
  )
  step-IsSafe s (finalize n i c v) h = (
    record {
      bindings = h.bindings;
      calls = with_call-IsEntitled s n (finalizing i c v) h.calls tt;
    },
    λ _ _ _ o. o,
  )
  step-IsSafe s (run_section n input) h =
      let (o, k, e) = advance-IsSound R L (s.call n) input s.manager h.bindings (h.calls n) in
      let (call, m) = advance R (s.call n) input s.manager in
      (
        record {
          bindings = o;
          calls =
              with_call-IsEntitled (record s { manager = m }) n call
                (λ j. IsEntitled-later R L s.manager m (s.call j) k (h.calls j)) e;
        },
        k,
      )
  step-IsSafe s (release i v) h =
      same_calls s (release_preferred_session_claim R i v s.manager)
        (release-SameView i v s.manager) h
  step-IsSafe s (pop_cached i c) h =
      let k = pop-KeepsOwners i c s.manager in
      let m = (pop_cached_session R i c s.manager).1 in
      (
        record {
          bindings = pop-IsOwned i c s.manager h.bindings;
          calls = λ j. IsEntitled-later R L s.manager m (s.call j) k (h.calls j);
        },
        k,
      )

  -- Whatever calls start and however their critical sections interleave, on a repository that
  -- forgets nothing by itself: in every state that is reached from a safe one, a session that is
  -- bound for a caller with a non-empty name is owned by that caller.
  pub run-IsSafe : (s : System R) (events : List Event) → IsSafe s → IsSafe (run R s events)
  unfolding run
  run-IsSafe s [] h = h
  run-IsSafe s (event ∷ events) h = run-IsSafe (step R s event) events (step-IsSafe s event h).0

  -- Whatever calls start and however their critical sections interleave, on a repository that
  -- forgets nothing by itself and from a safe state on, a session with a non-empty owner keeps
  -- that owner.
  pub run-KeepsOwners :
      (s : System R) (events : List Event) (i v : String)
      → IsSafe s
      → i ≢ ""
      → owner R L s.manager v ≡ some i
      → owner R L (run R s events).manager v ≡ some i
  unfolding run
  run-KeepsOwners s [] i v h n o = o
  run-KeepsOwners s (event ∷ events) i v h n o =
      let (h', k) = step-IsSafe s event h in
      run-KeepsOwners (step R s event) events i v h' n (k i v n o)
