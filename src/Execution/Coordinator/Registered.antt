-- ===== src/Execution/Coordinator/Registered.antt =====
-- What the tables of src/opencode_a2a/execution/executor.py say of the executions that run.
use opencode_a2a_serve.Base.Names.{
  ℕ, Bool, true, false, Option, some, List, [], ◌∷◌, ◌≡◌, ◌≢◌, ◌⊎◌, inl, inr, refl, arith,
}
use opencode_a2a_serve.Base.Equality.{string_eq, pair_eq, nat_eq, Bool-cases}
use opencode_a2a_serve.Base.Dict.{lookup, lookup-insert, lookup-erase}
use opencode_a2a_serve.Base.Value.{Value}
use opencode_a2a_serve.Sessions.Repository.{SessionRepository}
use opencode_a2a_serve.Sessions.Manager.{Manager, Claim, claimed, denied}
use opencode_a2a_serve.Execution.Replies.{QueueEvent, ExecutionFailure}
use opencode_a2a_serve.Execution.Coordinator.{
  cleanup, enqueue, fails, concludes, after_finalize, settle_claim, after_settle, happen, step, run,
}
use opencode_a2a_serve.Execution.World.{
  is_over, is_live, Phase, idle, binding, fetching, acquiring, sending, finished, cancelled, World,
  Event, starts, binds, binding_fails, fetches_lock, acquires, answers, raises, cancels, elsewhere,
  subject, unregister, register_session, register_running_request,
}
use opencode_a2a_serve.Execution.Coordinator.Locking.{is_sending}

module _ (R : SessionRepository) where
  -- An execution that runs is registered under its key with its identity, and one whose message the
  -- upstream works on also with the context of its session.
  pub record AreRegistered (w : World R) : Type 0 where
    pub requests :
        (n : ℕ)
        → is_live (w.execution n).phase ≡ true
        → lookup (w.execution n).prepared.key w.running.running_requests ≡ some n
    pub identities :
        (n : ℕ)
        → is_live (w.execution n).phase ≡ true
        → lookup (w.execution n).prepared.key w.running.running_identities
          ≡ some (w.execution n).prepared.identity
    pub contexts :
        (n : ℕ)
        → is_sending (w.execution n).phase ≡ true
        → lookup (w.execution n).prepared.key w.running.running_binding_context_ids
          ≡ some (w.execution n).prepared.session_binding_context_id

  pub sending_lives : (phase : Phase) → is_sending phase ≡ true → is_live phase ≡ true
  sending_lives sending h = refl
  sending_lives idle h = absurd (ground (arith, h))
  sending_lives binding h = absurd (ground (arith, h))
  sending_lives fetching h = absurd (ground (arith, h))
  sending_lives acquiring h = absurd (ground (arith, h))
  sending_lives finished h = absurd (ground (arith, h))
  sending_lives cancelled h = absurd (ground (arith, h))

  -- Two executions that run have different keys.
  apart :
      (w : World R) (n m : ℕ)
      → AreRegistered w
      → is_live (w.execution n).phase ≡ true
      → is_live (w.execution m).phase ≡ true
      → (w.execution n).prepared.key ≡ (w.execution m).prepared.key
      → n ≡ m
  apart w n m x h k same = ground (arith, x.requests n h, x.requests m k, same)

  cleanup-AreRegistered :
      (n : ℕ) (end_phase : Phase) (w : World R)
      → is_over end_phase ≡ true
      → is_live (w.execution n).phase ≡ true
      → AreRegistered w
      → AreRegistered (cleanup R n end_phase w)
  unfolding cleanup unregister
  cleanup-AreRegistered n end_phase w ended lives x =
      let key = (w.execution n).prepared.key in
      record {
        requests = λ i h. ground (
          arith,
          ended,
          h,
          x.requests i,
          apart w i n x,
          lives,
          lookup-erase (w.execution i).prepared.key key w.running.running_requests,
        );
        identities = λ i h. ground (
          arith,
          ended,
          h,
          x.identities i,
          apart w i n x,
          lives,
          lookup-erase (w.execution i).prepared.key key w.running.running_identities,
        );
        contexts = λ i h. ground (
          arith,
          ended,
          h,
          x.contexts i,
          sending_lives (w.execution i).phase,
          apart w i n x,
          lives,
          lookup-erase (w.execution i).prepared.key key w.running.running_binding_context_ids,
        );
      }

  -- What the tables are about is left alone.
  abbrev SameRuns : World R → World R → Type 0
  SameRuns w w' =
      (w'.running ≡ w.running)
      × ((k : ℕ)
          → ((w'.execution k).phase ≡ (w.execution k).phase)
            × ((w'.execution k).prepared ≡ (w.execution k).prepared))

  same-AreRegistered : (w w' : World R) → SameRuns w w' → AreRegistered w → AreRegistered w'
  same-AreRegistered w w' (same, kept) x = record {
    requests = λ i h. ground (arith, same, kept i, h, x.requests i);
    identities = λ i h. ground (arith, same, kept i, h, x.identities i);
    contexts = λ i h. ground (arith, same, kept i, h, x.contexts i);
  }

  enqueue-SameRuns :
      (n : ℕ) (events : List QueueEvent) (w : World R) → SameRuns w (enqueue R n events w)
  enqueue-SameRuns n events w = (refl, λ k. ground arith)

  -- After events are put into the queue, and after a clean-up
  closes-AreRegistered :
      (n : ℕ) (events : List QueueEvent) (w : World R)
      → is_live (w.execution n).phase ≡ true
      → AreRegistered w
      → AreRegistered (cleanup R n finished (enqueue R n events w))
  closes-AreRegistered n events w lives x =
      cleanup-AreRegistered n finished (enqueue R n events w) refl
        (ground (arith, enqueue-SameRuns n events w, lives))
        (same-AreRegistered w _ (enqueue-SameRuns n events w) x)

  fails-AreRegistered :
      (n : ℕ) (failure : ExecutionFailure) (w : World R)
      → is_live (w.execution n).phase ≡ true
      → AreRegistered w
      → AreRegistered (fails R n failure w)
  unfolding fails
  fails-AreRegistered n failure w lives x = closes-AreRegistered n _ w lives x

  concludes-AreRegistered :
      (n : ℕ) (reply : ExecutionFailure ⊎ List QueueEvent) (w : World R)
      → is_live (w.execution n).phase ≡ true
      → AreRegistered w
      → AreRegistered (concludes R n reply w)
  unfolding concludes
  concludes-AreRegistered n (inl failure) w lives x = fails-AreRegistered n failure w lives x
  concludes-AreRegistered n (inr events) w lives x = closes-AreRegistered n events w lives x

  abbrev SettlesSame : World R → (ExecutionFailure × World R) ⊎ World R → Type 0
  SettlesSame w (inl (failure, w')) = SameRuns w w'
  SettlesSame w (inr w') = SameRuns w w'

  after_finalize-SameRuns :
      (n : ℕ) (now : ℕ → ℕ) (meanwhile : Manager R → Manager R) (c : Claim × Manager R)
      (w : World R)
      → SettlesSame w (after_finalize R n now meanwhile c w)
  unfolding after_finalize
  after_finalize-SameRuns n now meanwhile (denied s, m) w = (refl, λ k. (refl, refl))
  after_finalize-SameRuns n now meanwhile (claimed b, m) w = (refl, λ k. ground arith)

  settle-SameRuns :
      (n : ℕ) (now : ℕ → ℕ) (meanwhile : Manager R → Manager R) (w : World R)
      → SettlesSame w (settle_claim R n now meanwhile w)
  unfolding settle_claim
  settle-SameRuns n now meanwhile w = elim (Bool-cases (w.execution n).pending_preferred_claim) [
    | inl pending ↦ rw pending (after_finalize-SameRuns n now meanwhile _ w)
    | inr quiet ↦ rw quiet (refl, λ k. (refl, refl))
  ]

  after_settle-AreRegistered :
      (reply : World R → ExecutionFailure ⊎ List QueueEvent) (n : ℕ) (more : Bool) (w : World R)
      (settled : (ExecutionFailure × World R) ⊎ World R)
      → SettlesSame w settled
      → is_live (w.execution n).phase ≡ true
      → AreRegistered w
      → AreRegistered (after_settle R reply n more settled)
  unfolding after_settle
  after_settle-AreRegistered reply n more w (inl (failure, w')) kept lives x =
      fails-AreRegistered n failure w' (ground (arith, kept.1 n, lives))
        (same-AreRegistered w w' kept x)
  after_settle-AreRegistered reply n true w (inr w') kept lives x = same-AreRegistered w w' kept x
  after_settle-AreRegistered reply n false w (inr w') kept lives x =
      concludes-AreRegistered n (reply w') w' (ground (arith, kept.1 n, lives))
        (same-AreRegistered w w' kept x)

  module _ (coerce_number : Value → Option Value) (add : Value → Value → Value) where
    -- No execution that runs has the key of one that the event starts.
    abbrev pub StartsFresh : World R → Event R → Type 0
    StartsFresh w (starts n p) =
        (k : ℕ) → is_live (w.execution k).phase ≡ true → (w.execution k).prepared.key ≢ p.key
    StartsFresh w event = Unit

    abbrev pub AllStartFresh : World R → List (Event R) → Type 0
    AllStartFresh w [] = Unit
    AllStartFresh w (event ∷ events) =
        StartsFresh w event × AllStartFresh (step R coerce_number add w event) events

    happen-AreRegistered :
        (event : Event R) (phase : Phase) (w : World R)
        → (w.execution (subject event)).phase ≡ phase
        → AreRegistered w
        → StartsFresh w event
        → AreRegistered (happen R coerce_number add event phase w)
    unfolding happen register_running_request register_session
    happen-AreRegistered (starts n p) idle w e x fresh = record {
      requests = λ i h. ground (
        arith,
        h,
        fresh i,
        x.requests i,
        lookup-insert (w.execution i).prepared.key p.key n w.running.running_requests,
        lookup-insert p.key p.key n w.running.running_requests,
      );
      identities = λ i h. ground (
        arith,
        h,
        fresh i,
        x.identities i,
        lookup-insert (w.execution i).prepared.key p.key p.identity w.running.running_identities,
        lookup-insert p.key p.key p.identity w.running.running_identities,
      );
      contexts = λ i h. ground (arith, h, x.contexts i);
    }
    happen-AreRegistered (binds n s b) binding w e x fresh = record {
      requests = λ i h. ground (arith, e, h, x.requests i);
      identities = λ i h. ground (arith, e, h, x.identities i);
      contexts = λ i h. ground (arith, h, x.contexts i);
    }
    happen-AreRegistered (fetches_lock n) fetching w e x fresh = record {
      requests = λ i h. ground (arith, e, h, x.requests i);
      identities = λ i h. ground (arith, e, h, x.identities i);
      contexts = λ i h. ground (arith, h, x.contexts i);
    }
    happen-AreRegistered (binding_fails n f) binding w e x fresh =
        fails-AreRegistered n f w (ground (arith, e)) x
    happen-AreRegistered (acquires n) acquiring w e x fresh =
        let key = (w.execution n).prepared.key in
        let context = (w.execution n).prepared.session_binding_context_id in
        elim (Bool-cases (w.is_locked (w.execution n).session_id)) [
          | inl taken ↦ rw taken x
          | inr free ↦ rw free (record {
            requests = λ i h. ground (arith, e, h, x.requests i);
            identities = λ i h. ground (arith, e, h, x.identities i);
            contexts = λ i h. ground (
              arith,
              e,
              h,
              x.contexts i,
              sending_lives (w.execution i).phase,
              apart w i n x,
              lookup-insert (w.execution i).prepared.key key context
                  w.running.running_binding_context_ids,
            );
          })
        ]
    happen-AreRegistered (answers n response more now meanwhile s awaited) sending w e x fresh =
        after_settle-AreRegistered _ n more w (settle_claim R n now meanwhile w)
          (settle-SameRuns n now meanwhile w) (ground (arith, e)) x
    happen-AreRegistered (raises n f) sending w e x fresh =
        fails-AreRegistered n f w (ground (arith, e)) x
    happen-AreRegistered (cancels n) binding w e x fresh =
        cleanup-AreRegistered n cancelled w refl (ground (arith, e)) x
    happen-AreRegistered (cancels n) fetching w e x fresh =
        cleanup-AreRegistered n cancelled w refl (ground (arith, e)) x
    happen-AreRegistered (cancels n) acquiring w e x fresh =
        cleanup-AreRegistered n cancelled w refl (ground (arith, e)) x
    happen-AreRegistered (cancels n) sending w e x fresh =
        cleanup-AreRegistered n cancelled w refl (ground (arith, e)) x
    happen-AreRegistered (elsewhere change) phase w e x fresh = record {
      requests = x.requests;
      identities = x.identities;
      contexts = x.contexts;
    }
    happen-AreRegistered event phase w e x fresh = x

    pub run-AreRegistered :
        (w : World R) (events : List (Event R))
        → AreRegistered w
        → AllStartFresh w events
        → AreRegistered (run R coerce_number add w events)
    unfolding run
    run-AreRegistered w [] x fresh = x
    run-AreRegistered w (event ∷ events) x (fresh, more) =
        run-AreRegistered (step R coerce_number add w event) events
          (unfold step in
            happen-AreRegistered event (w.execution (subject event)).phase w refl x fresh)
          more
