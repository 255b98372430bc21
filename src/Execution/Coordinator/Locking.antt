-- ===== src/Execution/Coordinator/Locking.antt =====
-- The locks of sessions in src/opencode_a2a/execution/coordinator.py: what they exclude, and what a
-- cancellation does to them.
use opencode_a2a_serve.Base.Names.{
  ℕ, Bool, true, false, Option, List, [], ◌∷◌, ◌≡◌, ◌≢◌, ◌⊎◌, inl, inr, refl, arith,
}
use opencode_a2a_serve.Base.Equality.{string_eq, nat_eq, Bool-cases}
use opencode_a2a_serve.Base.Value.{Value}
use opencode_a2a_serve.Sessions.Repository.{SessionRepository}
use opencode_a2a_serve.Sessions.Manager.{Manager, Claim, claimed, denied}
use opencode_a2a_serve.Execution.Replies.{QueueEvent, ExecutionFailure}
use opencode_a2a_serve.Execution.Coordinator.{
  cleanup, enqueue, fails, concludes, after_finalize, settle_claim, after_settle, happen, step, run,
}
use opencode_a2a_serve.Execution.World.{
  is_over, Phase, idle, binding, fetching, acquiring, sending, finished, cancelled, World, Event,
  starts, binds, binding_fails, fetches_lock, acquires, answers, raises, cancels, elsewhere,
  subject,
}

abbrev pub is_sending : Phase → Bool
is_sending sending = true
is_sending _ = false

abbrev pub is_binding : Phase → Bool
is_binding binding = true
is_binding fetching = true
is_binding _ = false

module _ (R : SessionRepository) where
  -- Executions that send hold the locks of different sessions, and no execution has a lock at hand before
  -- it has fetched it.
  pub record IsExclusive (w : World R) : Type 0 where
    pub held :
        (n : ℕ)
        → is_sending (w.execution n).phase ≡ true
        → w.is_locked (w.execution n).session_id ≡ true
    pub alone :
        (n m : ℕ)
        → is_sending (w.execution n).phase ≡ true
        → is_sending (w.execution m).phase ≡ true
        → (w.execution n).session_id ≡ (w.execution m).session_id
        → n ≡ m
    pub known :
        (n : ℕ) → is_binding (w.execution n).phase ≡ true → (w.execution n).has_session_lock ≡ false

  -- `_cleanup` of an execution that does not wait for a lock
  cleanup-IsExclusive :
      (n : ℕ) (end_phase : Phase) (w : World R)
      → IsExclusive w
      → is_over end_phase ≡ true
      → (is_sending (w.execution n).phase ≡ true) ⊎ ((w.execution n).has_session_lock ≡ false)
      → IsExclusive (cleanup R n end_phase w)
  unfolding cleanup
  cleanup-IsExclusive n end_phase w x ended h = record {
    held = λ i s. ground (arith, ended, h, x.held i, x.alone i n);
    alone = λ i j s s' e. ground (arith, ended, x.alone i j);
    known = λ i b. ground (arith, ended, x.known i);
  }

  enqueue-IsExclusive :
      (n : ℕ) (events : List QueueEvent) (w : World R)
      → IsExclusive w
      → IsExclusive (enqueue R n events w)
  enqueue-IsExclusive n events w x = record {
    held = λ i s. ground (arith, x.held i);
    alone = λ i j s s' e. ground (arith, x.alone i j);
    known = λ i b. ground (arith, x.known i);
  }

  -- The execution itself is in no danger to unlock another's lock.
  abbrev Unlocks : ℕ → World R → Type 0
  Unlocks n w =
      (is_sending (w.execution n).phase ≡ true) ⊎ ((w.execution n).has_session_lock ≡ false)

  Unlocks-enqueue :
      (n : ℕ) (events : List QueueEvent) (w : World R)
      → Unlocks n w
      → Unlocks n (enqueue R n events w)
  Unlocks-enqueue n events w h = ground (arith, h)

  fails-IsExclusive :
      (n : ℕ) (failure : ExecutionFailure) (w : World R)
      → IsExclusive w
      → Unlocks n w
      → IsExclusive (fails R n failure w)
  unfolding fails
  fails-IsExclusive n failure w x h =
      cleanup-IsExclusive n finished (enqueue R n _ w) (enqueue-IsExclusive n _ w x) refl
        (Unlocks-enqueue n _ w h)

  concludes-IsExclusive :
      (n : ℕ) (reply : ExecutionFailure ⊎ List QueueEvent) (w : World R)
      → IsExclusive w
      → Unlocks n w
      → IsExclusive (concludes R n reply w)
  unfolding concludes
  concludes-IsExclusive n (inl failure) w x h = fails-IsExclusive n failure w x h
  concludes-IsExclusive n (inr events) w x h =
      cleanup-IsExclusive n finished (enqueue R n events w) (enqueue-IsExclusive n events w x) refl
        (Unlocks-enqueue n events w h)

  -- What settling a claim leaves alone
  abbrev KeepsLocks : ℕ → World R → World R → Type 0
  KeepsLocks n w w' =
      (w'.is_locked ≡ w.is_locked)
      × ((k : ℕ)
          → ((w'.execution k).phase ≡ (w.execution k).phase)
            × ((w'.execution k).session_id ≡ (w.execution k).session_id)
            × ((w'.execution k).has_session_lock ≡ (w.execution k).has_session_lock))

  KeepsLocks-IsExclusive :
      (n : ℕ) (w w' : World R) → KeepsLocks n w w' → IsExclusive w → IsExclusive w'
  KeepsLocks-IsExclusive n w w' (same, kept) x = record {
    held = λ i s. ground (arith, same, kept i, x.held i);
    alone = λ i j s s' e. ground (arith, kept i, kept j, x.alone i j);
    known = λ i b. ground (arith, kept i, x.known i);
  }

  abbrev SettlesKeep : ℕ → World R → (ExecutionFailure × World R) ⊎ World R → Type 0
  SettlesKeep n w (inl (failure, w')) = KeepsLocks n w w'
  SettlesKeep n w (inr w') = KeepsLocks n w w'

  after_finalize-KeepsLocks :
      (n : ℕ) (now : ℕ → ℕ) (meanwhile : Manager R → Manager R) (c : Claim × Manager R)
      (w : World R)
      → SettlesKeep n w (after_finalize R n now meanwhile c w)
  unfolding after_finalize
  after_finalize-KeepsLocks n now meanwhile (denied s, m) w = (refl, λ k. (refl, refl, refl))
  after_finalize-KeepsLocks n now meanwhile (claimed b, m) w = (refl, λ k. ground arith)

  settle-KeepsLocks :
      (n : ℕ) (now : ℕ → ℕ) (meanwhile : Manager R → Manager R) (w : World R)
      → SettlesKeep n w (settle_claim R n now meanwhile w)
  unfolding settle_claim
  settle-KeepsLocks n now meanwhile w = elim (Bool-cases (w.execution n).pending_preferred_claim) [
    | inl pending ↦ rw pending (after_finalize-KeepsLocks n now meanwhile _ w)
    | inr quiet ↦ rw quiet (refl, λ k. (refl, refl, refl))
  ]

  module _ (coerce_number : Value → Option Value) (add : Value → Value → Value) where
    -- No execution that waits for a lock is cancelled by the event.
    abbrev pub SparesWaiters : World R → Event R → Type 0
    SparesWaiters w (cancels n) = (w.execution n).phase ≢ acquiring
    SparesWaiters w event = Unit

    after_settle-IsExclusive :
        (reply : World R → ExecutionFailure ⊎ List QueueEvent) (n : ℕ) (more : Bool) (w : World R)
        (settled : (ExecutionFailure × World R) ⊎ World R)
        → SettlesKeep n w settled
        → IsExclusive w
        → is_sending (w.execution n).phase ≡ true
        → IsExclusive (after_settle R reply n more settled)
    unfolding after_settle
    after_settle-IsExclusive reply n more w (inl (failure, w')) kept x s =
        fails-IsExclusive n failure w' (KeepsLocks-IsExclusive n w w' kept x)
          (inl (ground (arith, kept.1 n, s)))
    after_settle-IsExclusive reply n true w (inr w') kept x s = KeepsLocks-IsExclusive n w w' kept x
    after_settle-IsExclusive reply n false w (inr w') kept x s =
        concludes-IsExclusive n (reply w') w' (KeepsLocks-IsExclusive n w w' kept x)
          (inl (ground (arith, kept.1 n, s)))

    happen-IsExclusive :
        (event : Event R) (phase : Phase) (w : World R)
        → (w.execution (subject event)).phase ≡ phase
        → IsExclusive w
        → SparesWaiters w event
        → IsExclusive (happen R coerce_number add event phase w)
    unfolding happen
    happen-IsExclusive (starts n p) idle w e x spares = record {
      held = λ i s. ground (arith, x.held i);
      alone = λ i j s s' q. ground (arith, x.alone i j);
      known = λ i b. ground (arith, x.known i);
    }
    happen-IsExclusive (binds n s b) binding w e x spares = record {
      held = λ i s. ground (arith, x.held i);
      alone = λ i j s s' q. ground (arith, x.alone i j);
      known = λ i b. ground (arith, e, x.known i);
    }
    happen-IsExclusive (fetches_lock n) fetching w e x spares = record {
      held = λ i s. ground (arith, x.held i);
      alone = λ i j s s' q. ground (arith, x.alone i j);
      known = λ i b. ground (arith, x.known i);
    }
    happen-IsExclusive (binding_fails n f) binding w e x spares =
        fails-IsExclusive n f w x (inr (x.known n (ground (arith, e))))
    happen-IsExclusive (acquires n) acquiring w e x spares =
        elim (Bool-cases (w.is_locked (w.execution n).session_id)) [
          | inl taken ↦ rw taken x
          | inr free ↦ rw free (record {
            held = λ i s. ground (arith, x.held i);
            alone = λ i j s s' q. ground (arith, free, x.held i, x.held j, x.alone i j);
            known = λ i b. ground (arith, x.known i);
          })
        ]
    happen-IsExclusive (answers n response more now meanwhile s awaited) sending w e x spares =
        after_settle-IsExclusive _ n more w (settle_claim R n now meanwhile w)
          (settle-KeepsLocks n now meanwhile w) x (ground (arith, e))
    happen-IsExclusive (raises n f) sending w e x spares =
        fails-IsExclusive n f w x (inl (ground (arith, e)))
    happen-IsExclusive (cancels n) binding w e x spares =
        cleanup-IsExclusive n cancelled w x refl (inr (x.known n (ground (arith, e))))
    happen-IsExclusive (cancels n) fetching w e x spares =
        cleanup-IsExclusive n cancelled w x refl (inr (x.known n (ground (arith, e))))
    happen-IsExclusive (cancels n) acquiring w e x spares = absurd (spares e)
    happen-IsExclusive (cancels n) sending w e x spares =
        cleanup-IsExclusive n cancelled w x refl (inl (ground (arith, e)))
    happen-IsExclusive (elsewhere change) phase w e x spares = record {
      held = x.held;
      alone = x.alone;
      known = x.known;
    }
    happen-IsExclusive event phase w e x spares = x

    abbrev pub AllSpareWaiters : World R → List (Event R) → Type 0
    AllSpareWaiters w [] = Unit
    AllSpareWaiters w (event ∷ events) =
        SparesWaiters w event × AllSpareWaiters (step R coerce_number add w event) events

    -- From a state where this holds on, and over any interleaving of executions in which none is
    -- cancelled while it waits for a lock: an execution whose message the upstream works on holds
    -- the lock of its session, and no two of them have the same session.
    pub run-IsExclusive :
        (w : World R) (events : List (Event R))
        → IsExclusive w
        → AllSpareWaiters w events
        → IsExclusive (run R coerce_number add w events)
    unfolding run
    run-IsExclusive w [] x spares = x
    run-IsExclusive w (event ∷ events) x (spares, more) =
        run-IsExclusive (step R coerce_number add w event) events
          (unfold step in
            happen-IsExclusive event (w.execution (subject event)).phase w refl x spares)
          more

    -- When an execution that waits for the lock of a session is cancelled while another holds it,
    -- its clean-up unlocks the session, so that a third execution that waits gets the lock, and
    -- two executions work on the same session at once.
    pub cancelled_waiter_unlocks :
        (w : World R) (n m k : ℕ)
        → (w.execution n).phase ≡ sending
        → (w.execution m).phase ≡ acquiring
        → (w.execution k).phase ≡ acquiring
        → m ≢ k
        → (w.execution m).session_id ≡ (w.execution n).session_id
        → (w.execution k).session_id ≡ (w.execution n).session_id
        → (w.execution m).has_session_lock ≡ true
        → w.is_locked (w.execution n).session_id ≡ true
        → let w' = step R coerce_number add w (cancels m) in
          let w'' = step R coerce_number add w' (acquires k) in
          (w'.is_locked (w.execution n).session_id ≡ false)
          × ((w''.execution n).phase ≡ sending)
          × ((w''.execution k).phase ≡ sending)
          × ((w''.execution k).session_id ≡ (w''.execution n).session_id)
    unfolding step cleanup
    cancelled_waiter_unlocks w n m k sends waits waits' other same same' at_hand locked =
        ground (arith, sends, waits, waits', other, same, same', at_hand, locked)
