-- ===== src/Execution/Cancel/Stops.antt =====
-- What `cancel` of src/opencode_a2a/execution/executor.py leaves of a running execution.
pub mod Waiting
use opencode_a2a_serve.Base.Names.{
  ℕ, String, Bool, true, false, ◌&&◌, Option, none, some, ◌≡◌, inl, inr, refl, subst, ◌∙◌, arith,
}
use opencode_a2a_serve.Base.Equality.{string_eq, pair_eq, Bool-cases}
use opencode_a2a_serve.Base.Dict.{Dict, lookup, erase, lookup-erase}
use opencode_a2a_serve.Base.Text.{is_truthy}
use opencode_a2a_serve.Base.Value.{Value}
use opencode_a2a_serve.Sessions.Repository.{SessionRepository, IsDurable}
use opencode_a2a_serve.Sessions.Manager.{
  Manager, pop_cached_session, release_preferred_session_claim,
}
use opencode_a2a_serve.Execution.World.{
  ExecutionKey, Phase, idle, binding, fetching, acquiring, sending, finished, cancelled, Running,
  World, is_live, unregister, cancels,
}
use opencode_a2a_serve.Execution.Coordinator.{cleanup, happen, step}
use opencode_a2a_serve.Execution.Cancel.{
  CancelContext, Abort, aborted, timed_out, aborted_badly, raises, AbortRequest, Mishaps,
  Cancelling, or_given, identity_of, outcome_of, running_task, abort_request, after_inflight,
  after_abort, after_pop, cancel_key, cancel, after_cancel,
}

-- The abort ends in a way that `cancel` expects.
abbrev pub is_expected : Abort → Bool
is_expected (raises message) = false
is_expected _ = true

-- No table of the executor has the key.
pub record IsForgotten (key : ExecutionKey) (r : Running) : Type 0 where
  pub request : lookup key r.running_requests ≡ none
  pub stop_event : lookup key r.running_stop_events ≡ none
  pub identity : lookup key r.running_identities ≡ none
  pub session : lookup key r.running_session_ids ≡ none
  pub directory : lookup key r.running_directories ≡ none
  pub workspace : lookup key r.running_workspace_ids ≡ none
  pub binding_context : lookup key r.running_binding_context_ids ≡ none

erased :
    {V : Type 0} (key : ExecutionKey) (d : Dict ExecutionKey V) → lookup key (erase key d) ≡ none
erased key d = rw (lookup-erase key key d) (ground arith)

unregister-IsForgotten : (key : ExecutionKey) (r : Running) → IsForgotten key (unregister key r)
unfolding unregister
unregister-IsForgotten key r = record {
  request = erased key _;
  stop_event = erased key _;
  identity = erased key _;
  session = erased key _;
  directory = erased key _;
  workspace = erased key _;
  binding_context = erased key _;
}

outcome_of_expected :
    (n : ℕ) (request : Option AbortRequest) (abort : Abort)
    → is_expected abort ≡ true
    → (outcome : String) × (outcome_of (some n) request abort ≡ inr outcome)
unfolding outcome_of
outcome_of_expected n none abort h = ("no_session_binding", refl)
outcome_of_expected n (some request) aborted h = ("success", refl)
outcome_of_expected n (some request) timed_out h = ("timeout", refl)
outcome_of_expected n (some request) aborted_badly h = ("error", refl)
outcome_of_expected n (some request) (raises message) h = absurd (ground (arith, h))

module _ (R : SessionRepository) where
  -- The cancellation reaches the execution, and what is popped stays so.
  abbrev Reaches : ℕ → Manager R → Cancelling R → Type 0
  Reaches n m done = (done.task ≡ some n) × (done.manager ≡ m)

  inflight-Reaches :
      (n : ℕ) (request : Option AbortRequest) (outcome : String) (inflight : Option ℕ)
      (mishap : Option String) (m : Manager R)
      → Reaches n m (after_inflight R request (some n) outcome inflight mishap m)
  unfolding after_inflight
  inflight-Reaches n request outcome none mishap m = (refl, refl)
  inflight-Reaches n request outcome (some t) none m = (refl, refl)
  inflight-Reaches n request outcome (some t) (some message) m = (refl, refl)

  pop-Reaches :
      (n : ℕ) (key : ExecutionKey) (mishaps : Mishaps) (w : World R) (popped : Option ℕ × Manager R)
      → running_task R key w ≡ some n
      → is_expected mishaps.abort ≡ true
      → Reaches n popped.1 (after_pop R key mishaps w popped)
  unfolding after_pop after_abort
  pop-Reaches n key mishaps w (inflight, m) runs expected =
      let (outcome, e) =
        outcome_of_expected n (abort_request R key (some n) w.running) mishaps.abort expected in
      rw runs (
        rw e (
          inflight-Reaches n (abort_request R key (some n) w.running) outcome inflight
            mishaps.inflight m))

  running_task_lem :
      (n : ℕ) (key : ExecutionKey) (w : World R)
      → lookup key w.running.running_requests ≡ some n
      → is_live (w.execution n).phase ≡ true
      → running_task R key w ≡ some n
  unfolding running_task
  running_task_lem n key w registered live = rw (registered, running_task) (ground (arith, live))

  module _ (coerce_number : Value → Option Value) (add : Value → Value → Value) where
    happen-cancels :
        (n : ℕ) (phase : Phase) (w : World R)
        → is_live phase ≡ true
        → happen R coerce_number add (cancels n) phase w ≡ cleanup R n cancelled w
    unfolding happen
    happen-cancels n binding w live = refl
    happen-cancels n fetching w live = refl
    happen-cancels n acquiring w live = refl
    happen-cancels n sending w live = refl
    happen-cancels n idle w live = absurd (ground (arith, live))
    happen-cancels n finished w live = absurd (ground (arith, live))
    happen-cancels n cancelled w live = absurd (ground (arith, live))

    cancel-Reaches :
        (task_id context_id : String) (identity : Option String) (mishaps : Mishaps) (w : World R)
        (n : ℕ)
        → is_truthy task_id ≡ true
        → is_truthy context_id ≡ true
        → mishaps.pop ≡ none
        → is_expected mishaps.abort ≡ true
        → running_task R (task_id, context_id) w ≡ some n
        → Reaches n
            (pop_cached_session R
              (or_given
                (identity_of identity)
                (lookup (task_id, context_id) w.running.running_identities))
              (or_given context_id
                (lookup (task_id, context_id) w.running.running_binding_context_ids))
              w.manager).1
            (cancel R
              (record { task_id = some task_id; context_id = some context_id; identity = identity })
              mishaps
              w)
    unfolding cancel cancel_key
    cancel-Reaches task_id context_id identity mishaps w n named in_context pops expected runs =
        rw named
          (rw in_context (rw pops (pop-Reaches n (task_id, context_id) mishaps w _ runs expected)))

    module _ (D : IsDurable R) where
      -- A clean-up leaves the bindings alone.
      binding-cleanup :
          (n : ℕ) (w : World R) (i c : String)
          → D.binding (cleanup R n cancelled w).manager.state_repository i c
            ≡ D.binding w.manager.state_repository i c
      unfolding cleanup release_preferred_session_claim
      binding-cleanup n w i c =
          let x = w.execution n in
          elim (Bool-cases (x.pending_preferred_claim && is_truthy x.session_id)) [
            | inl claims ↦ rw claims (D.binding-clear_pending_claim i c x.session_id _ _)
            | inr quiet ↦ rw quiet refl
          ]

      binding-pop :
          (i c : String) (m : Manager R)
          → D.binding (pop_cached_session R i c m).1.state_repository i c ≡ none
      unfolding pop_cached_session
      binding-pop i c m = rw (D.binding-pop_session i c i c m.state_repository) (ground arith)

      -- The execution is over, no table has its key, and the caller has no session in the context.
      abbrev pub IsStopped : ℕ → ExecutionKey → String → String → World R → Type 0
      IsStopped n key i c w =
          ((w.execution n).phase ≡ cancelled)
          × IsForgotten key w.running
          × (D.binding w.manager.state_repository i c ≡ none)

      cleanup-IsStopped :
          (n : ℕ) (i c : String) (w : World R)
          → D.binding w.manager.state_repository i c ≡ none
          → IsStopped n (w.execution n).prepared.key i c (cleanup R n cancelled w)
      cleanup-IsStopped n i c w unbound = (
        unfold cleanup in ground arith,
        unfold cleanup in unregister-IsForgotten (w.execution n).prepared.key w.running,
        binding-cleanup n w i c ∙ unbound,
      )

      step-IsStopped :
          (n : ℕ) (i c : String) (w : World R)
          → is_live (w.execution n).phase ≡ true
          → D.binding w.manager.state_repository i c ≡ none
          → IsStopped n (w.execution n).prepared.key i c (step R coerce_number add w (cancels n))
      unfolding step
      step-IsStopped n i c w live unbound =
          rw (happen-cancels n (w.execution n).phase w live) (cleanup-IsStopped n i c w unbound)

      after-IsStopped :
          (n : ℕ) (i c : String) (w : World R) (m : Manager R) (done : Cancelling R)
          → Reaches n m done
          → is_live (w.execution n).phase ≡ true
          → D.binding m.state_repository i c ≡ none
          → IsStopped n
              (w.execution n).prepared.key
              i
              c
              (after_cancel R coerce_number add done (λ v. v) w)
      unfolding after_cancel
      after-IsStopped n i c w m done (task, manager) live unbound =
          rw task
            (step-IsStopped n i c (record w { manager = done.manager }) live (rw manager unbound))

      -- On the identity and the context that `cancel` looks up
      pub lookup-IsStopped :
          (task_id context_id : String) (identity : Option String) (mishaps : Mishaps) (w : World R)
          (n : ℕ)
          → is_truthy task_id ≡ true
          → is_truthy context_id ≡ true
          → mishaps.pop ≡ none
          → is_expected mishaps.abort ≡ true
          → lookup (task_id, context_id) w.running.running_requests ≡ some n
          → (w.execution n).prepared.key ≡ (task_id, context_id)
          → is_live (w.execution n).phase ≡ true
          → let key : ExecutionKey = (task_id, context_id) in
            IsStopped n key
              (or_given (identity_of identity) (lookup key w.running.running_identities))
              (or_given context_id (lookup key w.running.running_binding_context_ids))
              (after_cancel R coerce_number add
                (cancel R
                  (record {
                    task_id = some task_id;
                    context_id = some context_id;
                    identity = identity;
                  })
                  mishaps
                  w)
                (λ v. v)
                w)
      lookup-IsStopped task_id context_id identity mishaps w n named in_context pops expected
            registered same live =
          let key : ExecutionKey = (task_id, context_id) in
          let i = or_given (identity_of identity) (lookup key w.running.running_identities) in
          let c = or_given context_id (lookup key w.running.running_binding_context_ids) in
          let context : CancelContext = record {
            task_id = some task_id;
            context_id = some context_id;
            identity = identity;
          } in
          let done = cancel R context mishaps w in
          subst (λ k. IsStopped n k i c (after_cancel R coerce_number add done (λ v. v) w)) same
            (after-IsStopped n i c w (pop_cached_session R i c w.manager).1 done
              (cancel-Reaches task_id context_id identity mishaps w n named in_context pops expected
                (running_task_lem n key w registered live))
              live (binding-pop i c w.manager))
