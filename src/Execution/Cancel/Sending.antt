-- ===== src/Execution/Cancel/Sending.antt =====
-- What `cancel` of src/opencode_a2a/execution/executor.py leaves of an execution whose message the upstream
-- works on.
use opencode_a2a_serve.Base.Names.{ℕ, String, true, Option, none, some, List, ◌≡◌, refl, subst}
use opencode_a2a_serve.Base.Equality.{string_eq, pair_eq}
use opencode_a2a_serve.Base.Dict.{lookup}
use opencode_a2a_serve.Base.Text.{is_truthy}
use opencode_a2a_serve.Base.Value.{Value}
use opencode_a2a_serve.Sessions.Repository.{SessionRepository, IsDurable}
use opencode_a2a_serve.Execution.World.{PreparedExecution, Execution, World, Event}
use opencode_a2a_serve.Execution.Coordinator.{run}
use opencode_a2a_serve.Execution.Coordinator.Locking.{is_sending}
use opencode_a2a_serve.Execution.Coordinator.Registered.{
  AreRegistered, AllStartFresh, run-AreRegistered, sending_lives,
}
use opencode_a2a_serve.Execution.Cancel.{
  CancelContext, Mishaps, or_given, identity_of, cancel, after_cancel,
}
use opencode_a2a_serve.Execution.Cancel.Stops.{IsStopped, is_expected, lookup-IsStopped}

module _ (R : SessionRepository) (coerce_number : Value → Option Value)
    (add : Value → Value → Value) (D : IsDurable R) where
  -- The call of `cancel` for an execution
  abbrev pub cancel_of : Option String → PreparedExecution → CancelContext
  cancel_of identity p = record {
    task_id = some p.key.0;
    context_id = some p.key.1;
    identity = identity;
  }

  registered-IsStopped :
      (identity : Option String) (mishaps : Mishaps) (w : World R) (n : ℕ)
      → AreRegistered R w
      → is_sending (w.execution n).phase ≡ true
      → is_truthy (w.execution n).prepared.key.0 ≡ true
      → is_truthy (w.execution n).prepared.key.1 ≡ true
      → mishaps.pop ≡ none
      → is_expected mishaps.abort ≡ true
      → let p = (w.execution n).prepared in
        IsStopped R coerce_number add D n p.key p.identity p.session_binding_context_id
          (after_cancel R coerce_number add (cancel R (cancel_of identity p) mishaps w) (λ v. v) w)
  registered-IsStopped identity mishaps w n x sends named in_context pops expected =
      let p = (w.execution n).prepared in
      let lives = sending_lives R (w.execution n).phase sends in
      let w' =
        after_cancel R coerce_number add (cancel R (cancel_of identity p) mishaps w) (λ v. v) w in
      let stopped =
        lookup-IsStopped R coerce_number add D p.key.0 p.key.1 identity mishaps w n named in_context
          pops expected (x.requests n lives) refl lives in
      subst
        (λ i.
          IsStopped R coerce_number add D n p.key (or_given (identity_of identity) i)
            p.session_binding_context_id w')
        (x.identities n lives)
        (subst
          (λ c.
            IsStopped R coerce_number add D n p.key
              (or_given (identity_of identity) (lookup p.key w.running.running_identities))
              (or_given p.key.1 c) w')
          (x.contexts n sends) stopped)

  -- An execution as the events leave it
  abbrev pub reached : World R → List (Event R) → ℕ → Execution
  reached w events n = (run R coerce_number add w events).execution n

  -- From a state in which the tables know every execution that runs, and over any interleaving of
  -- executions in which none starts under the key of another that runs: when `cancel` names the
  -- non-empty task and context of an execution whose message the upstream works on, removing the
  -- cached session does not fail, the abort ends in a way that is expected, and nothing else
  -- happens until it is over, then the execution is over, no table of the executor has its key any
  -- more, and the identity of the execution has no session in the context in which the execution
  -- bound its own, on a repository that forgets nothing by itself.
  pub cancel-IsStopped :
      (identity : Option String) (mishaps : Mishaps) (w : World R) (events : List (Event R)) (n : ℕ)
      → AreRegistered R w
      → AllStartFresh R coerce_number add w events
      → is_sending (reached w events n).phase ≡ true
      → is_truthy (reached w events n).prepared.key.0 ≡ true
      → is_truthy (reached w events n).prepared.key.1 ≡ true
      → mishaps.pop ≡ none
      → is_expected mishaps.abort ≡ true
      → IsStopped R coerce_number add D n
          (reached w events n).prepared.key
          (reached w events n).prepared.identity
          (reached w events n).prepared.session_binding_context_id
          (after_cancel R coerce_number add
            (cancel R
              (cancel_of identity (reached w events n).prepared)
              mishaps
              (run R coerce_number add w events))
            (λ v. v)
            (run R coerce_number add w events))
  cancel-IsStopped identity mishaps w events n x fresh =
      registered-IsStopped identity mishaps (run R coerce_number add w events) n
        (run-AreRegistered R coerce_number add w events x fresh)
