-- ===== src/Execution/Cancel/Stops/Waiting.antt =====
-- What `cancel` of src/opencode_a2a/execution/executor.py leaves of an execution that waits for the lock of
-- its session: `_bind_session` of src/opencode_a2a/execution/coordinator.py writes the context of the session
-- into the executor's table only once it has the lock.
use opencode_a2a_serve.Base.Names.{ℕ, String, true, Option, none, some, ◌≡◌, ◌≢◌, ◌∙◌, sym, arith}
use opencode_a2a_serve.Base.Equality.{string_eq, pair_eq}
use opencode_a2a_serve.Base.Dict.{lookup}
use opencode_a2a_serve.Base.Text.{is_truthy}
use opencode_a2a_serve.Base.Value.{Value}
use opencode_a2a_serve.Sessions.Repository.{SessionRepository, IsDurable}
use opencode_a2a_serve.Sessions.Manager.{Manager, pop_cached_session}
use opencode_a2a_serve.Execution.World.{acquiring, cancelled, World, is_live, cancels}
use opencode_a2a_serve.Execution.Coordinator.{cleanup, step}
use opencode_a2a_serve.Execution.Cancel.{
  Mishaps, Cancelling, or_given, identity_of, cancel, after_cancel,
}
use opencode_a2a_serve.Execution.Cancel.Stops.{
  is_expected, Reaches, cancel-Reaches, running_task_lem, happen-cancels, binding-cleanup,
}

module _ (R : SessionRepository) (coerce_number : Value → Option Value)
    (add : Value → Value → Value) (D : IsDurable R) where
  -- The execution is over, and a binding is what it was in the manager `m`.
  abbrev EndsWith : ℕ → String → String → Manager R → World R → Type 0
  EndsWith n i c m w =
      ((w.execution n).phase ≡ cancelled)
      × (D.binding w.manager.state_repository i c ≡ D.binding m.state_repository i c)

  step-EndsWith :
      (n : ℕ) (i c : String) (w : World R)
      → is_live (w.execution n).phase ≡ true
      → EndsWith n i c w.manager (step R coerce_number add w (cancels n))
  unfolding step
  step-EndsWith n i c w live =
      rw (happen-cancels R coerce_number add n (w.execution n).phase w live)
        (unfold cleanup in ground arith, binding-cleanup R coerce_number add D n w i c)

  after-EndsWith :
      (n : ℕ) (i c : String) (w : World R) (m : Manager R) (done : Cancelling R)
      → Reaches R n m done
      → is_live (w.execution n).phase ≡ true
      → EndsWith n i c m (after_cancel R coerce_number add done (λ v. v) w)
  unfolding after_cancel
  after-EndsWith n i c w m done (task, manager) live =
      rw task (rw (sym manager) (step-EndsWith n i c (record w { manager = done.manager }) live))

  -- Removing the cached session of a context leaves the other contexts alone.
  binding-pop_other :
      (i j c d : String) (m : Manager R)
      → c ≢ d
      → D.binding (pop_cached_session R j d m).1.state_repository i c
        ≡ D.binding m.state_repository i c
  unfolding pop_cached_session
  binding-pop_other i j c d m other =
      D.binding-pop_session i c j d m.state_repository ∙ ground (arith, other)

  -- When `cancel` names the non-empty task and context of a registered execution that waits for
  -- the lock of its session, so that the context of its session is in no table yet, and that
  -- context is not the one of the request, as with a workspace: then, if removing the cached
  -- session does not fail, the abort ends in a way that is expected and nothing else happens until
  -- it is over, the execution is over, but the session that its identity has in the context of its
  -- session is the same as before, on a repository that forgets nothing by itself.
  pub cancelled_waiter_keeps_session :
      (identity : Option String) (mishaps : Mishaps) (w : World R) (n : ℕ)
      → (w.execution n).phase ≡ acquiring
      → is_truthy (w.execution n).prepared.key.0 ≡ true
      → is_truthy (w.execution n).prepared.key.1 ≡ true
      → mishaps.pop ≡ none
      → is_expected mishaps.abort ≡ true
      → lookup (w.execution n).prepared.key w.running.running_requests ≡ some n
      → lookup (w.execution n).prepared.key w.running.running_binding_context_ids ≡ none
      → (w.execution n).prepared.session_binding_context_id ≢ (w.execution n).prepared.key.1
      → let p = (w.execution n).prepared in
        let w' =
          after_cancel R coerce_number add
            (cancel R
              (record { task_id = some p.key.0; context_id = some p.key.1; identity = identity })
              mishaps
              w)
            (λ v. v)
            w in
        ((w'.execution n).phase ≡ cancelled)
        × (D.binding w'.manager.state_repository p.identity p.session_binding_context_id
            ≡ D.binding w.manager.state_repository p.identity p.session_binding_context_id)
  cancelled_waiter_keeps_session identity mishaps w n waits named in_context pops expected
        registered no_context differs =
      let p = (w.execution n).prepared in
      let i = or_given (identity_of identity) (lookup p.key w.running.running_identities) in
      let live : is_live (w.execution n).phase ≡ true = ground (arith, waits) in
      let c = or_given p.key.1 (lookup p.key w.running.running_binding_context_ids) in
      let reaches =
        cancel-Reaches R coerce_number add p.key.0 p.key.1 identity mishaps w n named in_context
          pops expected (running_task_lem R n p.key w registered live) in
      let (over, kept) =
        after-EndsWith n p.identity p.session_binding_context_id w
          (pop_cached_session R i c w.manager).1 _ reaches live in
      (
        over,
        kept
            ∙ binding-pop_other p.identity i p.session_binding_context_id c w.manager
                (ground (arith, no_context, differs)),
      )
