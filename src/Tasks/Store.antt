-- ===== src/Tasks/Store.antt =====
-- The store decorators of src/opencode_a2a/server/task_store.py over any inner store.
use opencode_a2a_serve.Base.Names.{String, Option, some}
use opencode_a2a_serve.Base.Equality.{if◌then◌else◌}
use opencode_a2a_serve.Tasks.Sdk.{
  Sdk, TaskStore, operation_error, other_error, Outcome, returned, raised,
}
use opencode_a2a_serve.Tasks.Policy.{TaskWritePolicy}

-- `except TaskStoreOperationError: raise`, `except Exception: raise TaskStoreOperationError(...)`
unfoldable pub wrap_failure {ℓ} : {A : Type ℓ} → String → Option String → Outcome A → Outcome A
wrap_failure operation task_id (returned a) = returned a
wrap_failure operation task_id (raised (operation_error o t)) = raised (operation_error o t)
wrap_failure operation task_id (raised (other_error n)) = raised (operation_error operation task_id)

module _ (K : Sdk) where
  -- `TaskStoreOperationWrappingDecorator`
  abbrev pub wrapping : TaskStore K → TaskStore K
  wrapping inner = record {
    State = inner.State;
    save = λ task context s.
        let (r, s') = inner.save task context s in (wrap_failure "save" (some (K.id task)) r, s');
    get = λ task_id context s.
        let (r, s') = inner.get task_id context s in (wrap_failure "get" (some task_id) r, s');
    delete = λ task_id context s.
        let (r, s') = inner.delete task_id context s in
        (wrap_failure "delete" (some task_id) r, s');
  }

  module _ (inner : TaskStore K) (write_policy : TaskWritePolicy K) where
    unfoldable pub after_read :
        K.Task
        → K.Context
        → Outcome (Option K.Task) × inner.State
        → Outcome (Unit {0}) × inner.State
    after_read task context (raised failure, s) = (raised failure, s)
    after_read task context (returned existing, s) =
        if (write_policy existing task).persist then inner.save task context s else (returned tt, s)

    -- `PolicyAwareTaskStore._save_with_read_before_write`, which runs under `self._save_lock`
    unfoldable pub save_with_read_before_write :
        K.Task → K.Context → inner.State → Outcome (Unit {0}) × inner.State
    unfolding after_read
    save_with_read_before_write task context s =
        after_read task context (inner.get (K.id task) context s)

    -- `PolicyAwareTaskStore` over a store that is no `DatabaseTaskStore`
    abbrev pub policy_aware : TaskStore K
    policy_aware = record {
      State = inner.State;
      save = save_with_read_before_write;
      get = inner.get;
      delete = inner.delete;
    }

  -- `GuardedTaskStore` over a store that is no `DatabaseTaskStore`
  abbrev pub guarded : TaskStore K → TaskWritePolicy K → TaskStore K
  guarded inner write_policy = policy_aware (wrapping inner) write_policy
