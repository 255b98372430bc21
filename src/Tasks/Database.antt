-- ===== src/Tasks/Database.antt =====
-- `PolicyAwareTaskStore` over a `DatabaseTaskStore`, in src/opencode_a2a/server/task_store.py.
use opencode_a2a_serve.Base.Names.{
  ℕ, String, Bool, true, false, ◌&&◌, not, Option, none, some, List, [], ◌∷◌, ◌++◌,
}
use opencode_a2a_serve.Base.Equality.{string_eq, contains, if◌then◌else◌}
use opencode_a2a_serve.Base.Dict.{Dict, lookup}
use opencode_a2a_serve.Tables.{update_row}
use opencode_a2a_serve.Tasks.Sdk.{Sdk, TaskStore, other_error, Outcome, returned, raised}
use opencode_a2a_serve.Tasks.Policy.{TaskWritePolicy, is_terminal, json_is}
use opencode_a2a_serve.Tasks.Store.{wrap_failure, wrapping, save_with_read_before_write}

-- The columns of the SDK's task table, and what is read from a row. `row_values` is
-- `_task_row_values`; `status_state` is `status["state"]`, `none` where that or the column is NULL.
pub record TaskTable (K : Sdk) : Type 1 where
  pub Row : Type 0
  pub row_values : K.Task → Row
  pub from_orm : String → Row → K.Task
  pub status_state : Row → Option K.TaskState

-- `_ATOMIC_TERMINAL_GUARD_DIALECTS`
abbrev pub atomic_terminal_guard_dialects : List String
atomic_terminal_guard_dialects = "postgresql" ∷ "sqlite" ∷ []

-- What the outside does in one call of `save`: an exception of the write or of the read, and what
-- other connections do to the table between the two.
pub record Environment (Row : Type 0) : Type 0 where
  pub write_error : Option ℕ
  pub read_error : Option ℕ
  pub meanwhile : Dict String Row → Dict String Row

module _ (K : Sdk) (T : TaskTable K) where
  -- `persist_guard`
  abbrev pub persist_guard : T.Row → Bool
  persist_guard row = elim (T.status_state row) [ none ↦ true | some s ↦ not (is_terminal K s) ]

  -- The statement of `_build_atomic_task_save_statement`, and whether it returned the id:
  -- INSERT ... ON CONFLICT (id) DO UPDATE ... WHERE persist_guard RETURNING id
  unfoldable pub persist_with_atomic_terminal_guard :
      K.Task → Dict String T.Row → Bool × Dict String T.Row
  persist_with_atomic_terminal_guard task table = elim (lookup (K.id task) table) [
    | none ↦ (true, table ++ (K.id task, T.row_values task) ∷ [])
    | some row ↦
        if persist_guard row
        then (true, update_row (K.id task) (T.row_values task) table)
        else (false, table)
  ]

  -- `_load_task_from_database`
  unfoldable pub load_task_from_database : String → Dict String T.Row → Option K.Task
  load_task_from_database task_id table = elim (lookup task_id table) [
    | none ↦ none
    | some row ↦ some (T.from_orm task_id row)
  ]

  -- The tests of `_save_database_task` on the task that it loads when nothing was written.
  -- The number stands for the `RuntimeError` at the end.
  unfoldable pub judge_skipped : TaskWritePolicy K → ℕ → K.Task → Option K.Task → Outcome (Unit {0})
  judge_skipped write_policy runtime_error task existing =
      if (write_policy existing task).persist
      then elim existing [
        | none ↦ raised (other_error runtime_error)
        | some e ↦
            if is_terminal K (K.state e) && json_is K (K.model_dump e) (K.model_dump task)
            then returned tt
            else raised (other_error runtime_error)
      ]
      else returned tt

  -- The `try` block of `_save_database_task`
  unfoldable pub try_atomic :
      TaskWritePolicy K
      → ℕ
      → Environment T.Row
      → K.Task
      → Dict String T.Row
      → Outcome (Unit {0}) × Dict String T.Row
  try_atomic write_policy runtime_error env task table = elim env.write_error [
    | some n ↦ (raised (other_error n), table)
    | none ↦
        let (done, table') = persist_with_atomic_terminal_guard task table in
        if done
        then (returned tt, table')
        else (let now = env.meanwhile table' in
            elim env.read_error [
              | some n ↦ (raised (other_error n), now)
              | none ↦ (
                judge_skipped write_policy runtime_error task
                    (load_task_from_database (K.id task) now),
                now,
              )
            ])
  ]

  -- The SDK's `DatabaseTaskStore` on this table, by its three operations.
  module _
      (sdk_save : K.Task → K.Context → Dict String T.Row → Outcome (Unit {0}) × Dict String T.Row)
      (sdk_get : String
        → K.Context
        → Dict String T.Row
        → Outcome (Option K.Task) × Dict String T.Row)
      (sdk_delete : String
        → K.Context
        → Dict String T.Row
        → Outcome (Unit {0}) × Dict String T.Row) where
    abbrev pub database_task_store : TaskStore K
    database_task_store = record {
      State = Dict String T.Row;
      save = sdk_save;
      get = sdk_get;
      delete = sdk_delete;
    }

    -- `_save_database_task`: the flag tells that the fallback was logged before
    unfoldable pub save_database_task :
        TaskWritePolicy K
        → ℕ
        → String
        → Environment T.Row
        → K.Task
        → K.Context
        → Bool × Dict String T.Row
        → Outcome (Unit {0}) × Bool × Dict String T.Row
    unfolding try_atomic
    save_database_task write_policy runtime_error dialect_name env task context (logged, table) =
        if contains atomic_terminal_guard_dialects dialect_name
        then (let (r, table') = try_atomic write_policy runtime_error env task table in
            (wrap_failure "save" (some (K.id task)) r, logged, table'))
        else (let (r, table') =
              save_with_read_before_write K (wrapping K database_task_store) write_policy task
                context table in
            (r, true, table'))
