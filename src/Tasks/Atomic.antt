-- ===== src/Tasks/Atomic.antt =====
-- The guarded upsert of src/opencode_a2a/server/task_store.py against the test of the write policy.
use opencode_a2a_serve.Base.Names.{ℕ, String, true, false, Option, none, some, ◌≡◌, arith, inl, inr}
use opencode_a2a_serve.Base.Equality.{◌==◌, string_eq, if◌then◌else◌, Option-cases}
use opencode_a2a_serve.Base.Dict.{Dict, lookup}
use opencode_a2a_serve.Tables.{insert_then_update}
use opencode_a2a_serve.Tables.Laws.{lookup-insert_then_update}
use opencode_a2a_serve.Tasks.Sdk.{Sdk, returned}
use opencode_a2a_serve.Tasks.Policy.{is_terminal, first_terminal_state_wins}
use opencode_a2a_serve.Tasks.Database.{
  TaskTable, Environment, persist_with_atomic_terminal_guard, load_task_from_database,
  judge_skipped,
}

-- Nothing fails, and nobody else writes.
abbrev pub quiet : {Row : Type 0} → Environment Row
quiet = record { write_error = none; read_error = none; meanwhile = λ t. t }

module _ (K : Sdk) (T : TaskTable K) where
  -- A task that is written and read back is the same task.
  abbrev pub RoundTrips : Type 0
  RoundTrips = (t : K.Task) → T.from_orm (K.id t) (T.row_values t) ≡ t

  -- The status column of each row holds the state of the task that is read from the row.
  abbrev pub HasStates : Dict String T.Row → Type 0
  HasStates table =
      (i : String) (row : T.Row)
      → lookup i table ≡ some row
      → T.status_state row ≡ some (K.state (T.from_orm i row))

  -- What the table shows of a task: its contents.
  abbrev pub dump_of : Option K.Task → Option K.Json
  dump_of none = none
  dump_of (some t) = some (K.model_dump t)

  abbrev pub view : Dict String T.Row → String → Option K.Json
  view table i = dump_of (load_task_from_database K T i table)

  -- What a `save` under the policy makes of that view.
  abbrev pub saved_view : K.Task → Dict String T.Row → String → Option K.Json
  saved_view task table i =
      if i == K.id task
      then (if (first_terminal_state_wins K (load_task_from_database K T (K.id task) table)
            task).persist
          then some (K.model_dump task)
          else view table i)
      else view table i

  pub view-insert_then_update :
      RoundTrips
      → (task : K.Task) (table : Dict String T.Row) (i : String)
      → view (insert_then_update (K.id task) (T.row_values task) table) i
        ≡ (if i == K.id task then some (K.model_dump task) else view table i)
  unfolding load_task_from_database
  view-insert_then_update trip task table i =
      ground (arith, lookup-insert_then_update i (K.id task) (T.row_values task) table, trip task)

  -- The guard of the statement is the policy's first test.
  pub persist-eq-upsert :
      (task : K.Task) (table : Dict String T.Row)
      → (persist_with_atomic_terminal_guard K T task table).0 ≡ true
      → (persist_with_atomic_terminal_guard K T task table).1
        ≡ insert_then_update (K.id task) (T.row_values task) table
  unfolding persist_with_atomic_terminal_guard insert_then_update
  persist-eq-upsert task table h = ground arith

  pub written_is_allowed :
      (task : K.Task) (table : Dict String T.Row)
      → HasStates table
      → (persist_with_atomic_terminal_guard K T task table).0 ≡ true
      → (first_terminal_state_wins K (load_task_from_database K T (K.id task) table) task).persist
        ≡ true
  unfolding persist_with_atomic_terminal_guard load_task_from_database first_terminal_state_wins
  written_is_allowed task table states h = elim (Option-cases (lookup (K.id task) table)) [
    | inl absent ↦ ground arith
    | inr (row, present) ↦ ground (arith, states (K.id task) row present)
  ]

  pub skipped_is_terminal :
      (task : K.Task) (table : Dict String T.Row)
      → HasStates table
      → (persist_with_atomic_terminal_guard K T task table).0 ≡ false
      → (e : K.Task) × (load_task_from_database K T (K.id task) table ≡ some e)
        × (is_terminal K (K.state e) ≡ true)
        × ((persist_with_atomic_terminal_guard K T task table).1 ≡ table)
  unfolding persist_with_atomic_terminal_guard load_task_from_database
  skipped_is_terminal task table states h = elim (Option-cases (lookup (K.id task) table)) [
    | inl absent ↦ absurd (ground arith)
    | inr (row, present) ↦
        let st = states (K.id task) row present in
        (T.from_orm (K.id task) row, ground arith, ground arith, ground arith)
  ]

  -- What is decided about a terminal task that stands in the way.
  pub skipped_lem :
      (n : ℕ) (task e : K.Task)
      → is_terminal K (K.state e) ≡ true
      → judge_skipped K T (first_terminal_state_wins K) n task (some e) ≡ returned tt
  unfolding judge_skipped first_terminal_state_wins
  skipped_lem n task e terminal = ground arith

  pub skipped_copy :
      (task e : K.Task)
      → is_terminal K (K.state e) ≡ true
      → (first_terminal_state_wins K (some e) task).persist ≡ true
      → K.model_dump task ≡ K.model_dump e
  unfolding first_terminal_state_wins
  skipped_copy task e terminal p = ground arith
