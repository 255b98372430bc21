-- ===== src/Tasks/Tests.antt =====
-- The task stores of src/opencode_a2a/server/task_store.py over a small table of jobs.
use opencode_a2a_serve.Base.Names.{
  ℕ, String, true, false, Option, none, some, List, [], ◌∷◌, ◌≡◌, refl, arith, ◌⊎◌,
}
use opencode_a2a_serve.Base.Equality.{string_eq, nat_eq, pair_eq, contains}
use opencode_a2a_serve.Base.Dict.{Dict, lookup, erase}
use opencode_a2a_serve.Tables.{insert_then_update}
use opencode_a2a_serve.Tables.Laws.{lookup-insert_then_update}
use opencode_a2a_serve.Tasks.Sdk.{
  Sdk, TaskStore, operation_error, other_error, Outcome, returned, raised,
}
use opencode_a2a_serve.Tasks.Policy.{is_terminal, first_terminal_state_wins}
use opencode_a2a_serve.Tasks.Store.{wrap_failure, guarded}
use opencode_a2a_serve.Tasks.Database.{
  TaskTable, Environment, persist_with_atomic_terminal_guard, load_task_from_database, try_atomic,
  atomic_terminal_guard_dialects,
}
use opencode_a2a_serve.Tasks.Finality.{
  IsLawful, IsOperationError, HoldsCopy, save_all, terminal_task_is_final, guarded_errors,
}
use opencode_a2a_serve.Tasks.Atomic.{quiet, HasStates, view, saved_view}
use opencode_a2a_serve.Tasks.Refinement.{
  IsSdkStore, save_is, atomic-eq-read_before_write, skipped_save,
}

-- A task: its id, its state and its text. The state 3 is a working task.
pub record Job : Type 0 where
  pub id : String
  pub state : ℕ
  pub text : String

abbrev sdk : Sdk
sdk = record {
  Task = Job;
  TaskState = ℕ;
  Json = ℕ × String;
  Context = Unit;
  state_eq = nat_eq;
  json_eq = pair_eq;
  id = λ t. t.id;
  state = λ t. t.state;
  model_dump = λ t. (t.state, t.text);
  completed = 5;
  canceled = 6;
  failed = 7;
  rejected = 8;
}

abbrev table_of : TaskTable sdk
table_of = record {
  Row = ℕ × String;
  row_values = λ (t : Job). (t.state, t.text);
  from_orm = λ (i : String) (row : ℕ × String). record { id = i; state = row.0; text = row.1 };
  status_state = λ (row : ℕ × String). some row.0;
}

abbrev job : ℕ → String → Job
job state text = record { id = "t"; state = state; text = text }

abbrev rows : Dict String (ℕ × String)
rows = ("t", (5, "done")) ∷ []

abbrev save_row :
    Job → Unit {0} → Dict String (ℕ × String) → Outcome (Unit {0}) × Dict String (ℕ × String)
save_row t c table = (returned tt, insert_then_update t.id (t.state, t.text) table)

abbrev get_row :
    String → Unit {0} → Dict String (ℕ × String) → Outcome (Option Job) × Dict String (ℕ × String)
get_row i c table = (returned (load_task_from_database sdk table_of i table), table)

abbrev delete_row :
    String → Unit {0} → Dict String (ℕ × String) → Outcome (Unit {0}) × Dict String (ℕ × String)
delete_row i c table = (returned tt, erase i table)

abbrev store : TaskStore sdk
store = record {
  State = Dict String (ℕ × String);
  save = save_row;
  get = get_row;
  delete = delete_row;
}

saved_row :
    (i : String) (t : Job) (table : Dict String (ℕ × String))
    → (load_task_from_database sdk table_of i (insert_then_update t.id (t.state, t.text) table)
        ≡ load_task_from_database sdk table_of i table)
      ⊎ ((i ≡ t.id)
          × (load_task_from_database sdk table_of i
                (insert_then_update t.id (t.state, t.text) table)
              ≡ some t))
unfolding load_task_from_database
saved_row i t table = ground (arith, lookup-insert_then_update i t.id (t.state, t.text) table)

store-IsLawful : IsLawful sdk store
store-IsLawful = record {
  holds = λ table i. load_task_from_database sdk table_of i table;
  get_lem = λ i c table o h. ground arith;
  holds-get = λ i j c table. refl;
  holds-save = λ i t c table. saved_row i t table;
}

abbrev saves : List (Job × Unit {0})
saves = (job 3 "again", tt) ∷ (job 5 "done", tt) ∷ (job 7 "late", tt) ∷ []

terminal_task_is_final_example :
    HoldsCopy sdk store store-IsLawful
      (job 5 "done")
      "t"
      (save_all sdk (guarded sdk store (first_terminal_state_wins sdk)) saves rows)
unfolding is_terminal store-IsLawful load_task_from_database lookup string_eq nat_eq
terminal_task_is_final_example =
    terminal_task_is_final sdk store store-IsLawful (job 5 "done") "t" saves rows refl refl

-- A store that is down.
abbrev broken : TaskStore sdk
broken = record {
  State = Unit;
  save = λ t c s. (raised (other_error 1), s);
  get = λ i c s. (raised (other_error 2), s);
  delete = λ i c s. (raised (operation_error "delete" none), s);
}

guarded_errors_example :
    IsOperationError ((guarded sdk broken (first_terminal_state_wins sdk)).save (job 3 "x") tt tt).0
    × IsOperationError ((guarded sdk broken (first_terminal_state_wins sdk)).get "t" tt tt).0
    × IsOperationError ((guarded sdk broken (first_terminal_state_wins sdk)).delete "t" tt tt).0
guarded_errors_example =
    guarded_errors sdk broken (first_terminal_state_wins sdk) (job 3 "x") "t" tt tt

sdk_store : IsSdkStore sdk table_of save_row get_row delete_row
sdk_store = record { trip = λ t. refl; get_lem = λ i c table. refl; save_lem = λ t c table. refl }

rows-HasStates : HasStates sdk table_of rows
rows-HasStates i row h = refl

sqlite_is_atomic : contains atomic_terminal_guard_dialects "sqlite" ≡ true
unfolding string_eq
sqlite_is_atomic = refl

mysql_is_not : contains atomic_terminal_guard_dialects "mysql" ≡ false
unfolding string_eq
mysql_is_not = refl

atomic-eq-read_before_write_example :
    let a =
      save_is sdk table_of save_row get_row delete_row
        (first_terminal_state_wins sdk)
        0
        "sqlite"
        quiet
        (job 7 "late")
        tt
        rows in
    let b =
      save_is sdk table_of save_row get_row delete_row
        (first_terminal_state_wins sdk)
        0
        "mysql"
        quiet
        (job 7 "late")
        tt
        rows in
    (a.0 ≡ returned tt)
    × (b.0 ≡ returned tt)
    × ((i : String)
        → (view sdk table_of a.2 i ≡ saved_view sdk table_of (job 7 "late") rows i)
          × (view sdk table_of b.2 i ≡ saved_view sdk table_of (job 7 "late") rows i))
atomic-eq-read_before_write_example =
    atomic-eq-read_before_write sdk table_of save_row get_row delete_row 0 "sqlite" "mysql"
      (job 7 "late") tt rows sdk_store rows-HasStates sqlite_is_atomic mysql_is_not

refused : (persist_with_atomic_terminal_guard sdk table_of (job 3 "again") rows).0 ≡ false
unfolding persist_with_atomic_terminal_guard lookup is_terminal string_eq nat_eq
refused = refl

-- Another connection deletes the row between the write and the read.
skipped_save_example :
    let env : Environment (ℕ × String) = record {
      write_error = none;
      read_error = none;
      meanwhile = λ table. [];
    } in
    wrap_failure "save"
      (some "t")
      (try_atomic sdk table_of (first_terminal_state_wins sdk) 0 env (job 3 "again") rows).0
    ≡ raised (operation_error "save" (some "t"))
unfolding load_task_from_database lookup
skipped_save_example = skipped_save sdk table_of 0 (λ table. []) (job 3 "again") rows refused
