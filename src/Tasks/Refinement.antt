-- ===== src/Tasks/Refinement.antt =====
-- The two ways in which src/opencode_a2a/server/task_store.py saves to a database, also when other
-- connections write in between.
use opencode_a2a_serve.Base.Names.{
  ℕ, String, Bool, true, false, Option, none, some, ◌≡◌, refl, arith, inl, inr, ◌∙◌,
}
use opencode_a2a_serve.Base.Equality.{◌==◌, string_eq, contains, if◌then◌else◌, Bool-cases}
use opencode_a2a_serve.Base.Dict.{Dict}
use opencode_a2a_serve.Tables.{insert_then_update}
use opencode_a2a_serve.Tasks.Sdk.{Sdk, operation_error, Outcome, returned, raised}
use opencode_a2a_serve.Tasks.Policy.{TaskWritePolicy, is_terminal, first_terminal_state_wins}
use opencode_a2a_serve.Tasks.Store.{wrap_failure, wrapping, save_with_read_before_write}
use opencode_a2a_serve.Tasks.Database.{
  TaskTable, Environment, atomic_terminal_guard_dialects, persist_with_atomic_terminal_guard,
  load_task_from_database, judge_skipped, try_atomic, database_task_store, save_database_task,
}
use opencode_a2a_serve.Tasks.Atomic.{
  quiet, RoundTrips, HasStates, view, saved_view, view-insert_then_update, persist-eq-upsert,
  written_is_allowed, skipped_is_terminal, skipped_lem, skipped_copy,
}

module _ (K : Sdk) (T : TaskTable K) where
  kept_view :
      (task e : K.Task) (table : Dict String T.Row) (i : String)
      → load_task_from_database K T (K.id task) table ≡ some e
      → is_terminal K (K.state e) ≡ true
      → view K T table i ≡ (
          if i == K.id task
          then (if (first_terminal_state_wins K (some e) task).persist
              then some (K.model_dump task)
              else view K T table i)
          else view K T table i)
  kept_view task e table i held terminal = ground (arith, skipped_copy K T task e terminal)

  try_atomic-quiet :
      (n : ℕ) (task : K.Task) (table : Dict String T.Row)
      → RoundTrips K T
      → HasStates K T table
      → ((try_atomic K T (first_terminal_state_wins K) n quiet task table).0 ≡ returned tt)
        × ((i : String)
            → view K T (try_atomic K T (first_terminal_state_wins K) n quiet task table).1 i
              ≡ saved_view K T task table i)
  unfolding try_atomic
  try_atomic-quiet n task table trip states =
      elim (Bool-cases (persist_with_atomic_terminal_guard K T task table).0) [
        | inl done ↦ rw done (
          refl,
          λ i. rw (persist-eq-upsert K T task table done) (
              view-insert_then_update K T trip task table i
              ∙ rw (written_is_allowed K T task table states done) refl),
        )
        | inr skipped ↦
            let (e, held, terminal, same) = skipped_is_terminal K T task table states skipped in
            rw (skipped, same, held)
              (skipped_lem K T n task e terminal, λ i. kept_view task e table i held terminal)
      ]

  module _
      (sdk_save : K.Task → K.Context → Dict String T.Row → Outcome (Unit {0}) × Dict String T.Row)
      (sdk_get : String
        → K.Context
        → Dict String T.Row
        → Outcome (Option K.Task) × Dict String T.Row)
      (sdk_delete : String
        → K.Context
        → Dict String T.Row
        → Outcome (Unit {0}) × Dict String T.Row) where
    -- The SDK's store reads and writes the same table, and does not fail.
    pub record IsSdkStore : Type 0 where
      pub trip : RoundTrips K T
      pub get_lem :
          (i : String) (c : K.Context) (table : Dict String T.Row)
          → sdk_get i c table ≡ (returned (load_task_from_database K T i table), table)
      pub save_lem :
          (t : K.Task) (c : K.Context) (table : Dict String T.Row)
          → sdk_save t c table ≡ (returned tt, insert_then_update (K.id t) (T.row_values t) table)

    abbrev pub save_is :
        TaskWritePolicy K
        → ℕ
        → String
        → Environment T.Row
        → K.Task
        → K.Context
        → Dict String T.Row
        → Outcome (Unit {0}) × Bool × Dict String T.Row
    save_is policy n dialect env task c table =
        save_database_task K T sdk_save sdk_get sdk_delete policy n dialect env task c
          (false, table)

    read_before_write_quiet :
        IsSdkStore
        → (task : K.Task) (c : K.Context) (table : Dict String T.Row)
        → let r =
            save_with_read_before_write K
              (wrapping K (database_task_store K T sdk_save sdk_get sdk_delete))
              (first_terminal_state_wins K)
              task
              c
              table in
          (r.0 ≡ returned tt) × ((i : String) → view K T r.1 i ≡ saved_view K T task table i)
    unfolding save_with_read_before_write wrap_failure
    read_before_write_quiet S task c table =
        let persist =
          (first_terminal_state_wins K (load_task_from_database K T (K.id task) table)
            task).persist in
        rw (S.get_lem (K.id task) c table) (elim (Bool-cases persist) [
          | inl writes ↦
              rw (writes, S.save_lem task c table)
                (refl, λ i. view-insert_then_update K T S.trip task table i)
          | inr keeps ↦ rw keeps (refl, λ i. ground arith)
        ])

    -- Where the SDK's store reads and writes the same table and nothing fails or interferes,
    -- saving through the guarded upsert of `sqlite` or `postgresql` and saving by reading before
    -- writing both succeed and leave the same contents under every task id: the new contents if
    -- the policy lets the task through, and the old ones if not.
    pub atomic-eq-read_before_write :
        (n : ℕ) (dialect other : String) (task : K.Task) (c : K.Context) (table : Dict String T.Row)
        → IsSdkStore
        → HasStates K T table
        → contains atomic_terminal_guard_dialects dialect ≡ true
        → contains atomic_terminal_guard_dialects other ≡ false
        → let a = save_is (first_terminal_state_wins K) n dialect quiet task c table in
          let b = save_is (first_terminal_state_wins K) n other quiet task c table in
          (a.0 ≡ returned tt)
          × (b.0 ≡ returned tt)
          × ((i : String)
              → (view K T a.2 i ≡ saved_view K T task table i)
                × (view K T b.2 i ≡ saved_view K T task table i))
    unfolding save_database_task wrap_failure
    atomic-eq-read_before_write n dialect other task c table S states atomic plain =
        let (ra, va) = try_atomic-quiet n task table S.trip states in
        let (rb, vb) = read_before_write_quiet S task c table in
        rw (atomic, plain) (rw ra refl, rb, λ i. (va i, vb i))

  unwritten :
      (task : K.Task) (table : Dict String T.Row)
      → (persist_with_atomic_terminal_guard K T task table).0 ≡ false
      → (persist_with_atomic_terminal_guard K T task table).1 ≡ table
  unfolding persist_with_atomic_terminal_guard
  unwritten task table h = ground arith

  judged_outcome :
      (n : ℕ) (task : K.Task) (existing : Option K.Task)
      → wrap_failure "save"
          (some (K.id task))
          (judge_skipped K T (first_terminal_state_wins K) n task existing)
        ≡ elim existing [
          | none ↦ raised (operation_error "save" (some (K.id task)))
          | some e ↦
              if is_terminal K (K.state e)
              then returned tt
              else raised (operation_error "save" (some (K.id task)))
        ]
  unfolding judge_skipped first_terminal_state_wins wrap_failure
  judged_outcome n task none = refl
  judged_outcome n task (some e) = ground arith

  -- When the guard has refused a write and the call goes on without an exception of the database,
  -- it returns normally exactly if a terminal task is stored by then, whatever other connections
  -- did meanwhile; otherwise it raises a `TaskStoreOperationError` for this save.
  pub skipped_save :
      (n : ℕ) (meanwhile : Dict String T.Row → Dict String T.Row) (task : K.Task)
      (table : Dict String T.Row)
      → (persist_with_atomic_terminal_guard K T task table).0 ≡ false
      → let env : Environment T.Row = record {
        write_error = none;
        read_error = none;
        meanwhile = meanwhile;
      } in
        (wrap_failure "save"
          (some (K.id task))
          (try_atomic K T (first_terminal_state_wins K) n env task table).0)
        ≡ elim (load_task_from_database K T (K.id task) (meanwhile table)) [
          | none ↦ raised (operation_error "save" (some (K.id task)))
          | some e ↦
              if is_terminal K (K.state e)
              then returned tt
              else raised (operation_error "save" (some (K.id task)))
        ]
  unfolding try_atomic
  skipped_save n meanwhile task table skipped =
      rw (skipped, unwritten task table skipped)
        (judged_outcome n task (load_task_from_database K T (K.id task) (meanwhile table)))
