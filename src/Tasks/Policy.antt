-- ===== src/Tasks/Policy.antt =====
-- The write policy of src/opencode_a2a/server/task_store.py, over `TERMINAL_TASK_STATES` of
-- src/opencode_a2a/task_states.py.
use opencode_a2a_serve.Base.Names.{String, Bool, true, false, Option, none, some, List, [], ◌∷◌}
use opencode_a2a_serve.Base.Equality.{◌==◌, contains, if◌then◌else◌}
use opencode_a2a_serve.Tasks.Sdk.{Sdk}

pub record TaskPersistenceDecision : Type 0 where
  pub persist : Bool
  pub reason : Option String

module _ (K : Sdk) where
  abbrev pub state_is : K.TaskState → K.TaskState → Bool
  state_is a b = ◌==◌ ⦃e = K.state_eq⦄ a b

  abbrev pub json_is : K.Json → K.Json → Bool
  json_is a b = ◌==◌ ⦃e = K.json_eq⦄ a b

  -- `TERMINAL_TASK_STATES`
  abbrev pub terminal_task_states : List K.TaskState
  terminal_task_states = K.completed ∷ K.canceled ∷ K.failed ∷ K.rejected ∷ []

  unfoldable pub is_terminal : K.TaskState → Bool
  is_terminal s = contains ⦃e = K.state_eq⦄ terminal_task_states s

  -- `TaskWritePolicy.evaluate`
  abbrev pub TaskWritePolicy : Type 0
  TaskWritePolicy = Option K.Task → K.Task → TaskPersistenceDecision

  abbrev pub accepted : TaskPersistenceDecision
  accepted = record { persist = true; reason = none }

  judge : K.Task → K.Task → TaskPersistenceDecision
  judge existing incoming =
      if is_terminal (K.state existing)
      then (if state_is (K.state incoming) (K.state existing)
          then (if json_is (K.model_dump incoming) (K.model_dump existing)
              then accepted
              else record {
                persist = false;
                reason = some "late_mutation_after_terminal_persistence";
              })
          else record {
            persist = false;
            reason = some "state_overwrite_after_terminal_persistence";
          })
      else accepted

  -- `FirstTerminalStateWinsPolicy.evaluate`
  unfoldable pub first_terminal_state_wins : TaskWritePolicy
  unfolding judge
  first_terminal_state_wins none incoming = accepted
  first_terminal_state_wins (some existing) incoming = judge existing incoming
