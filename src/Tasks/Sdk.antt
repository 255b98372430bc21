-- ===== src/Tasks/Sdk.antt =====
-- What src/opencode_a2a/server/task_store.py takes from the A2A SDK: the `Task` type with the parts that
-- the code reads, and the stores that it wraps. The SDK's code is not part of the repository.
use opencode_a2a_serve.Base.Names.{ℕ, String, Option}
use opencode_a2a_serve.Base.Equality.{Eq}

pub record Sdk : Type 1 where
  pub Task : Type 0
  pub TaskState : Type 0
  -- what `task.model_dump(mode="json")` gives
  pub Json : Type 0
  -- `ServerCallContext | None`
  pub Context : Type 0
  pub state_eq : Eq TaskState
  pub json_eq : Eq Json
  pub id : Task → String
  pub state : Task → TaskState
  pub model_dump : Task → Json
  pub completed : TaskState
  pub canceled : TaskState
  pub failed : TaskState
  pub rejected : TaskState

-- `TaskStoreOperationError`, or any other exception, by a number.
pub data Failure : Type 0 where
  operation_error : String → Option String → Failure
  other_error : ℕ → Failure

pub data Outcome {ℓ} (A : Type ℓ) : Type ℓ where
  returned : A → Outcome A
  raised : Failure → Outcome A

-- The abstract class `TaskStore`, over the state that an implementation keeps.
pub record TaskStore (K : Sdk) : Type 1 where
  pub State : Type 0
  pub save : K.Task → K.Context → State → Outcome (Unit {0}) × State
  pub get : String → K.Context → State → Outcome (Option K.Task) × State
  pub delete : String → K.Context → State → Outcome (Unit {0}) × State
