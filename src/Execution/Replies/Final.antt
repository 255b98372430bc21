-- ===== src/Execution/Replies/Final.antt =====
-- Each execution that ends by itself in src/opencode_a2a/execution/coordinator.py closes its task once.
use opencode_a2a_serve.Base.Names.{
  String, Bool, true, false, Option, List, [], ◌∷◌, ◌≡◌, ◌⊎◌, inl, inr, refl,
}
use opencode_a2a_serve.Base.Value.{Value}
use opencode_a2a_serve.Stream.Errors.{TaskState, Status}
use opencode_a2a_serve.Execution.Replies.{
  QueueEvent, working_status, last_artifact, final_status, task_snapshot, emit_error,
  ExecutionFailure, http_status, timeout, contract_error, concurrency_limit, other_error,
  exception_events,
}

-- An event that closes the task for those who listen
abbrev pub is_closing : QueueEvent → Bool
is_closing working_status = false
is_closing (last_artifact _ _ _ _) = false
is_closing (final_status _ _) = true
is_closing (task_snapshot _ _ _) = true

-- The last event closes the task, and no other does.
abbrev pub ClosesOnce : List QueueEvent → Type 0
ClosesOnce [] = false ≡ true
ClosesOnce (e ∷ []) = is_closing e ≡ true
ClosesOnce (e ∷ f ∷ rest) = (is_closing e ≡ false) × ClosesOnce (f ∷ rest)

emit_error-ClosesOnce :
    (message : String) (state : TaskState) (error_type : Option String) (status : Option Status)
    (streaming : Bool)
    → ClosesOnce (emit_error message state error_type status streaming)
unfolding emit_error
emit_error-ClosesOnce message state error_type status true = (refl, refl)
emit_error-ClosesOnce message state error_type status false = refl

pub exception_events-ClosesOnce :
    (failure : ExecutionFailure) (streaming : Bool)
    → ClosesOnce (exception_events failure streaming)
unfolding exception_events
exception_events-ClosesOnce (http_status status detail) streaming =
    emit_error-ClosesOnce _ _ _ _ streaming
exception_events-ClosesOnce (timeout message) streaming = emit_error-ClosesOnce _ _ _ _ streaming
exception_events-ClosesOnce (contract_error message) streaming =
    emit_error-ClosesOnce _ _ _ _ streaming
exception_events-ClosesOnce (concurrency_limit message) streaming =
    emit_error-ClosesOnce _ _ _ _ streaming
exception_events-ClosesOnce (other_error message) streaming =
    emit_error-ClosesOnce _ _ _ _ streaming

-- The events of a reply, or of the exception in its place
abbrev pub reply_events : ExecutionFailure ⊎ List QueueEvent → Bool → List QueueEvent
reply_events (inl failure) streaming = exception_events failure streaming
reply_events (inr events) streaming = events
