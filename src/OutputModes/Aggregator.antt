-- ===== src/OutputModes/Aggregator.antt =====
-- `NegotiatingResultAggregator` of src/opencode_a2a/output_modes.py. The task manager of the SDK is an
-- interface over a state of its own; the events that a consumer gives are a list, and no call fails.
pub mod Interrupted
pub mod Kept
pub mod Laws
pub mod Tests
use opencode_a2a_serve.Base.Names.{
  String, Bool, true, false, not, ◌||◌, Option, none, some, List, [], ◌∷◌,
}
use opencode_a2a_serve.Base.Equality.{◌==◌, string_eq, if◌then◌else◌}
use opencode_a2a_serve.Base.Value.{Value, str, Fields, get, put}
use opencode_a2a_serve.OutputModes.{
  Artifact, Message, Task, Payload, artifact_update, status_update, task, message, other_payload,
  normalize_accepted_output_modes, apply_accepted_output_modes,
}
use opencode_a2a_serve.OutputModes.Metadata.{
  get_of, as_source, merge_output_negotiation_metadata, extract_accepted_output_modes_from_metadata,
  annotate_output_negotiation_metadata,
}

-- `TaskManager` of the SDK. `same_metadata` is `==` on metadata.
pub record TaskManager (S : Type 0) : Type 0 where
  pub ensure_task : Payload → S → Task × S
  pub save_task : Task → S → S
  pub process : Payload → S → S
  pub get_task : S → Option Task
  pub same_metadata : Value → Value → Bool

-- What a consumption returns: its result, `self._message`, whether it was interrupted and what events are
-- then left to a task in the background, and the state of the manager.
pub record Consumption (S : Type 0) : Type 0 where
  pub result : Option Payload
  pub kept_message : Option Message
  pub interrupted : Bool
  pub left : List Payload
  pub state : S

-- The task that `get_task` gives, as a result
abbrev pub task_result : Option Task → Option Payload
task_result none = none
task_result (some t) = some (task t)

-- `status.state == TaskState.auth_required`, on the fields that are copied
unfoldable pub is_auth_state : Fields → Bool
is_auth_state others = elim (get_of "state" (get "status" others)) [
  | str state ↦ state == "auth-required"
  | _ ↦ false
]

-- `is_auth_required`
unfoldable pub is_auth_required : Payload → Bool
unfolding is_auth_state
is_auth_required (task t) = is_auth_state t.task_others
is_auth_required (status_update m others) = is_auth_state others
is_auth_required _ = false

-- `lower` is Python's `str.lower`, `dumps` is `json.dumps`, and `modes` is `_accepted_output_modes`.
module _ {S : Type 0} (lower : String → String) (dumps : Fields → String) (manager : TaskManager S)
    (modes : Option (List String)) where
  -- `_transform_event`
  unfoldable pub transform_event : Payload → Option Payload
  transform_event event = elim (apply_accepted_output_modes lower dumps (as_source modes) event) [
    | none ↦ none
    | some negotiated ↦
        some (annotate_output_negotiation_metadata lower negotiated (as_source modes))
  ]

  -- `_persist_output_negotiation_metadata` on the task of the event
  unfoldable pub save_modes : List String → Task × S → S
  save_modes accepted (t, s) =
      let metadata = get "metadata" t.task_others in
      let merged = merge_output_negotiation_metadata lower metadata (as_source (some accepted)) in
      if manager.same_metadata merged metadata
      then s
      else manager.save_task (record t { task_others = put "metadata" merged t.task_others }) s

  -- `_persist_output_negotiation_metadata`
  unfoldable pub persist_output_negotiation_metadata : Payload → S → S
  unfolding save_modes
  persist_output_negotiation_metadata (artifact_update a others) s =
      elim (extract_accepted_output_modes_from_metadata lower (get "metadata" others)) [
        | none ↦ s
        | some accepted ↦ save_modes accepted (manager.ensure_task (artifact_update a others) s)
      ]
  persist_output_negotiation_metadata _ s = s

  -- What becomes of the state for an event that is let through
  unfoldable pub take_event : Payload → S → S
  take_event event s = manager.process event (persist_output_negotiation_metadata event s)

  emitting : Payload → List Payload × S → List Payload × S
  emitting event (events, s) = (event ∷ events, s)

  -- `consume_and_emit`, with the events that it yields
  unfoldable pub consume_and_emit : List Payload → S → List Payload × S
  unfolding emitting
  consume_and_emit [] s = ([], s)
  consume_and_emit (event ∷ events) s = elim (transform_event event) [
    | none ↦ consume_and_emit events s
    | some transformed ↦ emitting transformed (consume_and_emit events (take_event transformed s))
  ]

  with_task : S → Consumption S
  with_task s = record {
    result = task_result (manager.get_task s);
    kept_message = none;
    interrupted = false;
    left = [];
    state = s;
  }

  with_message : Message → S → Consumption S
  with_message m s = record {
    result = some (message m);
    kept_message = some m;
    interrupted = false;
    left = [];
    state = s;
  }

  -- `consume_all`
  unfoldable pub consume_all : List Payload → S → Consumption S
  unfolding with_task with_message
  consume_all [] s = with_task s
  consume_all (event ∷ events) s = elim (transform_event event) [
    | none ↦ consume_all events s
    | some (message m) ↦ with_message m s
    | some transformed ↦ consume_all events (take_event transformed s)
  ]

  breaking : List Payload → S → Consumption S
  breaking events s = record {
    result = task_result (manager.get_task s);
    kept_message = none;
    interrupted = true;
    left = events;
    state = s;
  }

  -- `consume_and_break_on_interrupt`; what is left goes to `_continue_consuming`.
  unfoldable pub consume_and_break_on_interrupt : Bool → List Payload → S → Consumption S
  unfolding with_task with_message breaking
  consume_and_break_on_interrupt blocking [] s = with_task s
  consume_and_break_on_interrupt blocking (event ∷ events) s = elim (transform_event event) [
    | none ↦ consume_and_break_on_interrupt blocking events s
    | some (message m) ↦ with_message m s
    | some transformed ↦ elim (is_auth_required transformed || not blocking) [
      | true ↦ breaking events (take_event transformed s)
      | false ↦ consume_and_break_on_interrupt blocking events (take_event transformed s)
    ]
  ]

  -- `_continue_consuming`, where `callback` is what `event_callback` does to the state
  unfoldable pub continue_consuming : (S → S) → List Payload → S → S
  continue_consuming callback [] s = s
  continue_consuming callback (event ∷ events) s = elim (transform_event event) [
    | none ↦ continue_consuming callback events s
    | some transformed ↦ continue_consuming callback events (callback (take_event transformed s))
  ]
