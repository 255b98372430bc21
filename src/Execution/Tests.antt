-- ===== src/Execution/Tests.antt =====
-- Two executions of "ann" on the session "s1", as src/opencode_a2a/execution/coordinator.py runs them.
use opencode_a2a_serve.Base.Names.{
  ℕ, zero, suc, String, ap, ◌≢◌, Bool, true, false, Option, none, some, List, [], ◌∷◌, ◌≡◌, refl,
  arith,
}
use opencode_a2a_serve.Base.Int.{pos}
use opencode_a2a_serve.Base.Value.{Value, end}
use opencode_a2a_serve.Sessions.Database.{DatabaseSessions, database_repository}
use opencode_a2a_serve.Sessions.Manager.{Manager}
use opencode_a2a_serve.Stream.Output.{StreamOutputState}
use opencode_a2a_serve.Execution.Replies.{OpencodeMessage, other_error}
use opencode_a2a_serve.Execution.Coordinator.{happen, step, run}
use opencode_a2a_serve.Base.Dict.{lookup}
use opencode_a2a_serve.Base.Equality.{◌==◌, string_eq, nat_eq, pair_eq}
use opencode_a2a_serve.Sessions.Database.Durability.{database_repository-IsDurable}
use opencode_a2a_serve.Execution.Cancel.{Mishaps, timed_out, cancel, after_cancel}
use opencode_a2a_serve.Execution.Cancel.Stops.{IsStopped}
use opencode_a2a_serve.Execution.Cancel.Stops.Waiting.{cancelled_waiter_keeps_session}
use opencode_a2a_serve.Execution.Cancel.Sending.{cancel-IsStopped}
use opencode_a2a_serve.Execution.Coordinator.Registered.{AreRegistered, AllStartFresh}
use opencode_a2a_serve.Execution.World.{
  Phase, idle, acquiring, sending, cancelled, PreparedExecution, Execution, Running, World, Event,
  starts, binds, fetches_lock, acquires, raises, cancels,
}
use opencode_a2a_serve.Execution.Coordinator.Locking.{
  IsExclusive, run-IsExclusive, cancelled_waiter_unlocks,
}

abbrev no_number : Value → Option Value
no_number v = none

abbrev first : Value → Value → Value
first a b = a

abbrev output : StreamOutputState
output = record {
  user_text = "hello";
  stable_message_id = "m";
  event_id_namespace = "e";
  content_buffers = [];
  progress_buffers = [];
  token_usage = none;
  upstream_error = none;
  pending_interrupt_request_ids = [];
  saw_any_chunk = false;
  emitted_stream_chunk = false;
  sequence = 0;
}

abbrev message : OpencodeMessage
message = record { text = "done"; session_id = "s1"; message_id = none; raw = end }

abbrev state : DatabaseSessions
state = record {
  session_bindings = (("ann", "c::workspace:w"), "s1") ∷ [];
  session_owners = ("s1", "ann") ∷ [];
  pending_session_claims = [];
  pending_claim_ttl_seconds = pos 30;
}

abbrev manager : Manager database_repository
manager = record { state_repository = state; inflight_session_creates = []; next_task = 0 }

abbrev prepared : PreparedExecution
prepared = record {
  key = ("t", "c");
  identity = "ann";
  streaming_request = false;
  directory = none;
  workspace_id = none;
  session_binding_context_id = "c";
}

abbrev in_phase : Phase → Bool → Execution
in_phase phase at_hand = record {
  prepared = prepared;
  phase = phase;
  session_id = "s1";
  pending_preferred_claim = false;
  has_session_lock = at_hand;
  events = [];
}

abbrev nothing_runs : Running
nothing_runs = record {
  running_requests = [];
  running_stop_events = [];
  running_identities = [];
  running_session_ids = [];
  running_directories = [];
  running_workspace_ids = [];
  running_binding_context_ids = [];
}

abbrev new_world : World database_repository
new_world = record {
  manager = manager;
  is_locked = λ s. false;
  running = nothing_runs;
  execution = λ n. in_phase idle false;
}

new_world-IsExclusive : IsExclusive database_repository new_world
new_world-IsExclusive = record {
  held = λ n s. ground arith;
  alone = λ n m s s' e. ground arith;
  known = λ n b. refl;
}

abbrev meeting : List (Event database_repository)
meeting =
    starts 1 prepared
    ∷ starts 2 prepared
    ∷ binds 1 "s1" false
    ∷ binds 2 "s1" false
    ∷ fetches_lock 1
    ∷ fetches_lock 2
    ∷ acquires 1
    ∷ acquires 2
    ∷ raises 1 (other_error "gone")
    ∷ acquires 2
    ∷ []

run-IsExclusive_example :
    IsExclusive database_repository (run database_repository no_number first new_world meeting)
run-IsExclusive_example =
    run-IsExclusive database_repository no_number first new_world meeting new_world-IsExclusive
      (tt, (tt, (tt, (tt, (tt, (tt, (tt, (tt, (tt, (tt, tt))))))))))

abbrev phases : ℕ → Execution
phases (suc zero) = in_phase sending true
phases _ = in_phase acquiring true

abbrev busy : World database_repository
busy = record {
  manager = manager;
  is_locked = λ s. true;
  running = nothing_runs;
  execution = phases;
}

cancelled_waiter_unlocks_example :
    let w' = step database_repository no_number first busy (cancels 2) in
    let w'' = step database_repository no_number first w' (acquires 3) in
    (w'.is_locked "s1" ≡ false)
    × ((w''.execution 1).phase ≡ sending)
    × ((w''.execution 3).phase ≡ sending)
    × ((w''.execution 3).session_id ≡ (w''.execution 1).session_id)
cancelled_waiter_unlocks_example =
    cancelled_waiter_unlocks database_repository no_number first busy 1 2 3 refl refl refl
      (omega arith) refl refl refl refl

new_world-AreRegistered : AreRegistered database_repository new_world
new_world-AreRegistered = record {
  requests = λ n h. absurd (ground (arith, h));
  identities = λ n h. absurd (ground (arith, h));
  contexts = λ n h. absurd (ground (arith, h));
}

-- An execution of "ann" in a workspace starts, gets its session and the lock.
abbrev in_workspace : PreparedExecution
in_workspace = record prepared {
  workspace_id = some "w";
  session_binding_context_id = "c::workspace:w";
}

abbrev working : List (Event database_repository)
working = starts 1 in_workspace ∷ binds 1 "s1" false ∷ fetches_lock 1 ∷ acquires 1 ∷ []

working-AllStartFresh : AllStartFresh database_repository no_number first new_world working
working-AllStartFresh = ((λ k h. absurd (ground (arith, h))), (tt, (tt, (tt, tt))))

abbrev calm : Mishaps
calm = record { pop = none; abort = timed_out; inflight = none }

cancel-IsStopped_example :
    IsStopped database_repository no_number first database_repository-IsDurable 1
      ("t", "c")
      "ann"
      "c::workspace:w"
      (after_cancel database_repository no_number first
        (cancel database_repository
          (record { task_id = some "t"; context_id = some "c"; identity = none })
          calm
          (run database_repository no_number first new_world working))
        (λ v. v)
        (run database_repository no_number first new_world working))
unfolding run step happen nat_eq
cancel-IsStopped_example =
    cancel-IsStopped database_repository no_number first database_repository-IsDurable none calm
      new_world working 1 new_world-AreRegistered working-AllStartFresh refl refl refl refl refl

-- The same execution, while another one has the lock
abbrev waiting : World database_repository
waiting = record {
  manager = manager;
  is_locked = λ s. true;
  running = record nothing_runs {
    running_requests = (("t", "c"), 1) ∷ [];
    running_identities = (("t", "c"), "ann") ∷ [];
  };
  execution = λ n. record (in_phase acquiring true) { prepared = in_workspace };
}

another_context : ◌≢◌ {A = String} "c::workspace:w" "c"
unfolding string_eq
another_context same = let q : false ≡ true = ap (λ (s : String). s == "c") same in absurd (cc)

cancelled_waiter_keeps_session_example :
    let w' =
      after_cancel database_repository no_number first
        (cancel database_repository
          (record { task_id = some "t"; context_id = some "c"; identity = some "ann" })
          calm
          waiting)
        (λ v. v)
        waiting in
    ((w'.execution 1).phase ≡ cancelled)
    × (database_repository-IsDurable.binding w'.manager.state_repository "ann" "c::workspace:w"
        ≡ database_repository-IsDurable.binding state "ann" "c::workspace:w")
unfolding lookup string_eq pair_eq
cancelled_waiter_keeps_session_example =
    cancelled_waiter_keeps_session database_repository no_number first database_repository-IsDurable
      (some "ann") calm waiting 1 refl refl refl refl refl refl refl another_context
