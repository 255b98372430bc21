-- ===== src/Sessions/Manager.antt =====
-- `SessionManager` of src/opencode_a2a/execution/session_manager.py over any repository. What it does
-- under `self._lock` is one critical section, a function from state to state. `now` gives the clock
-- readings of a section in their order. A call is a sequence of sections, with awaits between them.
pub mod Sections
pub mod Invariant
pub mod Soundness
pub mod Ownership
pub mod Returned
pub mod Held
pub mod Tests
use opencode_a2a_serve.Base.Names.{
  ℕ, suc, ◌+◌, String, Bool, true, false, not, ◌&&◌, Option, none, some, List, [], ◌∷◌,
}
use opencode_a2a_serve.Base.Equality.{◌==◌, string_eq, nat_eq, option_eq, pair_eq, if◌then◌else◌}
use opencode_a2a_serve.Base.Text.{is_given, is_truthy}
use opencode_a2a_serve.Base.Dict.{Dict, lookup, insert, erase}
use opencode_a2a_serve.Sessions.Repository.{SessionRepository}

pub record Manager (R : SessionRepository) : Type 0 where
  pub state_repository : R.State
  -- the tasks that create a session, by `(identity, context_id)`; a task is a number
  pub inflight_session_creates : Dict (String × String) ℕ
  pub next_task : ℕ

-- `denied` is `PermissionError(f"Session {session_id} is not owned by you")`.
pub data Claim : Type 0 where
  claimed : Bool → Claim
  denied : String → Claim

-- `owner and owner != identity`
abbrev pub is_foreign : Option String → String → Bool
is_foreign owner identity = is_given owner && not (owner == some identity)

-- What the first section of a creating call leads to.
pub data Begun : Type 0 where
  existing : String → Begun
  waits : ℕ → Begun

module _ (R : SessionRepository) where
  -- `claim_preferred_session`
  unfoldable pub claim_preferred_session : String → String → (ℕ → ℕ) → Manager R → Claim × Manager R
  claim_preferred_session identity session_id now m =
      let (owner, st) = R.get_owner session_id (now 0) m.state_repository in
      let (pending_owner, st') = R.get_pending_claim session_id (now 1) st in
      let read : Manager R = record m { state_repository = st' } in
      if is_foreign owner identity
      then (denied session_id, read)
      else if is_foreign pending_owner identity
      then (denied session_id, read)
      else if owner == some identity
      then (claimed false, read)
      else (
        claimed true,
        record m { state_repository = R.set_pending_claim session_id identity (now 2) st' },
      )

  -- `finalize_session_claim`
  unfoldable pub finalize_session_claim : String → String → (ℕ → ℕ) → Manager R → Claim × Manager R
  finalize_session_claim identity session_id now m =
      let (owner, st) = R.get_owner session_id (now 0) m.state_repository in
      let (pending_owner, st') = R.get_pending_claim session_id (now 1) st in
      let read : Manager R = record m { state_repository = st' } in
      if is_foreign owner identity
      then (denied session_id, read)
      else if is_foreign pending_owner identity
      then (denied session_id, read)
      else (
        claimed true,
        record m {
          state_repository =
              R.clear_pending_claim session_id (some identity)
                (R.set_owner session_id identity (now 2) st');
        },
      )

  -- `release_preferred_session_claim`
  unfoldable pub release_preferred_session_claim : String → String → Manager R → Manager R
  release_preferred_session_claim identity session_id m = record m {
    state_repository = R.clear_pending_claim session_id (some identity) m.state_repository;
  }

  -- The section that binds a preferred session, in `get_or_create_session` and in
  -- `finalize_preferred_session_binding`.
  unfoldable pub bind_session : String → String → String → (ℕ → ℕ) → Manager R → Manager R
  bind_session identity context_id session_id now m = record m {
    state_repository = R.set_session identity context_id session_id (now 0) m.state_repository;
  }

  join_or_start : String → String → Manager R → Begun × Manager R
  join_or_start identity context_id m =
      elim (lookup (identity, context_id) m.inflight_session_creates) [
        | some task ↦ (waits task, m)
        | none ↦ (
          waits m.next_task,
          record m {
            inflight_session_creates =
                insert (identity, context_id) m.next_task m.inflight_session_creates;
            next_task = m.next_task + 1;
          },
        )
      ]

  -- The section of `get_or_create_session` that looks for a session or a task, or makes a task.
  unfoldable pub begin_create : String → String → (ℕ → ℕ) → Manager R → Begun × Manager R
  unfolding join_or_start
  begin_create identity context_id now m =
      let (found, st) = R.get_session identity context_id (now 0) m.state_repository in
      let read : Manager R = record m { state_repository = st } in
      elim found [
        | some session_id ↦
            if is_truthy session_id
            then (existing session_id, read)
            else join_or_start identity context_id read
        | none ↦ join_or_start identity context_id read
      ]

  -- `if self._inflight_session_creates.get(cache_key) is task: pop`
  unfoldable pub forget_task : String → String → ℕ → Manager R → Manager R
  forget_task identity context_id task m =
      if lookup (identity, context_id) m.inflight_session_creates == some task
      then record m {
        inflight_session_creates = erase (identity, context_id) m.inflight_session_creates;
      }
      else m

  -- The last section of `get_or_create_session`, after the task gave `session_id`.
  unfoldable pub end_create : String → String → ℕ → String → (ℕ → ℕ) → Manager R → Claim × Manager R
  unfolding forget_task
  end_create identity context_id task session_id now m =
      let (owner, st) = R.get_owner session_id (now 0) m.state_repository in
      if is_foreign owner identity
      then (
        denied session_id,
        forget_task identity context_id task (record m { state_repository = st }),
      )
      else let st' = R.set_session identity context_id session_id (now 1) st in
        let st'' = if is_given owner then st' else R.set_owner session_id identity (now 2) st' in
        (claimed false, forget_task identity context_id task (record m { state_repository = st'' }))

  -- `pop_cached_session`
  unfoldable pub pop_cached_session : String → String → Manager R → Option ℕ × Manager R
  pop_cached_session identity context_id m = (
    lookup (identity, context_id) m.inflight_session_creates,
    record m {
      state_repository = R.pop_session identity context_id m.state_repository;
      inflight_session_creates = erase (identity, context_id) m.inflight_session_creates;
    },
  )

-- Where a call of the manager stands between its critical sections.
pub data Call : Type 0 where
  idle : Call
  -- `get_or_create_session(identity, context_id, preferred_session_id)`, not begun
  entered : String → String → Option String → Call
  -- the preferred session is the caller's, and is bound next
  owned : String → String → String → Call
  -- waiting for the task that creates the session
  awaiting : String → String → ℕ → Call
  -- `finalize_preferred_session_binding(identity, context_id, session_id)`, not begun
  finalizing : String → String → String → Call
  -- `finalize_session_claim` has returned, and the session is bound next
  finalized : String → String → String → Call
  -- the session and `pending_claim` that the call returned
  returned : String → Bool → Call
  -- `finalize_preferred_session_binding` returned
  finished : Call
  -- `PermissionError`, and an exception of the task that creates the session
  forbidden failed : Call

-- What the outside gives to a section: clock readings, and the outcome of the awaited task, `none`
-- for an exception.
pub record Input : Type 0 where
  pub now : ℕ → ℕ
  pub outcome : Option String

module _ (R : SessionRepository) where
  after_claim : String → String → String → Claim × Manager R → Call × Manager R
  after_claim identity context_id session_id (claimed true, m) = (returned session_id true, m)
  after_claim identity context_id session_id (claimed false, m) =
      (owned identity context_id session_id, m)
  after_claim identity context_id session_id (denied s, m) = (forbidden, m)

  after_begin : String → String → Begun × Manager R → Call × Manager R
  after_begin identity context_id (existing session_id, m) = (returned session_id false, m)
  after_begin identity context_id (waits task, m) = (awaiting identity context_id task, m)

  after_end : String → Claim × Manager R → Call × Manager R
  after_end session_id (claimed _, m) = (returned session_id false, m)
  after_end session_id (denied s, m) = (forbidden, m)

  after_finalize : String → String → String → Claim × Manager R → Call × Manager R
  after_finalize identity context_id session_id (claimed _, m) =
      (finalized identity context_id session_id, m)
  after_finalize identity context_id session_id (denied s, m) = (forbidden, m)

  create : String → String → Input → Manager R → Call × Manager R
  create identity context_id input m =
      after_begin identity context_id (begin_create R identity context_id input.now m)

  -- The next critical section of a call.
  unfoldable pub advance : Call → Input → Manager R → Call × Manager R
  unfolding after_claim after_begin after_end after_finalize create
  advance (entered identity context_id none) input m = create identity context_id input m
  advance (entered identity context_id (some preferred)) input m =
      if is_truthy preferred
      then after_claim identity context_id preferred
          (claim_preferred_session R identity preferred input.now m)
      else create identity context_id input m
  advance (owned identity context_id session_id) input m =
      (returned session_id false, bind_session R identity context_id session_id input.now m)
  advance (awaiting identity context_id task) input m = elim input.outcome [
    | none ↦ (failed, forget_task R identity context_id task m)
    | some session_id ↦
        after_end session_id (end_create R identity context_id task session_id input.now m)
  ]
  advance (finalizing identity context_id session_id) input m =
      after_finalize identity context_id session_id
        (finalize_session_claim R identity session_id input.now m)
  advance (finalized identity context_id session_id) input m =
      (finished, bind_session R identity context_id session_id input.now m)
  advance call input m = (call, m)

-- All the calls in flight, by number, and the manager that they share.
pub record System (R : SessionRepository) : Type 0 where
  pub manager : Manager R
  pub call : ℕ → Call

-- What the event loop may do next. The two events that are no calls of their own in the table are
-- the single-section methods `release_preferred_session_claim` and `pop_cached_session`.
pub data Event : Type 0 where
  get_or_create : ℕ → String → String → Option String → Event
  finalize : ℕ → String → String → String → Event
  run_section : ℕ → Input → Event
  release : String → String → Event
  pop_cached : String → String → Event

module _ (R : SessionRepository) where
  abbrev pub with_call : ℕ → Call → System R → System R
  with_call n call s = record s { call = λ k. if k == n then call else s.call k }

  unfoldable pub step : System R → Event → System R
  step s (get_or_create n identity context_id preferred) =
      with_call n (entered identity context_id preferred) s
  step s (finalize n identity context_id session_id) =
      with_call n (finalizing identity context_id session_id) s
  step s (run_section n input) =
      let (call, m) = advance R (s.call n) input s.manager in
      with_call n call (record s { manager = m })
  step s (release identity session_id) = record s {
    manager = release_preferred_session_claim R identity session_id s.manager;
  }
  step s (pop_cached identity context_id) = record s {
    manager = (pop_cached_session R identity context_id s.manager).1;
  }

  -- Any interleaving of calls is a list of events.
  unfoldable pub run : System R → List Event → System R
  unfolding step
  run s [] = s
  run s (event ∷ events) = run (step s event) events
