-- ===== src/Sessions/Manager/Held.antt =====
-- A pending claim stays while other calls of src/opencode_a2a/execution/session_manager.py run, until its
-- time to live is over or its own caller settles it.
use opencode_a2a_serve.Base.Names.{
  ℕ, ◌≤◌, ◌<◌, String, true, false, ◌&&◌, Option, none, some, List, [], ◌∷◌, ◌≡◌, ◌≢◌, ◌⊎◌, inl,
  inr, sym, subst, arith,
}
use opencode_a2a_serve.Base.Equality.{◌==◌, string_eq, option_eq, nat_eq, pair_eq, Bool-cases}
use opencode_a2a_serve.Base.Text.{is_given, is_truthy}
use opencode_a2a_serve.Base.Dict.{lookup}
use opencode_a2a_serve.Sessions.Repository.{SessionRepository}
use opencode_a2a_serve.Sessions.Claims.Contract.{HasClaims}
use opencode_a2a_serve.Sessions.Claims.Held.{
  IsHeld, reads_claimant, get_owner-IsHeld, set_owner-IsHeld, get_session-IsHeld,
  set_session-IsHeld, pop_session-IsHeld, clear_pending_claim-IsHeld, set_pending_claim-IsHeld,
  read_claim-IsHeld,
}
use opencode_a2a_serve.Sessions.Manager.{
  Manager, Claim, claimed, denied, is_foreign, Begun, existing, waits, Call, idle, entered, owned,
  awaiting, finalizing, finalized, returned, finished, forbidden, failed, Input, System, Event,
  get_or_create, finalize, run_section, release, pop_cached, claim_preferred_session,
  finalize_session_claim, release_preferred_session_claim, bind_session, begin_create, forget_task,
  end_create, pop_cached_session, after_claim, after_begin, after_end, after_finalize, create,
  advance, with_call, step, run,
}
use opencode_a2a_serve.Sessions.Manager.Invariant.{is_truthy_of_ne}

-- Clock readings from the claim on, and before its end
abbrev pub IsTimely : ℕ → ℕ → (ℕ → ℕ) → Type 0
IsTimely start deadline now = (k : ℕ) → (start ≤ now k) × (now k < deadline)

-- An event that does not settle the claim of `i` on `s`, at such readings
abbrev pub Spares : String → String → ℕ → ℕ → Event → Type 0
Spares i s start deadline (get_or_create n j c p) = Unit
Spares i s start deadline (finalize n j c v) = (j == i && v == s) ≡ false
Spares i s start deadline (run_section n input) = IsTimely start deadline input.now
Spares i s start deadline (release j v) = (j == i && v == s) ≡ false
Spares i s start deadline (pop_cached j c) = Unit

abbrev pub AllSpare : String → String → ℕ → ℕ → List Event → Type 0
AllSpare i s start deadline [] = Unit
AllSpare i s start deadline (event ∷ events) =
    Spares i s start deadline event × AllSpare i s start deadline events

-- A call that is not about to settle the claim
abbrev pub CallSpares : String → String → Call → Type 0
CallSpares i s (finalizing j c v) = (j == i && v == s) ≡ false
CallSpares i s _ = Unit

module _ (R : SessionRepository) (IsValid : R.State → Type 0) (ttl : R.State → ℕ)
    (claim : R.State → String → Option (String × ℕ)) (C : HasClaims R IsValid ttl claim)
    (i s : String) (named : i ≢ "") (start deadline : ℕ) where
  abbrev pub Holds : Manager R → Type 0
  Holds m = IsHeld R IsValid ttl claim C i s start deadline m.state_repository

  -- What a caller reads of a session before it claims or finalizes
  abbrev reading : String → (ℕ → ℕ) → Manager R → Option String × R.State
  reading v now m = R.get_pending_claim v (now 1) (R.get_owner v (now 0) m.state_repository).1

  reading-IsHeld :
      (v : String) (now : ℕ → ℕ) (m : Manager R)
      → IsTimely start deadline now
      → Holds m
      → IsHeld R IsValid ttl claim C i s start deadline (reading v now m).1
  reading-IsHeld v now m timely h =
      read_claim-IsHeld R IsValid ttl claim C i s start deadline v now m.state_repository
        (timely 1).1 h

  -- A caller gets past the claim on another session, or is the one who made it.
  may_claim :
      (j v : String) (now : ℕ → ℕ) (m : Manager R)
      → IsTimely start deadline now
      → Holds m
      → is_foreign (reading v now m).0 j ≡ false
      → ((s == v) ≡ false) ⊎ (j ≡ i)
  may_claim j v now m timely h free = elim (Bool-cases (s == v)) [
    | inr other ↦ inl other
    | inl here ↦
        let reads =
          reads_claimant R IsValid ttl claim C i s start deadline now m.state_repository
            (timely 1).1 h in
        inr (ground (arith, here, reads, free, is_truthy_of_ne i named))
  ]

  section_claim :
      (j v : String) (now : ℕ → ℕ) (m : Manager R)
      → IsTimely start deadline now
      → Holds m
      → Holds (claim_preferred_session R j v now m).1
  unfolding claim_preferred_session
  section_claim j v now m timely h =
      let owner = (R.get_owner v (now 0) m.state_repository).0 in
      let read = reading-IsHeld v now m timely h in
      elim (Bool-cases (is_foreign owner j)) [
        | inl foreign ↦ rw foreign read
        | inr free ↦ rw free (elim (Bool-cases (is_foreign (reading v now m).0 j)) [
          | inl pending ↦ rw pending read
          | inr open_ ↦ rw open_ (elim (Bool-cases (owner == some j)) [
            | inl own ↦ rw own read
            | inr new ↦ rw new (
                set_pending_claim-IsHeld R IsValid ttl claim C i s start deadline v j (now 2)
                  (reading v now m).1 (timely 2).0 (timely 2).1 (may_claim j v now m timely h open_)
                  read)
          ])
        ])
      ]

  section_finalize :
      (j v : String) (now : ℕ → ℕ) (m : Manager R)
      → IsTimely start deadline now
      → (j == i && v == s) ≡ false
      → Holds m
      → Holds (finalize_session_claim R j v now m).1
  unfolding finalize_session_claim
  section_finalize j v now m timely other h =
      let read = reading-IsHeld v now m timely h in
      elim (Bool-cases (is_foreign (R.get_owner v (now 0) m.state_repository).0 j)) [
        | inl foreign ↦ rw foreign read
        | inr free ↦ rw free (elim (Bool-cases (is_foreign (reading v now m).0 j)) [
          | inl pending ↦ rw pending read
          | inr open_ ↦ rw open_ (
              clear_pending_claim-IsHeld R IsValid ttl claim C i s start deadline v j
                (R.set_owner v j (now 2) (reading v now m).1) other
                (set_owner-IsHeld R IsValid ttl claim C i s start deadline v j (now 2)
                  (reading v now m).1 read))
        ])
      ]

  begin_reads :
      (j c : String) (now : ℕ → ℕ) (m : Manager R)
      → (begin_create R j c now m).1.state_repository
        ≡ (R.get_session j c (now 0) m.state_repository).1
  unfolding begin_create
  begin_reads j c now m = ground arith

  -- Forgetting a task does not touch the repository.
  forgets : (j c : String) (task : ℕ) (m : Manager R) → Holds m → Holds (forget_task R j c task m)
  unfolding forget_task
  forgets j c task m h = elim (Bool-cases (lookup (j, c) m.inflight_session_creates == some task)) [
    | inl present ↦ rw present h
    | inr absent ↦ rw absent h
  ]

  section_begin :
      (j c : String) (now : ℕ → ℕ) (m : Manager R) → Holds m → Holds (begin_create R j c now m).1
  section_begin j c now m h =
      subst (λ st. IsHeld R IsValid ttl claim C i s start deadline st) (sym (begin_reads j c now m))
        (get_session-IsHeld R IsValid ttl claim C i s start deadline j c (now 0) m.state_repository
          h)

  section_end :
      (j c v : String) (task : ℕ) (now : ℕ → ℕ) (m : Manager R)
      → Holds m
      → Holds (end_create R j c task v now m).1
  unfolding end_create
  section_end j c v task now m h =
      let o = R.get_owner v (now 0) m.state_repository in
      let owns =
        get_owner-IsHeld R IsValid ttl claim C i s start deadline v (now 0) m.state_repository h in
      let sets =
        set_session-IsHeld R IsValid ttl claim C i s start deadline j c v (now 1) o.1 owns in
      elim (Bool-cases (is_foreign o.0 j)) [
        | inl foreign ↦ rw foreign (forgets j c task _ owns)
        | inr free ↦ rw free (elim (Bool-cases (is_given o.0)) [
          | inl given ↦ rw given (forgets j c task _ sets)
          | inr unowned ↦ rw unowned (
              forgets j c task _ (
                set_owner-IsHeld R IsValid ttl claim C i s start deadline v j (now 2)
                  (R.set_session j c v (now 1) o.1) sets))
        ])
      ]

  section_bind :
      (j c v : String) (now : ℕ → ℕ) (m : Manager R) → Holds m → Holds (bind_session R j c v now m)
  unfolding bind_session
  section_bind j c v now m h =
      set_session-IsHeld R IsValid ttl claim C i s start deadline j c v (now 0) m.state_repository h

  section_release :
      (j v : String) (m : Manager R)
      → (j == i && v == s) ≡ false
      → Holds m
      → Holds (release_preferred_session_claim R j v m)
  unfolding release_preferred_session_claim
  section_release j v m other h =
      clear_pending_claim-IsHeld R IsValid ttl claim C i s start deadline v j m.state_repository
        other h

  section_pop : (j c : String) (m : Manager R) → Holds m → Holds (pop_cached_session R j c m).1
  unfolding pop_cached_session
  section_pop j c m h =
      pop_session-IsHeld R IsValid ttl claim C i s start deadline j c m.state_repository h

  -- A section leaves the claim, and a call that spares it.
  abbrev Keeps : Call × Manager R → Type 0
  Keeps r = CallSpares i s r.0 × Holds r.1

  after_claim-Keeps :
      (j c v : String) (r : Claim × Manager R) → Holds r.1 → Keeps (after_claim R j c v r)
  unfolding after_claim
  after_claim-Keeps j c v (claimed true, m) h = (tt, h)
  after_claim-Keeps j c v (claimed false, m) h = (tt, h)
  after_claim-Keeps j c v (denied d, m) h = (tt, h)

  after_begin-Keeps :
      (j c : String) (r : Begun × Manager R) → Holds r.1 → Keeps (after_begin R j c r)
  unfolding after_begin
  after_begin-Keeps j c (existing v, m) h = (tt, h)
  after_begin-Keeps j c (waits task, m) h = (tt, h)

  after_end-Keeps : (v : String) (r : Claim × Manager R) → Holds r.1 → Keeps (after_end R v r)
  unfolding after_end
  after_end-Keeps v (claimed b, m) h = (tt, h)
  after_end-Keeps v (denied d, m) h = (tt, h)

  after_finalize-Keeps :
      (j c v : String) (r : Claim × Manager R) → Holds r.1 → Keeps (after_finalize R j c v r)
  unfolding after_finalize
  after_finalize-Keeps j c v (claimed b, m) h = (tt, h)
  after_finalize-Keeps j c v (denied d, m) h = (tt, h)

  create-Keeps :
      (j c : String) (input : Input) (m : Manager R) → Holds m → Keeps (create R j c input m)
  unfolding create
  create-Keeps j c input m h =
      after_begin-Keeps j c (begin_create R j c input.now m) (section_begin j c input.now m h)

  awaiting-Keeps :
      (j c : String) (task : ℕ) (now : ℕ → ℕ) (outcome : Option String) (m : Manager R)
      → Holds m
      → Keeps (advance R (awaiting j c task) (record { now = now; outcome = outcome }) m)
  unfolding advance
  awaiting-Keeps j c task now none m h = (tt, forgets j c task m h)
  awaiting-Keeps j c task now (some v) m h =
      after_end-Keeps v (end_create R j c task v now m) (section_end j c v task now m h)

  advance-Keeps :
      (call : Call) (input : Input) (m : Manager R)
      → IsTimely start deadline input.now
      → CallSpares i s call
      → Holds m
      → Keeps (advance R call input m)
  unfolding advance
  advance-Keeps (entered j c none) input m timely spares h = create-Keeps j c input m h
  advance-Keeps (entered j c (some p)) input m timely spares h = elim (Bool-cases (is_truthy p)) [
    | inl given ↦ rw given (
        after_claim-Keeps j c p (claim_preferred_session R j p input.now m)
          (section_claim j p input.now m timely h))
    | inr blank ↦ rw blank (create-Keeps j c input m h)
  ]
  advance-Keeps (owned j c v) input m timely spares h = (tt, section_bind j c v input.now m h)
  advance-Keeps (awaiting j c task) input m timely spares h =
      awaiting-Keeps j c task input.now input.outcome m h
  advance-Keeps (finalizing j c v) input m timely spares h =
      after_finalize-Keeps j c v (finalize_session_claim R j v input.now m)
        (section_finalize j v input.now m timely spares h)
  advance-Keeps (finalized j c v) input m timely spares h = (tt, section_bind j c v input.now m h)
  advance-Keeps idle input m timely spares h = (tt, h)
  advance-Keeps (returned v b) input m timely spares h = (tt, h)
  advance-Keeps finished input m timely spares h = (tt, h)
  advance-Keeps forbidden input m timely spares h = (tt, h)
  advance-Keeps failed input m timely spares h = (tt, h)

  -- All calls spare the claim, and it is held.
  abbrev pub IsSpared : System R → Type 0
  IsSpared w = Holds w.manager × ((n : ℕ) → CallSpares i s (w.call n))

  with_call-spares :
      (n : ℕ) (call : Call) (w : System R)
      → CallSpares i s call
      → ((k : ℕ) → CallSpares i s (w.call k))
      → (k : ℕ) → CallSpares i s ((with_call R n call w).call k)
  with_call-spares n call w spares all k = elim (Bool-cases (k == n)) [
    | inl same ↦ rw same spares
    | inr other ↦ rw other (all k)
  ]

  step-IsSpared :
      (w : System R) (event : Event)
      → Spares i s start deadline event
      → IsSpared w
      → IsSpared (step R w event)
  unfolding step
  step-IsSpared w (get_or_create n j c p) spares (h, all) =
      (h, with_call-spares n (entered j c p) w tt all)
  step-IsSpared w (finalize n j c v) spares (h, all) =
      (h, with_call-spares n (finalizing j c v) w spares all)
  step-IsSpared w (run_section n input) spares (h, all) =
      let r = advance R (w.call n) input w.manager in
      let (call_spares, held) = advance-Keeps (w.call n) input w.manager spares (all n) h in
      (held, with_call-spares n r.0 (record w { manager = r.1 }) call_spares all)
  step-IsSpared w (release j v) spares (h, all) = (section_release j v w.manager spares h, all)
  step-IsSpared w (pop_cached j c) spares (h, all) = (section_pop j c w.manager h, all)

  pub run-IsSpared :
      (w : System R) (events : List Event)
      → AllSpare i s start deadline events
      → IsSpared w
      → IsSpared (run R w events)
  unfolding run
  run-IsSpared w [] spare h = h
  run-IsSpared w (event ∷ events) (spares, spare) h =
      run-IsSpared (step R w event) events spare (step-IsSpared w event spares h)
