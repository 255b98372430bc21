-- ===== src/Sessions/Claims/Exclusion.antt =====
-- A pending claim of src/opencode_a2a/execution/session_manager.py and the callers beside its own.
use opencode_a2a_serve.Base.Names.{
  ℕ, ◌+◌, ◌<◌, String, true, not, Option, some, ◌≡◌, ◌≢◌, arith, ◌∙◌, ap, List,
}
use opencode_a2a_serve.Base.Equality.{◌==◌, string_eq, option_eq, if◌then◌else◌}
use opencode_a2a_serve.Sessions.Repository.{SessionRepository}
use opencode_a2a_serve.Sessions.Claims.Contract.{live, claimant, HasClaims}
use opencode_a2a_serve.Sessions.Manager.{
  Manager, Call, System, Event, run, claimed, denied, is_foreign, claim_preferred_session,
  finalize_session_claim, release_preferred_session_claim,
}
use opencode_a2a_serve.Sessions.Claims.Held.{IsHeld, reads_claimant}
use opencode_a2a_serve.Sessions.Manager.Held.{CallSpares, AllSpare, run-IsSpared}
use opencode_a2a_serve.Sessions.Manager.Invariant.{is_truthy_of_ne}

module _ (R : SessionRepository) (IsValid : R.State → Type 0) (ttl : R.State → ℕ)
    (claim : R.State → String → Option (String × ℕ)) (C : HasClaims R IsValid ttl claim) where
  denied_claim :
      (i j s : String) (later : ℕ → ℕ) (m : Manager R)
      → i ≢ ""
      → j ≢ i
      → (R.get_pending_claim s (later 1) (R.get_owner s (later 0) m.state_repository).1).0 ≡ some i
      → (claim_preferred_session R j s later m).0 ≡ denied s
  unfolding claim_preferred_session
  denied_claim i j s later m named other e = ground (arith, is_truthy_of_ne i named)

  denied_finalize :
      (i j s : String) (later : ℕ → ℕ) (m : Manager R)
      → i ≢ ""
      → j ≢ i
      → (R.get_pending_claim s (later 1) (R.get_owner s (later 0) m.state_repository).1).0 ≡ some i
      → (finalize_session_claim R j s later m).0 ≡ denied s
  unfolding finalize_session_claim
  denied_finalize i j s later m named other e = ground (arith, is_truthy_of_ne i named)

  claim_writes :
      (i s : String) (now : ℕ → ℕ) (m : Manager R)
      → (claim_preferred_session R i s now m).0 ≡ claimed true
      → (claim_preferred_session R i s now m).1.state_repository
        ≡ R.set_pending_claim s i
            (now 2)
            (R.get_pending_claim s (now 1) (R.get_owner s (now 0) m.state_repository).1).1
  unfolding claim_preferred_session
  claim_writes i s now m h = ground arith

  -- What a claim that succeeds leaves pending.
  claim_recorded :
      (i s : String) (now : ℕ → ℕ) (m : Manager R)
      → IsValid m.state_repository
      → (claim_preferred_session R i s now m).0 ≡ claimed true
      → (claim (claim_preferred_session R i s now m).1.state_repository s
          ≡ some (i, now 2 + ttl m.state_repository))
        × IsValid (claim_preferred_session R i s now m).1.state_repository
  claim_recorded i s now m v h =
      let st = (R.get_owner s (now 0) m.state_repository).1 in
      let st' = (R.get_pending_claim s (now 1) st).1 in
      let w = C.get_owner-IsValid s (now 0) m.state_repository v in
      let w' = C.get_pending_claim-IsValid s (now 1) st w in
      rw (claim_writes i s now m h) (
        ground (
          arith,
          C.claim-set_pending_claim s s i (now 2) st' w',
          C.ttl-get_pending_claim s (now 1) st w,
          C.ttl-get_owner s (now 0) m.state_repository,
        ),
        C.set_pending_claim-IsValid s i (now 2) st' w',
      )

  -- What a caller finds pending, when it reads the claim behind the owner.
  pending_read :
      (s : String) (now : ℕ → ℕ) (st : R.State)
      → IsValid st
      → (R.get_pending_claim s (now 1) (R.get_owner s (now 0) st).1).0
        ≡ claimant (live (now 1) (claim st s))
  pending_read s now st v =
      C.get_pending_claim_lem s (now 1) (R.get_owner s (now 0) st).1
        (C.get_owner-IsValid s (now 0) st v)
      ∙ rw (C.claim-get_owner s s (now 0) st)

  ttl-claim :
      (i s : String) (now : ℕ → ℕ) (m : Manager R)
      → IsValid m.state_repository
      → (claim_preferred_session R i s now m).0 ≡ claimed true
      → ttl (claim_preferred_session R i s now m).1.state_repository ≡ ttl m.state_repository
  ttl-claim i s now m v h =
      let st = (R.get_owner s (now 0) m.state_repository).1 in
      let st' = (R.get_pending_claim s (now 1) st).1 in
      let w = C.get_owner-IsValid s (now 0) m.state_repository v in
      let w' = C.get_pending_claim-IsValid s (now 1) st w in
      ap ttl (claim_writes i s now m h)
      ∙ C.ttl-set_pending_claim s i (now 2) st' w'
      ∙ C.ttl-get_pending_claim s (now 1) st w
      ∙ C.ttl-get_owner s (now 0) m.state_repository

  claim-IsHeld :
      (i s : String) (now : ℕ → ℕ) (m : Manager R)
      → IsValid m.state_repository
      → (claim_preferred_session R i s now m).0 ≡ claimed true
      → IsHeld R IsValid ttl claim C i s
          (now 2)
          (now 2 + ttl m.state_repository)
          (claim_preferred_session R i s now m).1.state_repository
  claim-IsHeld i s now m v h =
      let (recorded, v') = claim_recorded i s now m v h in
      record {
        valid = v';
        end = now 2 + ttl m.state_repository;
        claims = recorded;
        lasts = omega arith;
        renews = rw (ttl-claim i s now m v h) (omega arith);
      }

  -- After a caller with a non-empty name has claimed a session, on a repository that keeps the
  -- contract on claims, and after any interleaving of calls of the manager, also by rivals, in
  -- which the clock stays between the claim and the end of its time to live and the caller itself
  -- neither finalizes nor releases the claim: up to that end the session is denied to every other
  -- caller, who can neither claim it nor finalize a claim on it.
  pub claim_excludes :
      (i j s : String) (now later : ℕ → ℕ) (m : Manager R) (call : ℕ → Call) (events : List Event)
      → IsValid m.state_repository
      → i ≢ ""
      → j ≢ i
      → (claim_preferred_session R i s now m).0 ≡ claimed true
      → ((n : ℕ) → CallSpares i s (call n))
      → AllSpare i s (now 2) (now 2 + ttl m.state_repository) events
      → later 1 < now 2 + ttl m.state_repository
      → let w : System R = record {
        manager = (claim_preferred_session R i s now m).1;
        call = call;
      } in
        ((claim_preferred_session R j s later (run R w events).manager).0 ≡ denied s)
        × ((finalize_session_claim R j s later (run R w events).manager).0 ≡ denied s)
  claim_excludes i j s now later m call events v named other h spares spare soon =
      let w : System R = record {
        manager = (claim_preferred_session R i s now m).1;
        call = call;
      } in
      let deadline = now 2 + ttl m.state_repository in
      let m' = (run R w events).manager in
      let (held, _) =
        run-IsSpared R IsValid ttl claim C i s named (now 2) deadline w events spare
          (claim-IsHeld i s now m v h, spares) in
      let reads =
        reads_claimant R IsValid ttl claim C i s (now 2) deadline later m'.state_repository soon
          held in
      (
        denied_claim i j s later m' named other reads,
        denied_finalize i j s later m' named other reads,
      )

  -- After a successful claim is released, a claim of any caller on the session is decided by its
  -- owner alone: it is denied if there is another non-empty owner, and else it is left pending
  -- unless the caller is the owner.
  pub claim_after_release :
      (i j s : String) (now later : ℕ → ℕ) (m : Manager R)
      → IsValid m.state_repository
      → (claim_preferred_session R i s now m).0 ≡ claimed true
      → let freed = release_preferred_session_claim R i s (claim_preferred_session R i s now m).1 in
        let owner = (R.get_owner s (later 0) freed.state_repository).0 in
        (claim_preferred_session R j s later freed).0
        ≡ (if is_foreign owner j then denied s else claimed (not (owner == some j)))
  claim_after_release i j s now later m v h =
      let m' = (claim_preferred_session R i s now m).1 in
      let (recorded, v') = claim_recorded i s now m v h in
      let st = R.clear_pending_claim s (some i) m'.state_repository in
      let v'' = C.clear_pending_claim-IsValid s (some i) m'.state_repository v' in
      unfold release_preferred_session_claim claim_preferred_session in
      ground (
        arith,
        recorded,
        C.claim-clear_pending_claim s s (some i) m'.state_repository v',
        pending_read s later st v'',
      )
