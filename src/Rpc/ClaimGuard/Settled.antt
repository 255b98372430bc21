-- ===== src/Rpc/ClaimGuard/Settled.antt =====
-- What `SessionClaimGuard` of src/opencode_a2a/jsonrpc/handlers/common.py leaves behind on every way out.
use opencode_a2a_serve.Base.Names.{
  ℕ, String, Bool, true, false, Option, none, some, ◌≡◌, ◌≢◌, ◌⊎◌, inl, inr, refl, arith,
}
use opencode_a2a_serve.Base.Equality.{string_eq, if◌then◌else◌}
use opencode_a2a_serve.Base.Text.{is_truthy}
use opencode_a2a_serve.Sessions.Repository.{SessionRepository}
use opencode_a2a_serve.Sessions.Claims.Contract.{claimant, is_cleared, HasClaims}
use opencode_a2a_serve.Sessions.Manager.{
  Manager, Claim, claimed, denied, claim_preferred_session, finalize_session_claim,
  release_preferred_session_claim,
}
use opencode_a2a_serve.Rpc.Failures.{Failure}
use opencode_a2a_serve.Rpc.ClaimGuard.{
  SessionClaimGuard, new_guard, not_owned, enter, finalize, exit, guarded, within, leave,
  after_enter, after_finalize,
}

claimant-cleared :
    (i : String) (c : Option (String × ℕ))
    → claimant (if is_cleared (some i) c then none else c) ≢ some i
claimant-cleared i none = λ h. absurd (ground arith)
claimant-cleared i (some (j, x)) = λ h. absurd (ground arith)

module _ (R : SessionRepository) (IsValid : R.State → Type 0) (ttl : R.State → ℕ)
    (claim : R.State → String → Option (String × ℕ)) (C : HasClaims R IsValid ttl claim) where
  released_lem :
      (i s : String) (m : Manager R)
      → IsValid m.state_repository
      → claimant (claim (release_preferred_session_claim R i s m).state_repository s) ≢ some i
  unfolding release_preferred_session_claim
  released_lem i s m v h =
      claimant-cleared i (claim m.state_repository s)
        (ground (arith, h, C.claim-clear_pending_claim s s (some i) m.state_repository v))

  -- How a guard of the caller `i` on the session `s` that has claimed it is left: the caller has no claim
  -- any more, or the block ended with an exception and the release of the claim raised.
  abbrev pub IsSettled :
      String → String → Bool → Option Failure × SessionClaimGuard × Manager R → Type 0
  IsSettled i s release_fails left =
      (claimant (claim left.2.state_repository s) ≢ some i)
      ⊎ ((release_fails ≡ true) × (left.0 ≢ none))

  -- The guard of `i` on `s` once it has claimed
  abbrev claiming : String → String → SessionClaimGuard
  claiming i s = record (new_guard (some i) (some s)) { is_pending = true }

  exit-IsSettled :
      (i s : String) (release_fails : Bool) (failure : Failure) (m : Manager R)
      → is_truthy i ≡ true
      → is_truthy s ≡ true
      → IsValid m.state_repository
      → IsSettled i s release_fails (leave R release_fails (some failure, claiming i s, m))
  unfolding leave exit
  exit-IsSettled i s true failure m named given v = inr (refl, λ h. absurd (ground (arith, h)))
  exit-IsSettled i s false failure m named given v = inl (rw (named, given) (released_lem i s m v))

  claim-IsValid :
      (i s : String) (now : ℕ → ℕ) (m : Manager R)
      → IsValid m.state_repository
      → IsValid (claim_preferred_session R i s now m).1.state_repository
  unfolding claim_preferred_session
  claim-IsValid i s now m v =
      let st = (R.get_owner s (now 0) m.state_repository).1 in
      let w = C.get_owner-IsValid s (now 0) m.state_repository v in
      let w' = C.get_pending_claim-IsValid s (now 1) st w in
      ground
        (arith, w', C.set_pending_claim-IsValid s i (now 2) (R.get_pending_claim s (now 1) st).1 w')

  -- What a call of `finalize_session_claim` leaves: a repository that is valid, and no claim of the
  -- caller if it succeeds
  finalize_writes :
      (i s : String) (b : Bool) (now : ℕ → ℕ) (m : Manager R)
      → (finalize_session_claim R i s now m).0 ≡ claimed b
      → (finalize_session_claim R i s now m).1.state_repository
        ≡ R.clear_pending_claim s (some i) (
            R.set_owner s i
              (now 2)
              (R.get_pending_claim s (now 1) (R.get_owner s (now 0) m.state_repository).1).1)
  unfolding finalize_session_claim
  finalize_writes i s b now m h = ground (arith, h)

  finalize_clears :
      (i s : String) (b : Bool) (now : ℕ → ℕ) (m : Manager R)
      → IsValid m.state_repository
      → (finalize_session_claim R i s now m).0 ≡ claimed b
      → claimant (claim (finalize_session_claim R i s now m).1.state_repository s) ≢ some i
  finalize_clears i s b now m v h =
      let st = (R.get_owner s (now 0) m.state_repository).1 in
      let st' = (R.get_pending_claim s (now 1) st).1 in
      let st'' = R.set_owner s i (now 2) st' in
      let w = C.get_owner-IsValid s (now 0) m.state_repository v in
      let w' = C.get_pending_claim-IsValid s (now 1) st w in
      let w'' = C.set_owner-IsValid s i (now 2) st' w' in
      rw (finalize_writes i s b now m h) (λ q.
        claimant-cleared i (claim st'' s)
          (ground (arith, q, C.claim-clear_pending_claim s s (some i) st'' w'')))

  refused-IsValid :
      (i s d : String) (now : ℕ → ℕ) (m : Manager R)
      → IsValid m.state_repository
      → (finalize_session_claim R i s now m).0 ≡ denied d
      → IsValid (finalize_session_claim R i s now m).1.state_repository
  unfolding finalize_session_claim
  refused-IsValid i s d now m v h =
      let st = (R.get_owner s (now 0) m.state_repository).1 in
      let w = C.get_owner-IsValid s (now 0) m.state_repository v in
      let w' = C.get_pending_claim-IsValid s (now 1) st w in ground (arith, w', h)

  after_finalize-IsSettled :
      (i s : String) (release_fails : Bool) (c : Claim × Manager R)
      → is_truthy i ≡ true
      → is_truthy s ≡ true
      → ((b : Bool) → c.0 ≡ claimed b → claimant (claim c.1.state_repository s) ≢ some i)
      → ((d : String) → c.0 ≡ denied d → IsValid c.1.state_repository)
      → IsSettled i s release_fails (leave R release_fails (after_finalize R (claiming i s) c))
  unfolding leave after_finalize exit
  after_finalize-IsSettled i s release_fails (claimed b, m) named given cleared v =
      inl (cleared b refl)
  after_finalize-IsSettled i s release_fails (denied d, m) named given cleared v =
      exit-IsSettled i s release_fails (not_owned d) m named given (v d refl)

  finalize-IsSettled :
      (i s : String) (release_fails : Bool) (now : ℕ → ℕ) (m : Manager R)
      → is_truthy i ≡ true
      → is_truthy s ≡ true
      → IsValid m.state_repository
      → IsSettled i s release_fails (leave R release_fails (finalize R (claiming i s) now m))
  unfolding finalize
  finalize-IsSettled i s release_fails now m named given v =
      rw (named, given)
        (after_finalize-IsSettled i s release_fails (finalize_session_claim R i s now m) named given
          (λ b. finalize_clears i s b now m v) (λ d. refused-IsValid i s d now m v))

  module _ (i s : String) (named : is_truthy i ≡ true) (given : is_truthy s ≡ true)
      (meanwhile : Manager R → Manager R)
      (meanwhile-IsValid : (m : Manager R)
        → IsValid m.state_repository
        → IsValid (meanwhile m).state_repository) where
    within-IsSettled :
        (body : Option Failure) (later : ℕ → ℕ) (release_fails : Bool) (m : Manager R)
        (h : SessionClaimGuard)
        → IsValid m.state_repository
        → IsSettled i s release_fails
            (within R body meanwhile later release_fails (inr (claiming i s), m) h)
    unfolding within
    within-IsSettled (some failure) later release_fails m h v =
        exit-IsSettled i s release_fails failure (meanwhile m) named given (meanwhile-IsValid m v)
    within-IsSettled none later release_fails m h v =
        finalize-IsSettled i s release_fails later (meanwhile m) named given (meanwhile-IsValid m v)

    after_enter-IsSettled :
        (body : Option Failure) (later : ℕ → ℕ) (release_fails : Bool) (c : Claim × Manager R)
        → c.0 ≡ claimed true
        → IsValid c.1.state_repository
        → let g = new_guard (some i) (some s) in
          IsSettled i s release_fails
            (within R body meanwhile later release_fails (after_enter R g c) g)
    unfolding after_enter
    after_enter-IsSettled body later release_fails (claimed true, m) h v =
        within-IsSettled body later release_fails m (new_guard (some i) (some s)) v
    after_enter-IsSettled body later release_fails (claimed false, m) h v =
        absurd (ground (arith, h))
    after_enter-IsSettled body later release_fails (denied d, m) h v = absurd (ground (arith, h))

    -- When the claim with which a session claim guard begins leaves a session pending for a
    -- caller, both with non-empty names, on a repository that keeps the contract on claims:
    -- whatever the block does or raises, and whatever other calls do meanwhile that keeps the
    -- repository as the contract wants it, at the end of the block the session has no pending
    -- claim of the caller any more, unless the block ends with an exception and the release of the
    -- claim raises too.
    pub guarded-IsSettled :
        (body : Option Failure) (now later : ℕ → ℕ) (release_fails : Bool) (m : Manager R)
        → IsValid m.state_repository
        → (claim_preferred_session R i s now m).0 ≡ claimed true
        → IsSettled i s release_fails
            (guarded R (new_guard (some i) (some s)) now body meanwhile later release_fails m)
    unfolding guarded enter
    guarded-IsSettled body now later release_fails m v claims =
        rw (named, given)
          (after_enter-IsSettled body later release_fails (claim_preferred_session R i s now m)
            claims (claim-IsValid i s now m v))
