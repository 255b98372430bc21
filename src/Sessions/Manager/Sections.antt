-- ===== src/Sessions/Manager/Sections.antt =====
-- What each critical section of src/opencode_a2a/execution/session_manager.py does to the owners and
-- the bindings of a repository that forgets nothing by itself.
use opencode_a2a_serve.Base.Names.{ℕ, String, Bool, false, Option, some, ◌≡◌, arith}
use opencode_a2a_serve.Base.Equality.{◌==◌, string_eq, option_eq, if◌then◌else◌}
use opencode_a2a_serve.Base.Text.{is_given}
use opencode_a2a_serve.Sessions.Repository.{SessionRepository, IsDurable}
use opencode_a2a_serve.Sessions.Manager.{Manager, claimed, denied, existing, is_foreign}
use opencode_a2a_serve.Sessions.Manager.{
  claim_preferred_session, finalize_session_claim, begin_create, end_create,
}

module _ (R : SessionRepository) (L : IsDurable R) where
  abbrev pub owner : Manager R → String → Option String
  owner m s = L.owner m.state_repository s

  abbrev pub binding : Manager R → String → String → Option String
  binding m i c = L.binding m.state_repository i c

  module _ (i session : String) (now : ℕ → ℕ) (m : Manager R) where
    abbrev read_owner : R.State
    read_owner = (R.get_owner session (now 0) m.state_repository).1

    abbrev read_claim : R.State
    read_claim = (R.get_pending_claim session (now 1) read_owner).1

    pub owner-claim :
        (s : String) → owner (claim_preferred_session R i session now m).1 s ≡ owner m s
    unfolding claim_preferred_session
    owner-claim s = ground (
      arith,
      L.owner-get_owner s session (now 0) m.state_repository,
      L.owner-get_pending_claim s session (now 1) read_owner,
      L.owner-set_pending_claim s session i (now 2) read_claim,
    )

    pub binding-claim :
        (j c : String) → binding (claim_preferred_session R i session now m).1 j c ≡ binding m j c
    unfolding claim_preferred_session
    binding-claim j c = ground (
      arith,
      L.binding-get_owner j c session (now 0) m.state_repository,
      L.binding-get_pending_claim j c session (now 1) read_owner,
      L.binding-set_pending_claim j c session i (now 2) read_claim,
    )

    -- A claim that leaves nothing pending was made by the owner.
    pub claim-claimed_false :
        (claim_preferred_session R i session now m).0 ≡ claimed false → owner m session ≡ some i
    unfolding claim_preferred_session
    claim-claimed_false h = ground (arith, L.get_owner_lem session (now 0) m.state_repository)

    pub binding-finalize :
        (j c : String) → binding (finalize_session_claim R i session now m).1 j c ≡ binding m j c
    unfolding finalize_session_claim
    binding-finalize j c = ground (
      arith,
      L.binding-get_owner j c session (now 0) m.state_repository,
      L.binding-get_pending_claim j c session (now 1) read_owner,
      L.binding-set_owner j c session i (now 2) read_claim,
      L.binding-clear_pending_claim j c session (some i) (R.set_owner session i (now 2) read_claim),
    )

    pub owner-finalize :
        (s : String) {b : Bool}
        → (finalize_session_claim R i session now m).0 ≡ claimed b
        → owner (finalize_session_claim R i session now m).1 s
          ≡ (if s == session then some i else owner m s)
    unfolding finalize_session_claim
    owner-finalize s h = ground (
      arith,
      L.owner-get_owner s session (now 0) m.state_repository,
      L.owner-get_pending_claim s session (now 1) read_owner,
      L.owner-set_owner s session i (now 2) read_claim,
      L.owner-clear_pending_claim s session (some i) (R.set_owner session i (now 2) read_claim),
    )

    pub owner-finalize_denied :
        (s v : String)
        → (finalize_session_claim R i session now m).0 ≡ denied v
        → owner (finalize_session_claim R i session now m).1 s ≡ owner m s
    unfolding finalize_session_claim
    owner-finalize_denied s v h = ground (
      arith,
      L.owner-get_owner s session (now 0) m.state_repository,
      L.owner-get_pending_claim s session (now 1) read_owner,
    )

    -- Finalizing passes only where the session has no other owner.
    pub finalize-claimed :
        {b : Bool}
        → (finalize_session_claim R i session now m).0 ≡ claimed b
        → is_foreign (owner m session) i ≡ false
    unfolding finalize_session_claim
    finalize-claimed h = ground (arith, L.get_owner_lem session (now 0) m.state_repository)

    pub owner-begin_create : (s : String) → owner (begin_create R i session now m).1 s ≡ owner m s
    unfolding begin_create
    owner-begin_create s =
        ground (arith, L.owner-get_session s i session (now 0) m.state_repository)

    pub binding-begin_create :
        (j c : String) → binding (begin_create R i session now m).1 j c ≡ binding m j c
    unfolding begin_create
    binding-begin_create j c =
        ground (arith, L.binding-get_session j c i session (now 0) m.state_repository)

    -- A session that the first section returns is bound to the caller.
    pub begin_create-existing :
        {v : String}
        → (begin_create R i session now m).0 ≡ existing v
        → binding m i session ≡ some v
    unfolding begin_create
    begin_create-existing h = ground (arith, L.get_session_lem i session (now 0) m.state_repository)

  module _ (i c session : String) (task : ℕ) (now : ℕ → ℕ) (m : Manager R) where
    abbrev bound : R.State
    bound = R.set_session i c session (now 1) (read_owner i session now m)

    pub owner-end_create :
        (s : String)
        → owner (end_create R i c task session now m).1 s ≡ (
            if is_given (owner m session)
            then owner m s
            else (if s == session then some i else owner m s))
    unfolding end_create
    owner-end_create s = ground (
      arith,
      L.get_owner_lem session (now 0) m.state_repository,
      L.owner-get_owner s session (now 0) m.state_repository,
      L.owner-set_session s i c session (now 1) (read_owner i session now m),
      L.owner-set_owner s session i (now 2) bound,
    )

    pub binding-end_create :
        (j d : String)
        → binding (end_create R i c task session now m).1 j d ≡ (
            if is_foreign (owner m session) i
            then binding m j d
            else (if j == i
                then (if d == c then some session else binding m j d)
                else binding m j d))
    unfolding end_create
    binding-end_create j d = ground (
      arith,
      L.get_owner_lem session (now 0) m.state_repository,
      L.binding-get_owner j d session (now 0) m.state_repository,
      L.binding-set_session j d i c session (now 1) (read_owner i session now m),
      L.binding-set_owner j d session i (now 2) bound,
    )
