-- ===== src/Sessions/Claims/Contract.antt =====
-- The contract of the methods on pending claims of src/opencode_a2a/server/state_store.py, for a
-- positive time to live: a claim is an identity with the time at which it ends.
use opencode_a2a_serve.Base.Names.{ℕ, ◌+◌, String, Bool, true, false, ◌&&◌, Option, none, some, ◌≡◌}
use opencode_a2a_serve.Base.Equality.{◌==◌, string_eq, if◌then◌else◌}
use opencode_a2a_serve.Base.Lists.{leb}
use opencode_a2a_serve.Sessions.Repository.{SessionRepository}

-- A claim that has ended is none.
abbrev pub live : ℕ → Option (String × ℕ) → Option (String × ℕ)
live now none = none
live now (some (identity, expires_at)) =
    if leb expires_at now then none else some (identity, expires_at)

abbrev pub claimant : Option (String × ℕ) → Option String
claimant none = none
claimant (some (identity, _)) = some identity

-- Whether `clear_pending_claim(session_id, identity)` is about this claim.
abbrev pub is_cleared : Option String → Option (String × ℕ) → Bool
is_cleared none claim = true
is_cleared (some i) none = false
is_cleared (some i) (some (identity, _)) = identity == i

-- The laws hold on the states that satisfy `IsValid`, which every method keeps; `claim` is
-- what is claimed for a session.
pub record HasClaims (R : SessionRepository) (IsValid : R.State → Type 0) (ttl : R.State → ℕ)
    (claim : R.State → String → Option (String × ℕ)) : Type 0 where
  pub get_pending_claim_lem :
      (s : String) (t : ℕ) (st : R.State)
      → IsValid st
      → (R.get_pending_claim s t st).0 ≡ claimant (live t (claim st s))
  pub claim-get_pending_claim :
      (s v : String) (t : ℕ) (st : R.State)
      → IsValid st
      → claim (R.get_pending_claim v t st).1 s ≡ live t (claim st s)
  pub claim-set_pending_claim :
      (s v i : String) (t : ℕ) (st : R.State)
      → IsValid st
      → claim (R.set_pending_claim v i t st) s
        ≡ (if s == v then some (i, t + ttl st) else live t (claim st s))
  pub claim-clear_pending_claim :
      (s v : String) (who : Option String) (st : R.State)
      → IsValid st
      → claim (R.clear_pending_claim v who st) s
        ≡ (if s == v && is_cleared who (claim st s) then none else claim st s)
  pub claim-get_owner :
      (s v : String) (t : ℕ) (st : R.State) → claim (R.get_owner v t st).1 s ≡ claim st s
  pub ttl-get_owner : (v : String) (t : ℕ) (st : R.State) → ttl (R.get_owner v t st).1 ≡ ttl st
  pub ttl-get_pending_claim :
      (v : String) (t : ℕ) (st : R.State) → IsValid st → ttl (R.get_pending_claim v t st).1 ≡ ttl st
  pub get_owner-IsValid :
      (v : String) (t : ℕ) (st : R.State) → IsValid st → IsValid (R.get_owner v t st).1
  pub get_pending_claim-IsValid :
      (v : String) (t : ℕ) (st : R.State) → IsValid st → IsValid (R.get_pending_claim v t st).1
  pub set_pending_claim-IsValid :
      (v i : String) (t : ℕ) (st : R.State) → IsValid st → IsValid (R.set_pending_claim v i t st)
  pub clear_pending_claim-IsValid :
      (v : String) (who : Option String) (st : R.State)
      → IsValid st
      → IsValid (R.clear_pending_claim v who st)
  pub ttl-set_pending_claim :
      (v i : String) (t : ℕ) (st : R.State)
      → IsValid st
      → ttl (R.set_pending_claim v i t st) ≡ ttl st
  pub ttl-clear_pending_claim :
      (v : String) (who : Option String) (st : R.State)
      → ttl (R.clear_pending_claim v who st) ≡ ttl st
  -- The other methods leave the claims alone.
  pub claim-get_session :
      (s i c : String) (t : ℕ) (st : R.State) → claim (R.get_session i c t st).1 s ≡ claim st s
  pub claim-set_session :
      (s i c v : String) (t : ℕ) (st : R.State) → claim (R.set_session i c v t st) s ≡ claim st s
  pub claim-pop_session :
      (s i c : String) (st : R.State) → claim (R.pop_session i c st) s ≡ claim st s
  pub claim-set_owner :
      (s v i : String) (t : ℕ) (st : R.State) → claim (R.set_owner v i t st) s ≡ claim st s
  pub ttl-get_session :
      (i c : String) (t : ℕ) (st : R.State) → ttl (R.get_session i c t st).1 ≡ ttl st
  pub ttl-set_session :
      (i c v : String) (t : ℕ) (st : R.State) → ttl (R.set_session i c v t st) ≡ ttl st
  pub ttl-pop_session : (i c : String) (st : R.State) → ttl (R.pop_session i c st) ≡ ttl st
  pub ttl-set_owner : (v i : String) (t : ℕ) (st : R.State) → ttl (R.set_owner v i t st) ≡ ttl st
  pub get_session-IsValid :
      (i c : String) (t : ℕ) (st : R.State) → IsValid st → IsValid (R.get_session i c t st).1
  pub set_session-IsValid :
      (i c v : String) (t : ℕ) (st : R.State) → IsValid st → IsValid (R.set_session i c v t st)
  pub pop_session-IsValid :
      (i c : String) (st : R.State) → IsValid st → IsValid (R.pop_session i c st)
  pub set_owner-IsValid :
      (v i : String) (t : ℕ) (st : R.State) → IsValid st → IsValid (R.set_owner v i t st)
