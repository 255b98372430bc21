-- ===== src/Sessions/Repository.antt =====
-- The abstract class `SessionStateRepository` of src/opencode_a2a/server/state_store.py. A method takes
-- the clock reading that it makes, and returns the new state; each one runs without interruption.
use opencode_a2a_serve.Base.Names.{ℕ, String, Option, none, some, ◌≡◌}
use opencode_a2a_serve.Base.Equality.{◌==◌, string_eq, if◌then◌else◌}

pub record SessionRepository : Type 1 where
  pub State : Type 0
  pub get_session : String → String → ℕ → State → Option String × State
  pub set_session : String → String → String → ℕ → State → State
  pub pop_session : String → String → State → State
  pub get_owner : String → ℕ → State → Option String × State
  pub set_owner : String → String → ℕ → State → State
  pub get_pending_claim : String → ℕ → State → Option String × State
  pub set_pending_claim : String → String → ℕ → State → State
  pub clear_pending_claim : String → Option String → State → State

-- A repository that forgets no binding and no owner by itself: `binding identity context_id` and
-- `owner session_id` are what it holds.
pub record IsDurable (R : SessionRepository) : Type 0 where
  pub binding : R.State → String → String → Option String
  pub owner : R.State → String → Option String
  pub get_owner_lem : (s : String) (t : ℕ) (st : R.State) → (R.get_owner s t st).0 ≡ owner st s
  pub get_session_lem :
      (i c : String) (t : ℕ) (st : R.State) → (R.get_session i c t st).0 ≡ binding st i c
  pub owner-get_session :
      (s i c : String) (t : ℕ) (st : R.State) → owner (R.get_session i c t st).1 s ≡ owner st s
  pub owner-set_session :
      (s i c v : String) (t : ℕ) (st : R.State) → owner (R.set_session i c v t st) s ≡ owner st s
  pub owner-pop_session :
      (s i c : String) (st : R.State) → owner (R.pop_session i c st) s ≡ owner st s
  pub owner-get_owner :
      (s v : String) (t : ℕ) (st : R.State) → owner (R.get_owner v t st).1 s ≡ owner st s
  pub owner-set_owner :
      (s v i : String) (t : ℕ) (st : R.State)
      → owner (R.set_owner v i t st) s ≡ (if s == v then some i else owner st s)
  pub owner-get_pending_claim :
      (s v : String) (t : ℕ) (st : R.State) → owner (R.get_pending_claim v t st).1 s ≡ owner st s
  pub owner-set_pending_claim :
      (s v i : String) (t : ℕ) (st : R.State) → owner (R.set_pending_claim v i t st) s ≡ owner st s
  pub owner-clear_pending_claim :
      (s v : String) (i : Option String) (st : R.State)
      → owner (R.clear_pending_claim v i st) s ≡ owner st s
  pub binding-get_session :
      (i c j d : String) (t : ℕ) (st : R.State)
      → binding (R.get_session j d t st).1 i c ≡ binding st i c
  pub binding-set_session :
      (i c j d v : String) (t : ℕ) (st : R.State)
      → binding (R.set_session j d v t st) i c
        ≡ (if i == j then (if c == d then some v else binding st i c) else binding st i c)
  pub binding-pop_session :
      (i c j d : String) (st : R.State)
      → binding (R.pop_session j d st) i c
        ≡ (if i == j then (if c == d then none else binding st i c) else binding st i c)
  pub binding-get_owner :
      (i c v : String) (t : ℕ) (st : R.State) → binding (R.get_owner v t st).1 i c ≡ binding st i c
  pub binding-set_owner :
      (i c v j : String) (t : ℕ) (st : R.State)
      → binding (R.set_owner v j t st) i c ≡ binding st i c
  pub binding-get_pending_claim :
      (i c v : String) (t : ℕ) (st : R.State)
      → binding (R.get_pending_claim v t st).1 i c ≡ binding st i c
  pub binding-set_pending_claim :
      (i c v j : String) (t : ℕ) (st : R.State)
      → binding (R.set_pending_claim v j t st) i c ≡ binding st i c
  pub binding-clear_pending_claim :
      (i c v : String) (j : Option String) (st : R.State)
      → binding (R.clear_pending_claim v j st) i c ≡ binding st i c
