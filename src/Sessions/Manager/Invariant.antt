-- ===== src/Sessions/Manager/Invariant.antt =====
-- What holds between the critical sections of src/opencode_a2a/execution/session_manager.py.
use opencode_a2a_serve.Base.Names.{ℕ, String, Bool, true, some, ◌≡◌, ◌≢◌, refl, arith, sym, ◌∙◌}
use opencode_a2a_serve.Base.Equality.{string_eq, option_eq, nat_eq}
use opencode_a2a_serve.Base.Text.{is_truthy}
use opencode_a2a_serve.Sessions.Repository.{SessionRepository, IsDurable}
use opencode_a2a_serve.Sessions.Manager.{Manager, claimed, Call, idle, owned, finalized}
use opencode_a2a_serve.Sessions.Manager.{finalize_session_claim, bind_session, end_create}
use opencode_a2a_serve.Sessions.Manager.Sections.{
  owner, binding, owner-finalize, binding-finalize, finalize-claimed, owner-end_create,
  binding-end_create,
}

pub is_truthy_of_ne : (i : String) → i ≢ "" → is_truthy i ≡ true
is_truthy_of_ne String.[] h = absurd (h refl)
is_truthy_of_ne (String.◌∷◌ c s) h = refl

module _ (R : SessionRepository) (L : IsDurable R) where
  -- A session that is bound to a named caller is owned by that caller.
  abbrev pub IsOwned : Manager R → Type 0
  IsOwned m = (i c s : String) → i ≢ "" → binding R L m i c ≡ some s → owner R L m s ≡ some i

  -- A call that is about to bind a session for a named caller is made by the owner of the session.
  abbrev pub IsEntitled : Manager R → Call → Type 0
  IsEntitled m (owned i c s) = i ≢ "" → owner R L m s ≡ some i
  IsEntitled m (finalized i c s) = i ≢ "" → owner R L m s ≡ some i
  IsEntitled m _ = Unit

  -- Named owners stay.
  abbrev pub KeepsOwners : Manager R → Manager R → Type 0
  KeepsOwners m m' = (i s : String) → i ≢ "" → owner R L m s ≡ some i → owner R L m' s ≡ some i

  abbrev pub SameView : Manager R → Manager R → Type 0
  SameView m m' =
      ((s : String) → owner R L m' s ≡ owner R L m s)
      × ((i c : String) → binding R L m' i c ≡ binding R L m i c)

  -- What one section must do, given what holds before it.
  abbrev pub IsSound : Manager R → Call × Manager R → Type 0
  IsSound m r = IsOwned r.1 × KeepsOwners m r.1 × IsEntitled r.1 r.0

  pub same-IsOwned : (m m' : Manager R) → SameView m m' → IsOwned m → IsOwned m'
  same-IsOwned m m' v o i c s n b = v.0 s ∙ o i c s n (sym (v.1 i c) ∙ b)

  pub same-KeepsOwners : (m m' : Manager R) → SameView m m' → KeepsOwners m m'
  same-KeepsOwners m m' v i s n h = v.0 s ∙ h

  pub IsEntitled-later :
      (m m' : Manager R) (call : Call) → KeepsOwners m m' → IsEntitled m call → IsEntitled m' call
  IsEntitled-later m m' (owned i c s) k e = λ n. k i s n (e n)
  IsEntitled-later m m' (finalized i c s) k e = λ n. k i s n (e n)
  IsEntitled-later m m' idle k e = tt
  IsEntitled-later m m' _ k e = tt

  pub bind_session-IsOwned :
      (i c s : String) (now : ℕ → ℕ) (m : Manager R)
      → IsOwned m
      → (i ≢ "" → owner R L m s ≡ some i)
      → IsOwned (bind_session R i c s now m)
  unfolding bind_session
  bind_session-IsOwned i c s now m o e j d v n h = ground (
    arith,
    L.owner-set_session v i c s (now 0) m.state_repository,
    L.binding-set_session j d i c s (now 0) m.state_repository,
    o j d v n,
    e,
  )

  pub bind_session-KeepsOwners :
      (i c s : String) (now : ℕ → ℕ) (m : Manager R) → KeepsOwners m (bind_session R i c s now m)
  unfolding bind_session
  bind_session-KeepsOwners i c s now m j v n h =
      L.owner-set_session v i c s (now 0) m.state_repository ∙ h

  pub end_create-IsOwned :
      (i c s : String) (task : ℕ) (now : ℕ → ℕ) (m : Manager R)
      → IsOwned m
      → IsOwned (end_create R i c task s now m).1
  end_create-IsOwned i c s task now m o j d v n h = ground (
    arith,
    owner-end_create R L i c s task now m v,
    binding-end_create R L i c s task now m j d,
    o j d v n,
    is_truthy_of_ne j n,
  )

  pub end_create-KeepsOwners :
      (i c s : String) (task : ℕ) (now : ℕ → ℕ) (m : Manager R)
      → KeepsOwners m (end_create R i c task s now m).1
  end_create-KeepsOwners i c s task now m j v n h =
      ground (arith, owner-end_create R L i c s task now m v, is_truthy_of_ne j n)

  pub finalize-IsSound :
      (i s : String) (now : ℕ → ℕ) (m : Manager R) {b : Bool}
      → (finalize_session_claim R i s now m).0 ≡ claimed b
      → IsOwned m
      → IsOwned (finalize_session_claim R i s now m).1
        × KeepsOwners m (finalize_session_claim R i s now m).1
  finalize-IsSound i s now m f o = (
    λ j d v n h. ground (
      arith,
      owner-finalize R L i s now m v f,
      binding-finalize R L i s now m j d,
      finalize-claimed R L i s now m f,
      o j d v n,
      is_truthy_of_ne j n,
    ),
    λ j v n h. ground (
      arith,
      owner-finalize R L i s now m v f,
      finalize-claimed R L i s now m f,
      is_truthy_of_ne j n,
    ),
  )
