-- ===== src/Sessions/Manager/Soundness.antt =====
-- The critical sections of a call of src/opencode_a2a/execution/session_manager.py against the invariant.
use mathlib.Core.Path.{subst}
use opencode_a2a_serve.Base.Names.{
  ℕ, String, Bool, true, false, Option, none, some, ◌≡◌, refl, arith, ◌∙◌, inl, inr, ap,
}
use opencode_a2a_serve.Base.Equality.{string_eq, option_eq, nat_eq, Bool-cases}
use opencode_a2a_serve.Base.Text.{is_truthy}
use opencode_a2a_serve.Sessions.Repository.{SessionRepository, IsDurable}
use opencode_a2a_serve.Sessions.Manager.{
  Manager, Claim, claimed, denied, existing, waits, Begun, Call, entered, owned, awaiting,
  finalizing, finalized, returned, forbidden, failed, Input, advance, create, after_claim,
  after_begin, after_end, after_finalize,
}
use opencode_a2a_serve.Sessions.Manager.{
  claim_preferred_session, finalize_session_claim, begin_create, forget_task, end_create,
}
use opencode_a2a_serve.Sessions.Manager.Sections.{
  owner, owner-claim, binding-claim, claim-claimed_false, owner-finalize, owner-finalize_denied,
  binding-finalize, owner-begin_create, binding-begin_create,
}
use opencode_a2a_serve.Sessions.Manager.Invariant.{
  SameView, IsSound, same-IsOwned, same-KeepsOwners, bind_session-IsOwned, bind_session-KeepsOwners,
  end_create-IsOwned, end_create-KeepsOwners, finalize-IsSound, IsOwned, IsEntitled, KeepsOwners,
}

module _ (R : SessionRepository) (L : IsDurable R) where
  pub same-IsSound :
      (m m' : Manager R) (call : Call)
      → SameView R L m m'
      → IsOwned R L m
      → IsEntitled R L m' call
      → IsSound R L m (call, m')
  same-IsSound m m' call v o e = (same-IsOwned R L m m' v o, same-KeepsOwners R L m m' v, e)

  after_claim-IsSound :
      (i c s : String) (m : Manager R) (r : Claim × Manager R)
      → SameView R L m r.1
      → (r.0 ≡ claimed false → owner R L m s ≡ some i)
      → IsOwned R L m
      → IsSound R L m (after_claim R i c s r)
  unfolding after_claim
  after_claim-IsSound i c s m (claimed true, m') v f o = same-IsSound m m' (returned s true) v o tt
  after_claim-IsSound i c s m (claimed false, m') v f o =
      same-IsSound m m' (owned i c s) v o (λ n. v.0 s ∙ f refl)
  after_claim-IsSound i c s m (denied d, m') v f o = same-IsSound m m' forbidden v o tt

  after_begin-IsSound :
      (i c : String) (m : Manager R) (r : Begun × Manager R)
      → SameView R L m r.1
      → IsOwned R L m
      → IsSound R L m (after_begin R i c r)
  unfolding after_begin
  after_begin-IsSound i c m (existing s, m') v o = same-IsSound m m' (returned s false) v o tt
  after_begin-IsSound i c m (waits task, m') v o = same-IsSound m m' (awaiting i c task) v o tt

  after_end-IsSound :
      (s : String) (m : Manager R) (r : Claim × Manager R)
      → IsOwned R L r.1
      → KeepsOwners R L m r.1
      → IsSound R L m (after_end R s r)
  unfolding after_end
  after_end-IsSound s m (claimed b, m') o k = (o, k, tt)
  after_end-IsSound s m (denied d, m') o k = (o, k, tt)

  finalize-IsEntitled :
      (i s : String) (now : ℕ → ℕ) (m : Manager R) {b : Bool}
      → (finalize_session_claim R i s now m).0 ≡ claimed b
      → owner R L (finalize_session_claim R i s now m).1 s ≡ some i
  finalize-IsEntitled i s now m f = ground (arith, owner-finalize R L i s now m s f)

  after_finalize-IsSound :
      (i c s : String) (now : ℕ → ℕ) (m : Manager R) (r : Claim × Manager R)
      → finalize_session_claim R i s now m ≡ r
      → IsOwned R L m
      → IsSound R L m (after_finalize R i c s r)
  unfolding after_finalize
  after_finalize-IsSound i c s now m (claimed b, m') e o =
      let f : (finalize_session_claim R i s now m).0 ≡ claimed b =
        ap (λ (t : Claim × Manager R). t.0) e in
      let g : (finalize_session_claim R i s now m).1 ≡ m' = ap (λ (t : Claim × Manager R). t.1) e in
      let (o', k) = finalize-IsSound R L i s now m f o in
      (
        subst (IsOwned R L) g o',
        subst (KeepsOwners R L m) g k,
        λ n. subst (λ t. owner R L t s ≡ some i) g (finalize-IsEntitled i s now m f),
      )
  after_finalize-IsSound i c s now m (denied d, m') e o =
      let f : (finalize_session_claim R i s now m).0 ≡ denied d =
        ap (λ (t : Claim × Manager R). t.0) e in
      let g : (finalize_session_claim R i s now m).1 ≡ m' = ap (λ (t : Claim × Manager R). t.1) e in
      same-IsSound m m' forbidden
        (subst (SameView R L m) g
          (λ v. owner-finalize_denied R L i s now m v d f, binding-finalize R L i s now m))
        o tt

  create-IsSound :
      (i c : String) (input : Input) (m : Manager R)
      → IsOwned R L m
      → IsSound R L m (create R i c input m)
  unfolding create
  create-IsSound i c input m o =
      after_begin-IsSound i c m (begin_create R i c input.now m)
        (owner-begin_create R L i c input.now m, binding-begin_create R L i c input.now m) o

  entered-IsSound :
      (i c p : String) (input : Input) (m : Manager R)
      → IsOwned R L m
      → IsSound R L m (advance R (entered i c (some p)) input m)
  unfolding advance
  entered-IsSound i c p input m o = elim (Bool-cases (is_truthy p)) [
    | inl given ↦ rw given (
        after_claim-IsSound i c p m (claim_preferred_session R i p input.now m)
          (owner-claim R L i p input.now m, binding-claim R L i p input.now m)
          (claim-claimed_false R L i p input.now m) o)
    | inr absent ↦ rw absent (create-IsSound i c input m o)
  ]

  forget_task-SameView :
      (i c : String) (task : ℕ) (m : Manager R) → SameView R L m (forget_task R i c task m)
  unfolding forget_task
  forget_task-SameView i c task m = (λ s. ground arith, λ j d. ground arith)

  awaiting-IsSound :
      (i c : String) (task : ℕ) (input : Input) (m : Manager R) (outcome : Option String)
      → input.outcome ≡ outcome
      → IsOwned R L m
      → IsSound R L m (advance R (awaiting i c task) input m)
  unfolding advance
  awaiting-IsSound i c task input m none e o =
      rw (e, advance)
        (same-IsSound m (forget_task R i c task m) failed (forget_task-SameView i c task m) o tt)
  awaiting-IsSound i c task input m (some s) e o =
      rw (e, advance)
        (after_end-IsSound s m (end_create R i c task s input.now m)
          (end_create-IsOwned R L i c s task input.now m o)
          (end_create-KeepsOwners R L i c s task input.now m))

  -- Every section of every call keeps bound sessions with their owners, takes no session from a
  -- named owner, and goes on to bind a session only for its owner.
  pub advance-IsSound :
      (call : Call) (input : Input) (m : Manager R)
      → IsOwned R L m
      → IsEntitled R L m call
      → IsSound R L m (advance R call input m)
  unfolding advance
  advance-IsSound (entered i c none) input m o e = create-IsSound i c input m o
  advance-IsSound (entered i c (some p)) input m o e = entered-IsSound i c p input m o
  advance-IsSound (owned i c s) input m o e = (
    bind_session-IsOwned R L i c s input.now m o e,
    bind_session-KeepsOwners R L i c s input.now m,
    tt,
  )
  advance-IsSound (awaiting i c task) input m o e =
      awaiting-IsSound i c task input m input.outcome refl o
  advance-IsSound (finalizing i c s) input m o e =
      after_finalize-IsSound i c s input.now m (finalize_session_claim R i s input.now m) refl o
  advance-IsSound (finalized i c s) input m o e = (
    bind_session-IsOwned R L i c s input.now m o e,
    bind_session-KeepsOwners R L i c s input.now m,
    tt,
  )
  advance-IsSound _ input m o e = (o, λ i s n h. h, tt)
