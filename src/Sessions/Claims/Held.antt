-- ===== src/Sessions/Claims/Held.antt =====
-- The methods of a repository of src/opencode_a2a/server/state_store.py that leave a pending claim alone.
use opencode_a2a_serve.Base.Names.{
  ℕ, ◌+◌, ◌≤◌, ◌<◌, String, false, ◌&&◌, Option, some, ◌≡◌, ◌⊎◌, inl, inr, refl, arith, ◌∙◌,
}
use opencode_a2a_serve.Base.Equality.{◌==◌, string_eq, option_eq, nat_eq, Bool-cases}
use opencode_a2a_serve.Sessions.Repository.{SessionRepository}
use opencode_a2a_serve.Sessions.Claims.Contract.{live, claimant, HasClaims}

claimant-live : (i : String) (x t : ℕ) → t < x → claimant (live t (some (i, x))) ≡ some i
claimant-live i x t h = ground arith

module _ (R : SessionRepository) (IsValid : R.State → Type 0) (ttl : R.State → ℕ)
    (claim : R.State → String → Option (String × ℕ)) (C : HasClaims R IsValid ttl claim)
    (i s : String) (start deadline : ℕ) where
  -- The claim is pending up to the deadline at least, and a new one would be so too.
  pub record IsHeld (st : R.State) : Type 0 where
    pub valid : IsValid st
    pub end : ℕ
    pub claims : claim st s ≡ some (i, end)
    pub lasts : deadline ≤ end
    pub renews : deadline ≤ start + ttl st

  -- A step that leaves the claim alone
  keeps-IsHeld :
      (st st' : R.State)
      → IsHeld st
      → IsValid st'
      → claim st' s ≡ claim st s
      → ttl st' ≡ ttl st
      → IsHeld st'
  keeps-IsHeld st st' h v same same_ttl = record {
    valid = v;
    end = h.end;
    claims = same ∙ h.claims;
    lasts = h.lasts;
    renews = rw same_ttl h.renews;
  }

  pub get_owner-IsHeld :
      (v : String) (t : ℕ) (st : R.State) → IsHeld st → IsHeld (R.get_owner v t st).1
  get_owner-IsHeld v t st h =
      keeps-IsHeld st _ h (C.get_owner-IsValid v t st h.valid) (C.claim-get_owner s v t st)
        (C.ttl-get_owner v t st)

  pub set_owner-IsHeld :
      (v j : String) (t : ℕ) (st : R.State) → IsHeld st → IsHeld (R.set_owner v j t st)
  set_owner-IsHeld v j t st h =
      keeps-IsHeld st _ h (C.set_owner-IsValid v j t st h.valid) (C.claim-set_owner s v j t st)
        (C.ttl-set_owner v j t st)

  pub get_session-IsHeld :
      (j c : String) (t : ℕ) (st : R.State) → IsHeld st → IsHeld (R.get_session j c t st).1
  get_session-IsHeld j c t st h =
      keeps-IsHeld st _ h (C.get_session-IsValid j c t st h.valid) (C.claim-get_session s j c t st)
        (C.ttl-get_session j c t st)

  pub set_session-IsHeld :
      (j c v : String) (t : ℕ) (st : R.State) → IsHeld st → IsHeld (R.set_session j c v t st)
  set_session-IsHeld j c v t st h =
      keeps-IsHeld st _ h (C.set_session-IsValid j c v t st h.valid)
        (C.claim-set_session s j c v t st) (C.ttl-set_session j c v t st)

  pub pop_session-IsHeld : (j c : String) (st : R.State) → IsHeld st → IsHeld (R.pop_session j c st)
  pop_session-IsHeld j c st h =
      keeps-IsHeld st _ h (C.pop_session-IsValid j c st h.valid) (C.claim-pop_session s j c st)
        (C.ttl-pop_session j c st)

  live_still :
      (t : ℕ) (st : R.State) (h : IsHeld st) → t < deadline → live t (claim st s) ≡ claim st s
  live_still t st h soon = ground (arith, h.claims, h.lasts)

  get_pending_claim-IsHeld :
      (v : String) (t : ℕ) (st : R.State)
      → t < deadline
      → IsHeld st
      → IsHeld (R.get_pending_claim v t st).1
  get_pending_claim-IsHeld v t st soon h =
      keeps-IsHeld st _ h (C.get_pending_claim-IsValid v t st h.valid)
        (C.claim-get_pending_claim s v t st h.valid ∙ live_still t st h soon)
        (C.ttl-get_pending_claim v t st h.valid)

  pub clear_pending_claim-IsHeld :
      (v j : String) (st : R.State)
      → (j == i && v == s) ≡ false
      → IsHeld st
      → IsHeld (R.clear_pending_claim v (some j) st)
  clear_pending_claim-IsHeld v j st other h =
      keeps-IsHeld st _ h (C.clear_pending_claim-IsValid v (some j) st h.valid)
        (ground (arith, other, h.claims, C.claim-clear_pending_claim s v (some j) st h.valid))
        (C.ttl-clear_pending_claim v (some j) st)

  elsewhere-IsHeld :
      (v j : String) (t : ℕ) (st : R.State)
      → t < deadline
      → (s == v) ≡ false
      → IsHeld st
      → IsHeld (R.set_pending_claim v j t st)
  elsewhere-IsHeld v j t st soon other h =
      keeps-IsHeld st _ h (C.set_pending_claim-IsValid v j t st h.valid)
        (C.claim-set_pending_claim s v j t st h.valid ∙ rw other (live_still t st h soon))
        (C.ttl-set_pending_claim v j t st h.valid)

  -- A claim on another session, or a new one of the same caller
  pub set_pending_claim-IsHeld :
      (v j : String) (t : ℕ) (st : R.State)
      → start ≤ t
      → t < deadline
      → ((s == v) ≡ false) ⊎ (j ≡ i)
      → IsHeld st
      → IsHeld (R.set_pending_claim v j t st)
  set_pending_claim-IsHeld v j t st late soon (inl other) h = elsewhere-IsHeld v j t st soon other h
  set_pending_claim-IsHeld v j t st late soon (inr same) h = elim (Bool-cases (s == v)) [
    | inr other ↦ elsewhere-IsHeld v j t st soon other h
    | inl here ↦ record {
      valid = C.set_pending_claim-IsValid v j t st h.valid;
      end = t + ttl st;
      claims = C.claim-set_pending_claim s v j t st h.valid ∙ rw here (rw same refl);
      lasts = omega (arith, h.renews, late);
      renews = rw (C.ttl-set_pending_claim v j t st h.valid) h.renews;
    }
  ]

  -- What a caller reads before it claims
  abbrev pub read_claim : String → (ℕ → ℕ) → R.State → Option String × R.State
  read_claim v now st = R.get_pending_claim v (now 1) (R.get_owner v (now 0) st).1

  pub read_claim-IsHeld :
      (v : String) (now : ℕ → ℕ) (st : R.State)
      → now 1 < deadline
      → IsHeld st
      → IsHeld (read_claim v now st).1
  read_claim-IsHeld v now st soon h =
      get_pending_claim-IsHeld v (now 1) _ soon (get_owner-IsHeld v (now 0) st h)

  pub reads_claimant :
      (now : ℕ → ℕ) (st : R.State) → now 1 < deadline → IsHeld st → (read_claim s now st).0 ≡ some i
  reads_claimant now st soon h =
      let h' = get_owner-IsHeld s (now 0) st h in
      C.get_pending_claim_lem s (now 1) (R.get_owner s (now 0) st).1 h'.valid
      ∙ rw h'.claims (claimant-live i h'.end (now 1) (omega (arith, soon, h'.lasts)))
