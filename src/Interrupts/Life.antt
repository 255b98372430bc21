-- ===== src/Interrupts/Life.antt =====
-- A request in a repository of src/opencode_a2a/server/state_store.py, from `remember` to its end.
use opencode_a2a_serve.Base.Names.{
  ℕ, ◌+◌, ◌≤◌, ◌<◌, String, true, Option, none, some, List, [], ◌∷◌, ◌≡◌, ◌≢◌, refl, arith, ◌∙◌,
}
use opencode_a2a_serve.Base.Equality.{string_eq}
use opencode_a2a_serve.Base.Text.{is_truthy}
use opencode_a2a_serve.Base.Value.{Fields}
use opencode_a2a_serve.Interrupts.Contract.{
  InterruptRequestBinding, InterruptRequest, active, bind, unexpired, InterruptRepository,
  HoldsRequests,
}

-- A call of the repository, with its clock reading.
pub data RequestCall : Type 0 where
  remembers : InterruptRequest → ℕ → ℕ → RequestCall
  resolves : String → ℕ → RequestCall
  discards : String → RequestCall

-- A call by the time `t` that neither remembers nor discards the request `i`.
abbrev pub Spares : String → ℕ → RequestCall → Type 0
Spares i t (remembers r ttl now) = (now ≤ t) × (i ≢ r.request_id)
Spares i t (resolves j now) = now ≤ t
Spares i t (discards j) = i ≢ j

abbrev pub AllSpare : String → ℕ → List RequestCall → Type 0
AllSpare i t [] = Unit
AllSpare i t (call ∷ calls) = Spares i t call × AllSpare i t calls

module _ (R : InterruptRepository) where
  perform : R.State → RequestCall → R.State
  perform st (remembers r ttl now) = R.remember r ttl now st
  perform st (resolves i now) = (R.resolve i now st).1
  perform st (discards i) = R.discard i st

  unfoldable pub run_calls : R.State → List RequestCall → R.State
  unfolding perform
  run_calls st [] = st
  run_calls st (call ∷ calls) = run_calls (perform st call) calls

module _ (R : InterruptRepository) (IsValid : R.State → Type 0)
    (pending : R.State → String → Option InterruptRequestBinding)
    (stored_details : Option Fields → Option Fields)
    (H : HoldsRequests R IsValid pending stored_details) where
  perform-IsValid : (call : RequestCall) (st : R.State) → IsValid st → IsValid (perform R st call)
  unfolding perform
  perform-IsValid (remembers r ttl now) st v = H.remember-IsValid r ttl now st v
  perform-IsValid (resolves i now) st v = H.resolve-IsValid i now st v
  perform-IsValid (discards i) st v = H.discard-IsValid i st v

  perform-Spares :
      (i : String) (t : ℕ) (call : RequestCall) (st : R.State)
      → IsValid st
      → Spares i t call
      → unexpired t (pending (perform R st call) i) ≡ unexpired t (pending st i)
  unfolding perform
  perform-Spares i t (remembers r ttl now) st v (early, other) =
      ground (arith, other, H.pending-remember i r ttl now t st v early)
  perform-Spares i t (resolves j now) st v early = H.pending-resolve i j now t st v early
  perform-Spares i t (discards j) st v other = ground (arith, other, H.pending-discard i j t st v)

  run_calls_spare :
      (i : String) (t : ℕ) (calls : List RequestCall) (st : R.State)
      → IsValid st
      → AllSpare i t calls
      → (unexpired t (pending (run_calls R st calls) i) ≡ unexpired t (pending st i))
        × IsValid (run_calls R st calls)
  unfolding run_calls
  run_calls_spare i t [] st v h = (refl, v)
  run_calls_spare i t (call ∷ calls) st v (h, hs) =
      let (same, w) =
        run_calls_spare i t calls (perform R st call) (perform-IsValid call st v) hs in
      (same ∙ perform-Spares i t call st v h, w)

  abbrev remembered : InterruptRequest → ℕ → ℕ → InterruptRequestBinding
  remembered r ttl now = bind (record r { details = stored_details r.details }) (now + ttl)

  pending_later :
      (r : InterruptRequest) (ttl now t : ℕ) (calls : List RequestCall) (st : R.State)
      → IsValid st
      → now ≤ t
      → AllSpare r.request_id t calls
      → (unexpired t (pending (run_calls R (R.remember r ttl now st) calls) r.request_id)
          ≡ unexpired t (some (remembered r ttl now)))
        × IsValid (run_calls R (R.remember r ttl now st) calls)
  pending_later r ttl now t calls st v h spare =
      let w = H.remember-IsValid r ttl now st v in
      let (same, w') = run_calls_spare r.request_id t calls (R.remember r ttl now st) w spare in
      (same ∙ ground (arith, H.pending-remember r.request_id r ttl now t st v h), w')

  -- Until its time to live is over, a request with an id that was remembered is resolved as
  -- active, with what was stored of it, whatever other calls came meanwhile: requests that were
  -- remembered or discarded under other ids, and any that were resolved. This holds for every
  -- repository that keeps the contract.
  pub resolve-remember_active :
      (r : InterruptRequest) (ttl now t : ℕ) (calls : List RequestCall) (st : R.State)
      → IsValid st
      → is_truthy r.request_id ≡ true
      → now ≤ t
      → t < now + ttl
      → AllSpare r.request_id t calls
      → (R.resolve r.request_id t (run_calls R (R.remember r ttl now st) calls)).0
        ≡ (active, some (bind (record r { details = stored_details r.details }) (now + ttl)))
  resolve-remember_active r ttl now t calls st v given h soon spare =
      let (later, w) = pending_later r ttl now t calls st v h spare in
      H.resolve_active r.request_id t (run_calls R (R.remember r ttl now st) calls)
        (remembered r ttl now) w given (later ∙ ground arith)

  -- From the end of its time to live on, a remembered request is not resolved as active, and no
  -- binding is given, whatever other calls came meanwhile.
  pub resolve-remember_over :
      (r : InterruptRequest) (ttl now t : ℕ) (calls : List RequestCall) (st : R.State)
      → IsValid st
      → now + ttl ≤ t
      → AllSpare r.request_id t calls
      → let answer = (R.resolve r.request_id t (run_calls R (R.remember r ttl now st) calls)).0 in
        (answer.1 ≡ none) × (answer.0 ≢ active)
  resolve-remember_over r ttl now t calls st v over spare =
      let (later, w) = pending_later r ttl now t calls st v (omega (arith, over)) spare in
      H.resolve_inactive r.request_id t (run_calls R (R.remember r ttl now st) calls) w
        (later ∙ ground (arith, over))
