-- ===== src/Rpc/SessionControl/Laws.antt =====
-- What src/opencode_a2a/jsonrpc/handlers/session_control.py sends to the upstream, and for whom.
use opencode_a2a_serve.Base.Names.{
  Bool, ℕ, String, true, false, not, ◌&&◌, Option, none, some, [], ◌∷◌, ◌≡◌, inl, inr, refl, arith,
}
use opencode_a2a_serve.Base.Equality.{string_eq}
use opencode_a2a_serve.Base.Text.{is_given, is_truthy}
use opencode_a2a_serve.Base.Value.{Value, Fields, null, bool, int, float, str, array, dict, get}
use opencode_a2a_serve.Sessions.Repository.{SessionRepository}
use opencode_a2a_serve.Sessions.Manager.{Manager, is_foreign, claim_preferred_session}
use opencode_a2a_serve.Rpc.Common.{RequestId, bind_inr, either-cases, reject_unknown_fields}
use opencode_a2a_serve.Rpc.Metadata.{Resolved, Routing, resolve_routing_context}
use opencode_a2a_serve.Rpc.ClaimGuard.{SessionClaimGuard, new_guard, enter, text_of, after_enter}
use opencode_a2a_serve.Rpc.SessionControl.{
  ControlRequest, ControlSent, Upstream, is_shell, request_has_capability, check_capability,
  prepare, session_id_in, request_in, check_valid, validate_payload, after_prepare, asked,
  handle_session_control_request,
}
use opencode_a2a_serve.Rpc.Messages.{A2aMessage}

capable :
    (r : ControlRequest) (u : Unit {0})
    → check_capability r ≡ inr u
    → is_shell r.method && not (request_has_capability r "session_shell") ≡ false
unfolding check_capability
capable r u h = ground arith

given_session :
    (id : RequestId) (v : Value) (s : String) → session_id_in id v ≡ inr s → is_truthy s ≡ true
unfolding session_id_in
given_session id (str t) s h = ground arith
given_session id null s h = absurd (ground arith)
given_session id (bool _) s h = absurd (ground arith)
given_session id (int _) s h = absurd (ground arith)
given_session id (float _ _) s h = absurd (ground arith)
given_session id (array _) s h = absurd (ground arith)
given_session id (dict _) s h = absurd (ground arith)

prepared_is_capable :
    (resolver : Option String → Resolved) (r : ControlRequest) (to : String × Fields × Routing)
    → prepare resolver r ≡ inr to
    → (is_shell r.method && not (request_has_capability r "session_shell") ≡ false)
      × (is_truthy to.0 ≡ true)
unfolding prepare
prepared_is_capable resolver r to h =
    let (u, _, h1) =
      bind_inr
        (reject_unknown_fields r.id r.params ("session_id" ∷ "request" ∷ "metadata" ∷ []) ""
          "Unsupported fields")
        _ to h in
    let (s, session, h2) = bind_inr (session_id_in r.id (get "session_id" r.params)) _ to h1 in
    let (raw, _, h3) = bind_inr (request_in r.id (get "request" r.params)) _ to h2 in
    let (u', may, h4) = bind_inr (check_capability r) _ to h3 in
    let (u'', _, h5) = bind_inr (check_valid r.id (validate_payload r.method raw)) _ to h4 in
    let (routing, _, h6) = bind_inr (resolve_routing_context resolver r.id r.params none) _ to h5 in
    let given = given_session r.id (get "session_id" r.params) s session in
    (capable r u' may, ground (arith, given, h6))

module _ (R : SessionRepository) where
  -- What the repository says of a session while it is claimed: the owner, and who has a claim.
  abbrev owner_read : String → (ℕ → ℕ) → Manager R → Option String
  owner_read s now m = (R.get_owner s (now 0) m.state_repository).0

  abbrev claim_read : String → (ℕ → ℕ) → Manager R → Option String
  claim_read s now m =
      (R.get_pending_claim s (now 1) (R.get_owner s (now 0) m.state_repository).1).0

  -- A request may be sent to the upstream: a shell call by its capability, and any call of a named
  -- caller where no one else owns or claims the session.
  pub record MaySend (r : ControlRequest) (s : String) (now : ℕ → ℕ) (m : Manager R) : Type 0 where
    pub granted : is_shell r.method && not (request_has_capability r "session_shell") ≡ false
    pub not_owned :
        is_given r.user_identity && is_foreign (owner_read s now m) (text_of r.user_identity)
        ≡ false
    pub not_claimed :
        is_given r.user_identity && is_foreign (claim_read s now m) (text_of r.user_identity)
        ≡ false

  entered_is_free :
      (identity : Option String) (s : String) (now : ℕ → ℕ) (m : Manager R) (g : SessionClaimGuard)
      → is_truthy s ≡ true
      → (enter R (new_guard identity (some s)) now m).0 ≡ inr g
      → (is_given identity && is_foreign (owner_read s now m) (text_of identity) ≡ false)
        × (is_given identity && is_foreign (claim_read s now m) (text_of identity) ≡ false)
  unfolding enter after_enter claim_preferred_session
  entered_is_free none s now m g given h = (refl, refl)
  entered_is_free (some i) s now m g given h = ground arith

module _ (dump : A2aMessage → Value) (R : SessionRepository) where
  after_prepare_sent :
      (r : ControlRequest) (now : ℕ → ℕ) (upstream : Upstream) (meanwhile : Manager R → Manager R)
      (later : ℕ → ℕ) (release_fails : Bool) (m : Manager R) (to : String × Fields × Routing)
      (sent : ControlSent)
      → (after_prepare dump R r now upstream meanwhile later release_fails m (inr to)).sent
        ≡ some sent
      → (sent.session_id ≡ to.0)
        × (sent.method ≡ r.method)
        × (g : SessionClaimGuard) × ((enter R (new_guard r.user_identity (some to.0)) now m).0
            ≡ inr g)
  unfolding after_prepare asked
  after_prepare_sent r now upstream meanwhile later release_fails m to sent h =
      elim (either-cases (enter R (new_guard r.user_identity (some to.0)) now m).0) [
        | inl (failure, e) ↦ absurd (ground (arith, e, h))
        | inr (g, e) ↦ (ground (arith, e, h), ground (arith, e, h), g, e)
      ]

  -- What the handler of session control sends to the upstream goes under the method of the
  -- request; a shell command is sent only for a caller with the capability for it; and for a
  -- caller with an identity the session then has neither another owner nor a pending claim of
  -- another.
  pub handle-MaySend :
      (resolver : Option String → Resolved) (r : ControlRequest) (now : ℕ → ℕ) (upstream : Upstream)
      (meanwhile : Manager R → Manager R) (later : ℕ → ℕ) (release_fails : Bool) (m : Manager R)
      (sent : ControlSent)
      → (handle_session_control_request dump R resolver r now upstream meanwhile later release_fails
          m).sent
        ≡ some sent
      → (sent.method ≡ r.method) × MaySend R r sent.session_id now m
  unfolding handle_session_control_request
  handle-MaySend resolver r now upstream meanwhile later release_fails m sent h =
      elim (either-cases (prepare resolver r)) [
        | inl (response, e) ↦ absurd (unfold after_prepare in ground (arith, e, h))
        | inr (to, e) ↦
            let (granted, given) = prepared_is_capable resolver r to e in
            let (same, method, g, entered) =
              after_prepare_sent r now upstream meanwhile later release_fails m to sent
                (ground (arith, e, h)) in
            let (free, unclaimed) = entered_is_free R r.user_identity to.0 now m g given entered in
            (
              method,
              rw same (record { granted = granted; not_owned = free; not_claimed = unclaimed }),
            )
      ]
