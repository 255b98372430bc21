-- ===== src/Rpc/SessionControl.antt =====
-- `handle_session_control_request` of src/opencode_a2a/jsonrpc/handlers/session_control.py, with
-- `request_has_capability` of src/opencode_a2a/auth.py. Its audit log is left out.
pub mod Laws
pub mod Tests
use opencode_a2a_serve.Base.Names.{
  ℕ, String, ◌<>◌, Bool, true, false, not, ◌&&◌, Option, none, some, List, [], ◌∷◌, ◌⊎◌, inl, inr,
}
use opencode_a2a_serve.Base.Equality.{◌==◌, string_eq, contains, if◌then◌else◌}
use opencode_a2a_serve.Base.Text.{is_truthy, strip, lower}
use opencode_a2a_serve.Base.Value.{
  Value, Items, Fields, null, bool, str, array, dict, nil, cons, end, field, get,
}
use opencode_a2a_serve.Sessions.Repository.{SessionRepository}
use opencode_a2a_serve.Sessions.Manager.{Manager}
use opencode_a2a_serve.Rpc.Errors.{
  missing_field, invalid_field, session_not_found_code, session_forbidden_code,
  authorization_forbidden_code, upstream_unreachable_code, upstream_http_error_code,
  upstream_payload_error_code, session_not_found_error, session_forbidden_error,
  authorization_forbidden_error,
}
use opencode_a2a_serve.Rpc.Common.{
  RequestId, Response, error_response, Checked, ◌>>=◌, build_success_response,
  reject_unknown_fields,
}
use opencode_a2a_serve.Rpc.Failures.{
  Failure, contract_error, Handling, build_upstream_exception_response,
}
use opencode_a2a_serve.Rpc.Metadata.{Resolved, Routing, resolve_routing_context}
use opencode_a2a_serve.Rpc.Validation.Parts.{Valid, valid, faulty}
use opencode_a2a_serve.Rpc.Validation.{
  validate_prompt_async_request_payload, validate_command_request_payload,
  validate_shell_request_payload,
}
use opencode_a2a_serve.Rpc.ClaimGuard.{SessionClaimGuard, new_guard, enter, guarded}
use opencode_a2a_serve.Rpc.Messages.{A2aMessage, as_a2a_message}

pub data ControlMethod : Type 0 where
  prompt_async command shell : ControlMethod

-- A request with what the authentication wrote on `request.state`. `capabilities` is none without an
-- authenticated principal. `name` is the name of the method in the contract.
pub record ControlRequest : Type 0 where
  pub id : RequestId
  pub method : ControlMethod
  pub name : String
  pub params : Fields
  pub user_identity : Option String
  pub user_credential_id : Option String
  pub capabilities : Option (List String)

-- What is sent to the upstream
pub record ControlSent : Type 0 where
  pub method : ControlMethod
  pub session_id : String
  pub request : Fields
  pub routing : Routing

pub record ControlHandled (R : SessionRepository) : Type 0 where
  pub response : Response
  pub sent : Option ControlSent
  pub manager : Manager R

-- `request_has_capability`
unfoldable pub request_has_capability : ControlRequest → String → Bool
request_has_capability r capability = elim r.capabilities [
  | none ↦ false
  | some granted ↦ contains granted capability
]

-- `base_request.method == context.method_shell`
abbrev pub is_shell : ControlMethod → Bool
is_shell prompt_async = false
is_shell command = false
is_shell shell = true

session_id_in : RequestId → Value → Checked String
session_id_in id (str session_id) =
    if is_truthy (strip session_id)
    then inr (strip session_id)
    else inl (error_response id (missing_field "Missing required params.session_id" "session_id"))
session_id_in id _ =
    inl (error_response id (missing_field "Missing required params.session_id" "session_id"))

request_in : RequestId → Value → Checked Fields
request_in id null =
    inl (error_response id (missing_field "Missing required params.request" "request"))
request_in id (dict raw_request) = inr raw_request
request_in id _ =
    inl (error_response id (invalid_field "params.request must be an object" "request"))

-- The check of the capability for the shell
unfoldable pub check_capability : ControlRequest → Checked (Unit {0})
check_capability r =
    if is_shell r.method && not (request_has_capability r "session_shell")
    then inl (
        error_response r.id (
          authorization_forbidden_error authorization_forbidden_code r.name "session_shell"
            r.user_credential_id))
    else inr tt

validate_payload : ControlMethod → Fields → Valid
validate_payload prompt_async value = validate_prompt_async_request_payload value
validate_payload command value = validate_command_request_payload value
validate_payload shell value = validate_shell_request_payload value

check_valid : RequestId → Valid → Checked (Unit {0})
check_valid id valid = inr tt
check_valid id (faulty name message) = inl (error_response id (invalid_field message name))

-- What stands before the session is claimed: the session, the payload and where it goes
unfoldable pub prepare :
    (Option String → Resolved) → ControlRequest → Checked (String × Fields × Routing)
unfolding session_id_in request_in validate_payload check_valid
prepare resolver r = do
  u ←
      reject_unknown_fields r.id r.params ("session_id" ∷ "request" ∷ "metadata" ∷ []) ""
        "Unsupported fields"
  session_id ← session_id_in r.id (get "session_id" r.params)
  raw_request ← request_in r.id (get "request" r.params)
  u ← check_capability r
  u ← check_valid r.id (validate_payload r.method raw_request)
  routing ← resolve_routing_context resolver r.id r.params none
  inr (session_id, raw_request, routing)

-- The exception of the upstream, or the value that it gives
pub data Upstream : Type 0 where
  returned : Value → Upstream
  raised : Failure → Upstream

-- `model_dump` of the SDK is the argument `dump`.
module _ (dump : A2aMessage → Value) where
  item_of : String → Option A2aMessage → Failure ⊎ Fields
  item_of path none = inl (
      contract_error (
        "OpenCode /session/{sessionID}/" <> path <> " response could not be mapped to A2A Message"))
  item_of path (some m) = inr (field "item" (dump m) end)

  -- What the body of the guarded block makes of the upstream's answer
  unfoldable pub control_result : ControlMethod → String → Upstream → Failure ⊎ Fields
  unfolding item_of
  control_result method session_id (raised failure) = inl failure
  control_result prompt_async session_id (returned value) =
      inr (field "ok" (bool true) (field "session_id" (str session_id) end))
  control_result command session_id (returned value) =
      item_of "command" (as_a2a_message session_id value)
  control_result shell session_id (returned value) =
      item_of "shell" (as_a2a_message session_id value)

  failure_in : Failure ⊎ Fields → Option Failure
  failure_in (inl failure) = some failure
  failure_in (inr result) = none

  handling : ControlRequest → String → Handling
  handling r session_id = record {
    http_error_code = upstream_http_error_code;
    unreachable_code = upstream_unreachable_code;
    payload_error_code = some upstream_payload_error_code;
    on_not_found =
        some (error_response r.id (session_not_found_error session_not_found_code session_id));
    on_permission_error =
        some (error_response r.id (session_forbidden_error session_forbidden_code session_id));
    call = record { method = some r.name; session_id = some session_id; request_id = none };
  }

  -- The response once the guarded block is left
  unfoldable pub control_response :
      ControlRequest → String → Failure ⊎ Fields → Option Failure → Response
  unfolding handling
  control_response r session_id body (some failure) =
      build_upstream_exception_response r.id (handling r session_id) failure
  control_response r session_id (inr result) none = build_success_response r.id result
  control_response r session_id (inl failure) none =
      build_upstream_exception_response r.id (handling r session_id) failure

  module _ (R : SessionRepository) where
    -- The upstream is asked once the claim did not fail.
    asked : ControlSent → Failure ⊎ SessionClaimGuard → Option ControlSent
    asked sent (inl failure) = none
    asked sent (inr g) = some sent

    after_prepare :
        ControlRequest
        → (ℕ → ℕ)
        → Upstream
        → (Manager R → Manager R)
        → (ℕ → ℕ)
        → Bool
        → Manager R
        → Checked (String × Fields × Routing)
        → ControlHandled R
    unfolding asked failure_in
    after_prepare r now upstream meanwhile later release_fails m (inl response) = record {
      response = response;
      sent = none;
      manager = m;
    }
    after_prepare r now upstream meanwhile later release_fails m
          (inr (session_id, raw_request, routing)) =
        let g = new_guard r.user_identity (some session_id) in
        let body = control_result r.method session_id upstream in
        let (outcome, g', m') = guarded R g now (failure_in body) meanwhile later release_fails m in
        record {
          response = control_response r session_id body outcome;
          sent =
              asked
                (record {
                  method = r.method;
                  session_id = session_id;
                  request = raw_request;
                  routing = routing;
                })
                (enter R g now m).0;
          manager = m';
        }

    -- `handle_session_control_request`. `upstream` answers if it is asked, `meanwhile` is what other
    -- requests do to the manager until then, `now` and `later` are clock
    -- readings, and `release_fails` says whether a release of the claim would raise.
    unfoldable pub handle_session_control_request :
        (Option String → Resolved)
        → ControlRequest
        → (ℕ → ℕ)
        → Upstream
        → (Manager R → Manager R)
        → (ℕ → ℕ)
        → Bool
        → Manager R
        → ControlHandled R
    unfolding after_prepare
    handle_session_control_request resolver r now upstream meanwhile later release_fails m =
        after_prepare r now upstream meanwhile later release_fails m (prepare resolver r)
