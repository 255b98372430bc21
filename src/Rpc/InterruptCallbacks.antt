-- ===== src/Rpc/InterruptCallbacks.antt =====
-- `handle_interrupt_callback_request` of src/opencode_a2a/jsonrpc/handlers/interrupt_callbacks.py, with
-- the methods of src/opencode_a2a/opencode_upstream_client.py that look a request up. That client has
-- `resolve_interrupt_request` and `discard_interrupt_request`, so the branches for a client without
-- them are not entered.
pub mod Laws
use opencode_a2a_serve.Base.Names.{
  ℕ, String, Bool, true, false, not, ◌&&◌, Option, none, some, List, [], ◌∷◌, ◌⊎◌, inl, inr,
}
use opencode_a2a_serve.Base.Equality.{◌==◌, string_eq, nat_eq, option_eq, if◌then◌else◌}
use opencode_a2a_serve.Base.Int.{ℤ, pos, negsuc}
use opencode_a2a_serve.Base.Text.{is_truthy, is_given, strip}
use opencode_a2a_serve.Base.Value.{Value, Fields, null, bool, str, end, field, get}
use opencode_a2a_serve.Interrupts.Contract.{
  InterruptRequestBinding, RequestStatus, active, expired, missing, InterruptRepository,
}
use opencode_a2a_serve.Rpc.Errors.{
  invalid_params, missing_field, interrupt_not_found_code, interrupt_expired_code,
  interrupt_type_mismatch_code, upstream_unreachable_code, upstream_http_error_code,
  interrupt_not_found_error, interrupt_type_mismatch_error,
}
use opencode_a2a_serve.Rpc.Common.{
  RequestId, Response, error_response, Checked, ◌>>=◌, build_success_response,
  reject_unknown_fields,
}
use opencode_a2a_serve.Rpc.Failures.{
  Failure, http_status, value_error, Handling, build_upstream_exception_response,
}
use opencode_a2a_serve.Rpc.Metadata.{
  extract_directory_from_metadata, extract_workspace_id_from_metadata,
}
use opencode_a2a_serve.Rpc.Methods.{
  Parsed, parsed, invalid, normalize_permission_reply, parse_question_answers,
}

-- The methods that are routed to the handler
pub data CallbackMethod : Type 0 where
  reply_permission reply_question reject_question : CallbackMethod

-- A JSON-RPC request with what the authentication wrote on `request.state`, where a value that is no
-- text is `none`
pub record CallbackRequest : Type 0 where
  pub id : RequestId
  pub method : CallbackMethod
  pub params : Fields
  pub user_identity : Option String
  pub user_credential_id : Option String

-- What is sent to the upstream about a request: the reply, with the directory and the workspace
pub data Reply : Type 0 where
  permission_reply : String → Option String → Reply
  question_reply : List (List String) → Reply
  question_reject : Reply

pub record Sent : Type 0 where
  pub request_id : String
  pub reply : Reply
  pub directory : Option String
  pub workspace_id : Option String

-- The upstream's answer
pub data Outcome : Type 0 where
  accepted : Outcome
  raised : Failure → Outcome

-- What a call of the handler leaves behind
pub record Handled (State : Type 0) : Type 0 where
  pub response : Response
  pub sent : Option Sent
  pub state : State

abbrev pub expected_interrupt_type : CallbackMethod → String
expected_interrupt_type reply_permission = "permission"
expected_interrupt_type reply_question = "question"
expected_interrupt_type reject_question = "question"

allowed_fields : CallbackMethod → List String
allowed_fields reply_permission = "request_id" ∷ "reply" ∷ "message" ∷ "metadata" ∷ []
allowed_fields reply_question = "request_id" ∷ "answers" ∷ "metadata" ∷ []
allowed_fields reject_question = "request_id" ∷ "metadata" ∷ []

-- `isinstance(mine, str) and mine and theirs and theirs != mine`
abbrev pub is_of_another : Option String → Option String → Bool
is_of_another mine theirs = is_given mine && is_given theirs && not (theirs == mine)

not_found : RequestId → String → Response
not_found id request_id =
    error_response id (interrupt_not_found_error interrupt_not_found_code request_id false)

-- The checks on the request that was found
unfoldable pub check_binding :
    CallbackRequest
    → String
    → RequestStatus × Option InterruptRequestBinding
    → Checked InterruptRequestBinding
unfolding not_found
check_binding r request_id (expired, _) =
    inl (error_response r.id (interrupt_not_found_error interrupt_expired_code request_id true))
check_binding r request_id (missing, _) = inl (not_found r.id request_id)
check_binding r request_id (active, none) = inl (not_found r.id request_id)
check_binding r request_id (active, some binding) =
    if not (binding.interrupt_type == some (expected_interrupt_type r.method))
    then inl (
        error_response r.id (
          interrupt_type_mismatch_error interrupt_type_mismatch_code request_id
            (expected_interrupt_type r.method) binding.interrupt_type))
    else if is_of_another r.user_identity binding.identity
    then inl (not_found r.id request_id)
    else if is_of_another r.user_credential_id binding.credential_id
    then inl (not_found r.id request_id)
    else inr binding

-- `message is not None and not isinstance(message, str)`
message_of : Value → Parsed (Option String)
message_of null = parsed none
message_of (str message) = parsed (some message)
message_of _ = invalid "message must be a string"

with_reply : Parsed String → Parsed (Option String) → Parsed Reply
with_reply (parsed reply) (parsed message) = parsed (permission_reply reply message)
with_reply (parsed reply) (invalid e) = invalid e
with_reply (invalid e) message = invalid e

with_answers : Parsed (List (List String)) → Parsed Reply
with_answers (parsed answers) = parsed (question_reply answers)
with_answers (invalid e) = invalid e

-- The reply that the parameters ask for, parsed in the order of the handler
unfoldable pub reply_of : CallbackMethod → Fields → Parsed Reply
unfolding message_of with_reply with_answers
reply_of reply_permission params =
    with_reply (normalize_permission_reply (get "reply" params)) (message_of (get "message" params))
reply_of reply_question params = with_answers (parse_question_answers (get "answers" params))
reply_of reject_question params = parsed question_reject

-- `params.request_id`, stripped
requested : RequestId → Value → Checked String
requested id (str request_id) =
    if is_truthy (strip request_id)
    then inr (strip request_id)
    else inl (error_response id (missing_field "Missing required params.request_id" "request_id"))
requested id _ =
    inl (error_response id (missing_field "Missing required params.request_id" "request_id"))

-- What stands before the request is looked up: its id, and where the reply goes
unfoldable pub address : CallbackRequest → Checked (String × Option String × Option String)
unfolding requested
address r = do
  request_id ← requested r.id (get "request_id" r.params)
  directory ← extract_directory_from_metadata r.id r.params
  workspace_id ← extract_workspace_id_from_metadata r.id r.params
  inr (request_id, directory, workspace_id)

handling : String → Handling
handling request_id = record {
  http_error_code = upstream_http_error_code;
  unreachable_code = upstream_unreachable_code;
  payload_error_code = none;
  on_not_found = none;
  on_permission_error = none;
  call = record { method = none; session_id = none; request_id = some request_id };
}

success_fields : String → Fields
success_fields request_id = field "ok" (bool true) (field "request_id" (str request_id) end)

abbrev pub is_not_found : Failure → Bool
is_not_found (http_status (pos n)) = n == 404
is_not_found _ = false

-- The response to a failure of the upstream
unfoldable pub failure_response : RequestId → String → Failure → Response
unfolding handling not_found
failure_response id request_id (value_error message) =
    error_response id (invalid_params message (field "type" (str "INVALID_FIELD") end))
failure_response id request_id failure =
    if is_not_found failure
    then not_found id request_id
    else build_upstream_exception_response id (handling request_id) failure

module _ (R : InterruptRepository) where
  -- `resolve_interrupt_request` of the client, at a clock reading
  unfoldable pub resolve_interrupt_request :
      String → ℕ → R.State → (RequestStatus × Option InterruptRequestBinding) × R.State
  resolve_interrupt_request request_id now st =
      if is_truthy (strip request_id)
      then R.resolve (strip request_id) now st
      else ((missing, none), st)

  -- `discard_interrupt_request`
  unfoldable pub discard_interrupt_request : String → R.State → R.State
  discard_interrupt_request request_id st =
      if is_truthy (strip request_id) then R.discard (strip request_id) st else st

  -- The `try` block after the reply was sent, and its handlers
  unfoldable pub conclude : RequestId → Sent → Outcome → R.State → Handled R.State
  unfolding success_fields
  conclude id sent accepted st = record {
    response = build_success_response id (success_fields sent.request_id);
    sent = some sent;
    state = discard_interrupt_request sent.request_id st;
  }
  conclude id sent (raised failure) st = record {
    response = failure_response id sent.request_id failure;
    sent = some sent;
    state = if is_not_found failure then discard_interrupt_request sent.request_id st else st;
  }

  stopped : Response → R.State → Handled R.State
  stopped response st = record { response = response; sent = none; state = st }

  -- The `try` block
  unfoldable pub answer :
      CallbackRequest
      → String × Option String × Option String
      → Parsed Reply
      → Outcome
      → (R.State → R.State)
      → R.State
      → Handled R.State
  unfolding stopped
  answer r (request_id, directory, workspace_id) (invalid message) outcome meanwhile st =
      stopped (failure_response r.id request_id (value_error message)) st
  answer r (request_id, directory, workspace_id) (parsed reply) outcome meanwhile st =
      conclude r.id
        (record {
          request_id = request_id;
          reply = reply;
          directory = directory;
          workspace_id = workspace_id;
        })
        outcome (meanwhile st)

  -- The handler from its last check on
  after_checks :
      CallbackRequest
      → String × Option String × Option String
      → Outcome
      → (R.State → R.State)
      → R.State
      → Checked (Unit {0})
      → Handled R.State
  unfolding stopped
  after_checks r to outcome meanwhile st (inl response) = stopped response st
  after_checks r to outcome meanwhile st (inr _) =
      answer r to (reply_of r.method r.params) outcome meanwhile st

  -- Once the request is looked up
  unfoldable pub check_and_answer :
      CallbackRequest
      → String × Option String × Option String
      → (RequestStatus × Option InterruptRequestBinding) × R.State
      → Outcome
      → (R.State → R.State)
      → Handled R.State
  unfolding after_checks allowed_fields
  check_and_answer r to (found, st) outcome meanwhile = after_checks r to outcome meanwhile st (
      check_binding r to.0 found >>= λ binding.
      reject_unknown_fields r.id r.params (allowed_fields r.method) "" "Unsupported fields")

  -- The handler once it knows what is asked for, and where the reply goes
  after_address :
      CallbackRequest
      → ℕ
      → Outcome
      → (R.State → R.State)
      → R.State
      → Checked (String × Option String × Option String)
      → Handled R.State
  unfolding stopped
  after_address r now outcome meanwhile st (inl response) = stopped response st
  after_address r now outcome meanwhile st (inr to) =
      check_and_answer r to (resolve_interrupt_request to.0 now st) outcome meanwhile

  -- `handle_interrupt_callback_request`. `outcome` is the upstream's answer, if it is asked, and
  -- `meanwhile` is what other calls do to the repository until it comes.
  unfoldable pub handle_interrupt_callback_request :
      CallbackRequest → ℕ → Outcome → (R.State → R.State) → R.State → Handled R.State
  unfolding after_address
  handle_interrupt_callback_request r now outcome meanwhile st =
      after_address r now outcome meanwhile st (address r)
