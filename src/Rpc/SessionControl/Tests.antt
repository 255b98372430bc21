-- ===== src/Rpc/SessionControl/Tests.antt =====
-- src/opencode_a2a/jsonrpc/handlers/session_control.py with a prompt of "ann" on a small database.
use opencode_a2a_serve.Base.Names.{
  ℕ, true, false, ◌+◌, String, Option, none, some, [], ◌∷◌, ◌≡◌, refl, arith,
}
use opencode_a2a_serve.Base.Equality.{string_eq, nat_eq, option_eq}
use opencode_a2a_serve.Base.Int.{pos}
use opencode_a2a_serve.Base.Dict.{lookup}
use opencode_a2a_serve.Base.Sort.{sorted, insert_sorted}
use opencode_a2a_serve.Base.Text.{strip}
use opencode_a2a_serve.Base.Value.{Value, Fields, null, str, array, dict, nil, end, field, get}
use opencode_a2a_serve.Tables.{delete_where}
use opencode_a2a_serve.Sessions.Database.{
  DatabaseSessions, database_repository, get_owner, get_pending_claim, prune_expired_pending_claims,
}
use opencode_a2a_serve.Sessions.Claims.DatabaseClaims.{
  IsTable, database_claim_ttl, database_claim, database_repository-HasClaims,
}
use opencode_a2a_serve.Sessions.Manager.{Manager, claimed, claim_preferred_session}
use opencode_a2a_serve.Rpc.Common.{text_id, reject_unknown_fields, unknown_names}
use opencode_a2a_serve.Rpc.Failures.{http_error}
use opencode_a2a_serve.Rpc.Metadata.{
  Resolved, resolved, to_directory, resolve_routing_context, resolve_directory,
  extract_directory_from_metadata, extract_workspace_id_from_metadata, parse_metadata_objects,
}
use opencode_a2a_serve.Rpc.Validation.Parts.{
  validate_optional_model, validate_parts_array, validate_parts_from,
}
use opencode_a2a_serve.Rpc.Validation.{
  validate_prompt_async_request_payload, validate_allowed_request_fields,
  validate_optional_message_id, validate_optional_string_fields,
}
use opencode_a2a_serve.Rpc.ClaimGuard.{new_guard, enter, after_enter, guarded}
use opencode_a2a_serve.Rpc.ClaimGuard.Settled.{IsSettled, guarded-IsSettled}
use opencode_a2a_serve.Rpc.SessionControl.{
  ControlRequest, ControlSent, prompt_async, returned, prepare, check_capability,
  handle_session_control_request,
}
use opencode_a2a_serve.Rpc.Messages.{A2aMessage}
use opencode_a2a_serve.Rpc.SessionControl.Laws.{MaySend, handle-MaySend}

abbrev state : DatabaseSessions
state = record {
  session_bindings = [];
  session_owners = ("s1", "ann") ∷ [];
  pending_session_claims = [];
  pending_claim_ttl_seconds = pos 30;
}

abbrev manager : Manager database_repository
manager = record { state_repository = state; inflight_session_creates = []; next_task = 0 }

abbrev clock : ℕ → ℕ → ℕ
clock start k = start + k

state-IsTable : IsTable state
unfolding lookup
state-IsTable = record { positive = omega arith; nodup = tt }

ann_claims :
    (claim_preferred_session database_repository "ann" "s2" (clock 0) manager).0 ≡ claimed true
unfolding claim_preferred_session get_owner get_pending_claim prune_expired_pending_claims
    delete_where lookup string_eq option_eq
ann_claims = refl

-- The upstream fails, and the release of the claim does not.
guarded-IsSettled_example :
    IsSettled database_repository IsTable database_claim_ttl database_claim
      database_repository-HasClaims "ann" "s2" false
      (guarded database_repository
        (new_guard (some "ann") (some "s2"))
        (clock 0)
        (some http_error)
        (λ m. m)
        (clock 9)
        false
        manager)
guarded-IsSettled_example =
    guarded-IsSettled database_repository IsTable database_claim_ttl database_claim
      database_repository-HasClaims "ann" "s2" refl refl (λ m. m) (λ m v. v) (some http_error)
      (clock 0) (clock 9) false manager state-IsTable ann_claims

abbrev payload : Fields
payload = field "parts" (array nil) end

abbrev prompt : ControlRequest
prompt = record {
  id = text_id "1";
  method = prompt_async;
  name = "opencode.sessions.prompt_async";
  params = field "session_id" (str " s2") (field "request" (dict payload) end);
  user_identity = some "ann";
  user_credential_id = none;
  capabilities = none;
}

abbrev resolver : Option String → Resolved
resolver directory = resolved (some "/work")

abbrev sent : ControlSent
sent = record {
  method = prompt_async;
  session_id = "s2";
  request = payload;
  routing = to_directory (some "/work");
}

abbrev dump : A2aMessage → Value
dump m = null

prompts :
    (handle_session_control_request dump database_repository resolver prompt
      (clock 0)
      (returned null)
      (λ m. m)
      (clock 9)
      false
      manager).sent
    ≡ some sent
unfolding handle_session_control_request prepare check_capability enter after_enter
    claim_preferred_session get_owner get_pending_claim reject_unknown_fields unknown_names
    resolve_routing_context resolve_directory extract_directory_from_metadata
    extract_workspace_id_from_metadata parse_metadata_objects get strip sorted insert_sorted lookup
    string_eq option_eq validate_prompt_async_request_payload validate_allowed_request_fields
    validate_optional_message_id validate_optional_string_fields validate_optional_model
    validate_parts_array validate_parts_from prune_expired_pending_claims delete_where
prompts = refl

handle-MaySend_example :
    (sent.method ≡ prompt.method) × MaySend database_repository prompt "s2" (clock 0) manager
handle-MaySend_example =
    handle-MaySend dump database_repository resolver prompt (clock 0) (returned null) (λ m. m)
      (clock 9) false manager sent prompts
