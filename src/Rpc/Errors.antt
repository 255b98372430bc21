-- ===== src/Rpc/Errors.antt =====
-- The errors of src/opencode_a2a/jsonrpc/error_responses.py, with the codes of
-- src/opencode_a2a/contracts/extensions.py, before they are adapted to a protocol version.
use opencode_a2a_serve.Base.Names.{
  ℕ, zero, suc, String, ◌<>◌, Bool, Option, none, some, List, [], ◌∷◌,
}
use opencode_a2a_serve.Base.Equality.{if◌then◌else◌}
use opencode_a2a_serve.Base.Int.{ℤ, pos, negsuc}
use opencode_a2a_serve.Base.Value.{
  Value, Items, Fields, null, int, str, array, nil, cons, end, field,
}

-- `InvalidParamsError` and `InternalError` are classes of the SDK with codes of their own.
pub data RpcError : Type 0 where
  jsonrpc_error : ℤ → String → Fields → RpcError
  invalid_params : String → Fields → RpcError
  internal_error : String → RpcError

-- `-n`
abbrev pub minus : ℕ → ℤ
minus n = elim n [ zero ↦ pos 0 | suc k ↦ negsuc k ]

-- `SESSION_QUERY_ERROR_BUSINESS_CODES`
abbrev pub session_not_found_code : ℤ
session_not_found_code = minus 32001

abbrev pub session_forbidden_code : ℤ
session_forbidden_code = minus 32006

abbrev pub authorization_forbidden_code : ℤ
authorization_forbidden_code = minus 32007

abbrev pub upstream_unreachable_code : ℤ
upstream_unreachable_code = minus 32002

abbrev pub upstream_http_error_code : ℤ
upstream_http_error_code = minus 32003

abbrev pub upstream_payload_error_code : ℤ
upstream_payload_error_code = minus 32005

-- `INTERRUPT_ERROR_BUSINESS_CODES`, which shares the codes of the upstream
abbrev pub interrupt_not_found_code : ℤ
interrupt_not_found_code = minus 32004

abbrev pub interrupt_expired_code : ℤ
interrupt_expired_code = minus 32007

abbrev pub interrupt_type_mismatch_code : ℤ
interrupt_type_mismatch_code = minus 32008

-- `if value is not None: data[key] = value`
unfoldable pub with_given : String → Option String → Fields → Fields
with_given key none rest = rest
with_given key (some value) rest = field key (str value) rest

abbrev pub str_or_null : Option String → Value
str_or_null none = null
str_or_null (some s) = str s

-- A list of texts
abbrev pub texts : List String → Items
texts [] = nil
texts (s ∷ rest) = cons (str s) (texts rest)

-- `{"type": "MISSING_FIELD", "field": field}`
unfoldable pub missing_field : String → String → RpcError
missing_field message name =
    invalid_params message (field "type" (str "MISSING_FIELD") (field "field" (str name) end))

-- `{"type": "INVALID_FIELD", "field": field}`
unfoldable pub invalid_field : String → String → RpcError
invalid_field message name =
    invalid_params message (field "type" (str "INVALID_FIELD") (field "field" (str name) end))

-- `{"type": "INVALID_FIELD", "fields": fields}`
unfoldable pub invalid_fields : String → List String → RpcError
invalid_fields message names =
    invalid_params message
      (field "type" (str "INVALID_FIELD") (field "fields" (array (texts names)) end))

unfoldable pub method_not_supported_error : String → List String → String → RpcError
method_not_supported_error method supported_methods protocol_version =
    jsonrpc_error (minus 32601) ("Unsupported method: " <> method) (
      field "type" (str "METHOD_NOT_SUPPORTED") (
        field "method" (str method) (
          field "supported_methods" (array (texts supported_methods))
            (field "protocol_version" (str protocol_version) end))))

unfoldable pub session_forbidden_error : ℤ → String → RpcError
session_forbidden_error code session_id =
    jsonrpc_error code "Session forbidden"
      (field "type" (str "SESSION_FORBIDDEN") (field "session_id" (str session_id) end))

unfoldable pub authorization_forbidden_error : ℤ → String → String → Option String → RpcError
unfolding with_given
authorization_forbidden_error code method capability credential_id =
    jsonrpc_error code "Authorization forbidden" (
      field "type" (str "AUTHORIZATION_FORBIDDEN") (
        field "method" (str method)
          (field "capability" (str capability) (with_given "credential_id" credential_id end))))

unfoldable pub session_not_found_error : ℤ → String → RpcError
session_not_found_error code session_id =
    jsonrpc_error code "Session not found"
      (field "type" (str "SESSION_NOT_FOUND") (field "session_id" (str session_id) end))

unfoldable pub interrupt_not_found_error : ℤ → String → Bool → RpcError
interrupt_not_found_error code request_id expired =
    jsonrpc_error code
      (if expired then "Interrupt request expired" else "Interrupt request not found")
      (field "type"
        (str (if expired then "INTERRUPT_REQUEST_EXPIRED" else "INTERRUPT_REQUEST_NOT_FOUND"))
        (field "request_id" (str request_id) end))

unfoldable pub interrupt_type_mismatch_error : ℤ → String → String → Option String → RpcError
interrupt_type_mismatch_error code request_id expected actual =
    jsonrpc_error code "Interrupt callback type mismatch" (
      field "type" (str "INTERRUPT_TYPE_MISMATCH") (
        field "request_id" (str request_id) (
          field "expected_interrupt_type" (str expected)
            (field "actual_interrupt_type" (str_or_null actual) end))))

-- The fields that every error of the upstream may name
pub record UpstreamCall : Type 0 where
  pub method : Option String
  pub session_id : Option String
  pub request_id : Option String

unfoldable pub upstream_http_error : ℤ → ℤ → UpstreamCall → Option String → RpcError
unfolding with_given
upstream_http_error code upstream_status call detail =
    jsonrpc_error code "Upstream OpenCode error" (
      field "type" (str "UPSTREAM_HTTP_ERROR") (
        field "upstream_status" (int upstream_status) (
          with_given "method" call.method (
            with_given "session_id" call.session_id
              (with_given "request_id" call.request_id (with_given "detail" detail end))))))

unfoldable pub upstream_unreachable_error : ℤ → UpstreamCall → Option String → RpcError
unfolding with_given
upstream_unreachable_error code call detail = jsonrpc_error code "Upstream OpenCode unreachable" (
    field "type" (str "UPSTREAM_UNREACHABLE") (
      with_given "method" call.method (
        with_given "session_id" call.session_id
          (with_given "request_id" call.request_id (with_given "detail" detail end)))))

unfoldable pub upstream_payload_error : ℤ → String → UpstreamCall → RpcError
unfolding with_given
upstream_payload_error code detail call = jsonrpc_error code "Upstream OpenCode payload mismatch" (
    field "type" (str "UPSTREAM_PAYLOAD_ERROR") (
      field "detail" (str detail) (
        with_given "method" call.method
          (with_given "session_id" call.session_id (with_given "request_id" call.request_id end)))))
