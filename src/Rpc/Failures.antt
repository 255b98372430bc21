-- ===== src/Rpc/Failures.antt =====
-- The responses to exceptions of the upstream, of src/opencode_a2a/jsonrpc/handlers/common.py.
use opencode_a2a_serve.Base.Names.{String, Option, none, some}
use opencode_a2a_serve.Base.Equality.{◌==◌, string_eq, if◌then◌else◌}
use opencode_a2a_serve.Base.Int.{ℤ, pos, negsuc}
use opencode_a2a_serve.Base.Equality.{nat_eq}
use opencode_a2a_serve.Rpc.Errors.{
  internal_error, UpstreamCall, upstream_http_error, upstream_unreachable_error,
  upstream_payload_error,
}
use opencode_a2a_serve.Rpc.Common.{RequestId, Response, error_response}

-- The exceptions that the handlers tell apart. A class of `httpx` stands before its own bases.
pub data Failure : Type 0 where
  http_status : ℤ → Failure
  http_error : Failure
  concurrency_limit : String → Failure
  contract_error value_error permission_error other_error : String → Failure

-- Which of the optional arguments of `build_upstream_exception_response` a caller gives
pub record Handling : Type 0 where
  pub http_error_code : ℤ
  pub unreachable_code : ℤ
  pub payload_error_code : Option ℤ
  pub on_not_found : Option Response
  pub on_permission_error : Option Response
  pub call : UpstreamCall

payload_response : RequestId → Handling → String → Response → Response
payload_response id h detail otherwise = elim h.payload_error_code [
  | none ↦ otherwise
  | some code ↦ error_response id (upstream_payload_error code detail h.call)
]

http_status_response : RequestId → Handling → ℤ → Response
http_status_response id h status =
    let reported = error_response id (upstream_http_error h.http_error_code status h.call none) in
    elim status [
      | pos n ↦
          if n == 404
          then (elim h.on_not_found [ none ↦ reported | some response ↦ response ])
          else reported
      | negsuc n ↦ reported
    ]

-- `build_upstream_exception_response`
unfoldable pub build_upstream_exception_response : RequestId → Handling → Failure → Response
unfolding payload_response http_status_response
build_upstream_exception_response id h (http_status status) = http_status_response id h status
build_upstream_exception_response id h http_error =
    error_response id (upstream_unreachable_error h.unreachable_code h.call none)
build_upstream_exception_response id h (concurrency_limit message) =
    error_response id (upstream_unreachable_error h.unreachable_code h.call (some message))
build_upstream_exception_response id h (contract_error message) =
    payload_response id h message (error_response id (internal_error message))
build_upstream_exception_response id h (value_error message) =
    payload_response id h message (error_response id (internal_error message))
build_upstream_exception_response id h (permission_error message) = elim h.on_permission_error [
  | none ↦ error_response id (internal_error message)
  | some response ↦ response
]
build_upstream_exception_response id h (other_error message) =
    error_response id (internal_error message)
