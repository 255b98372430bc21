-- ===== src/Stream/Errors.antt =====
-- Errors of the upstream: src/opencode_a2a/upstream_taxonomy.py, and the texts that
-- src/opencode_a2a/execution/upstream_error_translator.py makes of them.
pub mod Agreement
use opencode_a2a_serve.Base.Names.{
  ℕ, suc, String, ◌<>◌, Bool, true, false, ◌&&◌, not, Option, none, some,
}
use opencode_a2a_serve.Base.Equality.{◌==◌, string_eq, option_eq, nat_eq, if◌then◌else◌}
use opencode_a2a_serve.Base.Lists.{leb}
use opencode_a2a_serve.Base.Int.{ℤ, pos, negsuc}
use opencode_a2a_serve.Base.Text.{show, is_given, is_truthy}

-- The members of the SDK's `TaskState` that the streaming code names.
pub data TaskState : Type 0 where
  completed failed canceled auth_required input_required working : TaskState

-- An `int` in Python, which may be a `bool`.
pub data Status : Type 0 where
  number : ℤ → Status
  truth : Bool → Status

-- The status as an integer that is compared.
abbrev pub as_int : Status → ℤ
as_int (number n) = n
as_int (truth b) = if b then pos 1 else pos 0

-- `str(status)`
unfoldable pub show_status : Status → String
show_status (number (pos n)) = show n
show_status (number (negsuc n)) = "-" <> show (suc n)
show_status (truth b) = if b then "True" else "False"

pub record UpstreamHttpErrorProfile : Type 0 where
  pub error_type : String
  pub state : TaskState
  pub default_message : String

abbrev profile : String → TaskState → String → UpstreamHttpErrorProfile
profile e s m = record { error_type = e; state = s; default_message = m }

-- `_UPSTREAM_HTTP_ERROR_PROFILE_BY_STATUS.get(status)`
unfoldable pub profile_by_status : ℤ → Option UpstreamHttpErrorProfile
profile_by_status (negsuc n) = none
profile_by_status (pos n) =
    if n == 400
    then some
        (profile "UPSTREAM_BAD_REQUEST" failed "OpenCode rejected the request due to invalid input")
    else if n == 401
    then some (
        profile "UPSTREAM_UNAUTHORIZED" auth_required
          "OpenCode rejected the request due to authentication failure")
    else if n == 403
    then some (
        profile "UPSTREAM_PERMISSION_DENIED" failed
          "OpenCode rejected the request due to insufficient permissions")
    else if n == 404
    then some (
        profile "UPSTREAM_RESOURCE_NOT_FOUND" failed
          "OpenCode rejected the request because the target resource was not found")
    else if n == 429
    then some (
        profile "UPSTREAM_QUOTA_EXCEEDED" failed
          "OpenCode rejected the request due to quota limits")
    else none

-- `status >= n`
abbrev pub at_least : ℕ → ℤ → Bool
at_least n (pos k) = leb n k
at_least n (negsuc k) = false

-- `resolve_upstream_http_error_profile`
unfoldable pub resolve_upstream_http_error_profile : Status → UpstreamHttpErrorProfile
resolve_upstream_http_error_profile status = elim (profile_by_status (as_int status)) [
  | some known ↦ known
  | none ↦
      if at_least 400 (as_int status) && not (at_least 500 (as_int status))
      then profile "UPSTREAM_CLIENT_ERROR" failed
          ("OpenCode rejected the request with client error " <> show_status status)
      else if at_least 500 (as_int status)
      then profile "UPSTREAM_SERVER_ERROR" failed
          ("OpenCode rejected the request with server error " <> show_status status)
      else profile "UPSTREAM_HTTP_ERROR" failed
          ("OpenCode rejected the request with HTTP status " <> show_status status)
]

pub record StreamTerminalSignal : Type 0 where
  pub state : TaskState
  pub error_type : Option String
  pub message : Option String
  pub upstream_status : Option Status

pub record UpstreamInBandError : Type 0 where
  pub error_type : String
  pub state : TaskState
  pub message : String
  pub upstream_status : Option Status

-- The text in parentheses: `(source, status=..., detail=...)`, with a detail that is not empty
abbrev pub with_detail : String → Option String → String
with_detail head detail = elim detail [
  | none ↦ head <> ")."
  | some d ↦ if is_truthy d then head <> ", detail=" <> d <> ")." else head <> ")."
]

-- The message of an error without a status or a known name
unfoldable pub execution_failed : String → Option String → Option String → String
execution_failed source detail error_name =
    if is_given detail
    then with_detail ("OpenCode execution failed (" <> source) detail
    else elim error_name [
      | none ↦ "OpenCode execution failed (" <> source <> ")."
      | some n ↦
          if is_truthy n
          then "OpenCode execution failed (" <> source <> ", error=" <> n <> ")."
          else "OpenCode execution failed (" <> source <> ")."
    ]

-- `_format_inband_upstream_error`
unfoldable pub format_inband_upstream_error :
    String → Option String → Option Status → Option String → UpstreamInBandError
unfolding execution_failed
format_inband_upstream_error source detail (some status) error_name =
    let p = resolve_upstream_http_error_profile status in
    record {
      error_type = p.error_type;
      state = p.state;
      message =
          with_detail (p.default_message <> " (" <> source <> ", status=" <> show_status status)
            detail;
      upstream_status = some status;
    }
format_inband_upstream_error source detail none error_name =
    if error_name == some "ProviderAuthError"
    then record {
      error_type = "UPSTREAM_UNAUTHORIZED";
      state = auth_required;
      message =
          with_detail ("OpenCode rejected the request due to authentication failure (" <> source)
            detail;
      upstream_status = none;
    }
    else record {
      error_type = "UPSTREAM_EXECUTION_ERROR";
      state = failed;
      message = execution_failed source detail error_name;
      upstream_status = none;
    }

-- `_format_stream_terminal_error`
unfoldable pub format_stream_terminal_error :
    Option String → Option Status → Option String → StreamTerminalSignal
unfolding execution_failed
format_stream_terminal_error detail (some status) error_name =
    let p = resolve_upstream_http_error_profile status in
    record {
      state = p.state;
      error_type = some p.error_type;
      message = some (
          with_detail (p.default_message <> " (session.error, status=" <> show_status status)
            detail);
      upstream_status = some status;
    }
format_stream_terminal_error detail none error_name =
    if error_name == some "ProviderAuthError"
    then record {
      state = auth_required;
      error_type = some "UPSTREAM_UNAUTHORIZED";
      message = some (
          with_detail "OpenCode rejected the request due to authentication failure (session.error"
            detail);
      upstream_status = none;
    }
    else record {
      state = failed;
      error_type = some "UPSTREAM_EXECUTION_ERROR";
      message = some (execution_failed "session.error" detail error_name);
      upstream_status = none;
    }
