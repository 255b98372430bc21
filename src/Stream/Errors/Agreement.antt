-- ===== src/Stream/Errors/Agreement.antt =====
-- The two translations of an upstream error in
-- src/opencode_a2a/execution/upstream_error_translator.py.
use text.Mathlib.TextLemmas.{append_assoc}
use opencode_a2a_serve.Base.Names.{
  String, ◌<>◌, Option, none, some, ◌≡◌, ◌↔◌, refl, sym, ap, arith, ◌∙◌, inl, inr,
}
use opencode_a2a_serve.Base.Equality.{◌==◌, string_eq, option_eq, nat_eq, Bool-cases}
use opencode_a2a_serve.Base.Int.{pos}
use opencode_a2a_serve.Stream.Errors.{
  auth_required, Status, as_int, show_status, profile_by_status,
  resolve_upstream_http_error_profile, with_detail, format_inband_upstream_error,
  format_stream_terminal_error,
}

join : (a b c x : String) → a <> (b <> (c <> x)) ≡ ((a <> b) <> c) <> x
join a b c x = sym (append_assoc a b (c <> x)) ∙ sym (append_assoc (a <> b) c x)

-- A terminal signal and an in-band error of a `session.error` say the same: the state, the type of
-- error, the message and the status.
pub format_stream_terminal_error-eq-inband :
    (detail error_name : Option String) (status : Option Status)
    → let signal = format_stream_terminal_error detail status error_name in
      let error = format_inband_upstream_error "session.error" detail status error_name in
      (signal.state ≡ error.state)
      × (signal.error_type ≡ some error.error_type)
      × (signal.message ≡ some error.message)
      × (signal.upstream_status ≡ error.upstream_status)
unfolding format_stream_terminal_error format_inband_upstream_error
format_stream_terminal_error-eq-inband detail error_name (some status) = (
  refl,
  refl,
  ap
      (λ (head : String).
        some (
          with_detail ((resolve_upstream_http_error_profile status).default_message <> head)
            detail))
      (sym (join " (" "session.error" ", status=" (show_status status))),
  refl,
)
format_stream_terminal_error-eq-inband detail error_name none =
    elim (Bool-cases (error_name == some "ProviderAuthError")) [
      | inl auth ↦ rw auth (refl, refl, refl, refl)
      | inr other ↦ rw other (refl, refl, refl, refl)
    ]

-- A task waits for credentials exactly if the status of the upstream is 401.
pub resolve_upstream_http_error_profile_iff :
    (status : Status)
    → ((resolve_upstream_http_error_profile status).state ≡ auth_required)
      ↔ (as_int status ≡ pos 401)
unfolding resolve_upstream_http_error_profile profile_by_status
resolve_upstream_http_error_profile_iff status = ground arith
