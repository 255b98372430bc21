-- ===== src/Rpc/ClaimGuard.antt =====
-- `SessionClaimGuard` of src/opencode_a2a/jsonrpc/handlers/common.py over the session manager, whose
-- methods src/opencode_a2a/server/application.py passes to the handlers.
pub mod Settled
use opencode_a2a_serve.Base.Names.{
  ℕ, String, ◌<>◌, Bool, true, false, not, ◌&&◌, Option, none, some, ◌⊎◌, inl, inr,
}
use opencode_a2a_serve.Base.Equality.{if◌then◌else◌}
use opencode_a2a_serve.Base.Text.{is_given}
use opencode_a2a_serve.Sessions.Repository.{SessionRepository}
use opencode_a2a_serve.Sessions.Manager.{
  Manager, Claim, claimed, denied, claim_preferred_session, finalize_session_claim,
  release_preferred_session_claim,
}
use opencode_a2a_serve.Rpc.Failures.{Failure, permission_error}

pub record SessionClaimGuard : Type 0 where
  pub identity : Option String
  pub session_id : Option String
  pub is_pending : Bool
  pub is_finalized : Bool

-- `__init__`
abbrev pub new_guard : Option String → Option String → SessionClaimGuard
new_guard identity session_id = record {
  identity = identity;
  session_id = session_id;
  is_pending = false;
  is_finalized = false;
}

-- The text of a text that may be none
abbrev pub text_of : Option String → String
text_of none = ""
text_of (some s) = s

abbrev pub not_owned : String → Failure
not_owned session_id = permission_error ("Session " <> session_id <> " is not owned by you")

-- `self._pending and not self._finalized and self._identity and self._session_id`
abbrev pub is_open : SessionClaimGuard → Bool
is_open g = g.is_pending && not g.is_finalized && is_given g.identity && is_given g.session_id

module _ (R : SessionRepository) where
  unfoldable pub after_enter :
      SessionClaimGuard → Claim × Manager R → (Failure ⊎ SessionClaimGuard) × Manager R
  after_enter g (claimed pending, m) = (inr (record g { is_pending = pending }), m)
  after_enter g (denied s, m) = (inl (not_owned s), m)

  -- `__aenter__`
  unfoldable pub enter :
      SessionClaimGuard → (ℕ → ℕ) → Manager R → (Failure ⊎ SessionClaimGuard) × Manager R
  unfolding after_enter
  enter g now m =
      if is_given g.identity && is_given g.session_id
      then after_enter g
          (claim_preferred_session R (text_of g.identity) (text_of g.session_id) now m)
      else (inr g, m)

  after_finalize :
      SessionClaimGuard → Claim × Manager R → Option Failure × SessionClaimGuard × Manager R
  after_finalize g (claimed _, m) = (none, record g { is_finalized = true }, m)
  after_finalize g (denied s, m) = (some (not_owned s), g, m)

  -- `finalize`
  unfoldable pub finalize :
      SessionClaimGuard → (ℕ → ℕ) → Manager R → Option Failure × SessionClaimGuard × Manager R
  unfolding after_finalize
  finalize g now m =
      if is_open g
      then after_finalize g
          (finalize_session_claim R (text_of g.identity) (text_of g.session_id) now m)
      else (none, g, m)

  -- `__aexit__`. An exception of `session_claim_release` is logged and goes no further: the claim stays.
  unfoldable pub exit : Bool → SessionClaimGuard → Manager R → Manager R
  exit release_fails g m =
      if is_open g && not release_fails
      then release_preferred_session_claim R (text_of g.identity) (text_of g.session_id) m
      else m

  -- `async with claim_session(...)` around a body that ends in `finalize`: its outcome, the guard as
  -- it is left, and the manager. `body` is the exception that the body raises before `finalize`, if
  -- it raises one, `meanwhile` what other requests do to the manager until then, and `release_fails` says
  -- whether a release of the claim would raise.
  leave :
      Bool
      → Option Failure × SessionClaimGuard × Manager R
      → Option Failure × SessionClaimGuard × Manager R
  leave release_fails (outcome, g, m) = (outcome, g, exit release_fails g m)

  within :
      Option Failure
      → (Manager R → Manager R)
      → (ℕ → ℕ)
      → Bool
      → (Failure ⊎ SessionClaimGuard) × Manager R
      → SessionClaimGuard
      → Option Failure × SessionClaimGuard × Manager R
  unfolding leave
  within body meanwhile later release_fails (inl failure, m) g = (some failure, g, m)
  within (some failure) meanwhile later release_fails (inr g, m) _ =
      leave release_fails (some failure, g, meanwhile m)
  within none meanwhile later release_fails (inr g, m) _ =
      leave release_fails (finalize g later (meanwhile m))

  unfoldable pub guarded :
      SessionClaimGuard
      → (ℕ → ℕ)
      → Option Failure
      → (Manager R → Manager R)
      → (ℕ → ℕ)
      → Bool
      → Manager R
      → Option Failure × SessionClaimGuard × Manager R
  unfolding within
  guarded g now body meanwhile later release_fails m =
      within body meanwhile later release_fails (enter g now m) g
