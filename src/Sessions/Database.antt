-- ===== src/Sessions/Database.antt =====
-- `DatabaseSessionStateRepository` of src/opencode_a2a/server/state_store.py. A table is a dictionary
-- by its primary key, with a record of the other columns; a transaction runs without interruption.
pub mod Durability
use opencode_a2a_serve.Base.Names.{
  ℕ, ◌+◌, String, Bool, true, false, ◌&&◌, ◌||◌, Option, none, some, List, [], ◌∷◌, ◌++◌,
}
use opencode_a2a_serve.Base.Equality.{Eq, ◌==◌, string_eq, pair_eq, if◌then◌else◌}
use opencode_a2a_serve.Base.Lists.{leb}
use opencode_a2a_serve.Base.Int.{ℤ, pos_part, le_zero}
use opencode_a2a_serve.Base.Dict.{Dict, lookup, insert, erase}
use opencode_a2a_serve.Tables.{insert_then_update, delete_where}
use opencode_a2a_serve.Sessions.Repository.{SessionRepository}

-- `a2a_pending_session_claims`, with two columns that an older schema may have left NULL
pub record PendingClaimRow : Type 0 where
  pub identity : String
  pub updated_at : Option ℕ
  pub expires_at : Option ℕ

pub record DatabaseSessions : Type 0 where
  pub session_bindings : Dict (String × String) String
  pub session_owners : Dict String String
  pub pending_session_claims : Dict String PendingClaimRow
  pub pending_claim_ttl_seconds : ℤ

-- `_pending_claim_expires_at`
unfoldable pub pending_claim_expires_at : PendingClaimRow → ℤ → Option ℕ
pending_claim_expires_at row legacy_ttl_seconds = elim row.expires_at [
  | some expires_at ↦ some expires_at
  | none ↦ elim row.updated_at [
    | none ↦ none
    | some updated_at ↦ some (updated_at + pos_part legacy_ttl_seconds)
  ]
]

-- The WHERE clause of the DELETE in `_prune_expired_pending_claims`
unfoldable pub is_expired_row : ℕ → ℕ → PendingClaimRow → Bool
is_expired_row now ttl row = elim row.expires_at [
  | some expires_at ↦ leb expires_at now
  | none ↦ elim row.updated_at [ some updated_at ↦ leb (updated_at + ttl) now | none ↦ true ]
]

-- `_prune_expired_pending_claims`
unfoldable pub prune_expired_pending_claims : ℕ → DatabaseSessions → DatabaseSessions
unfolding delete_where
prune_expired_pending_claims now d =
    if le_zero d.pending_claim_ttl_seconds
    then record d { pending_session_claims = [] }
    else record d {
      pending_session_claims =
          delete_where (λ _ row. is_expired_row now (pos_part d.pending_claim_ttl_seconds) row)
            d.pending_session_claims;
    }

unfoldable pub get_session :
    String → String → ℕ → DatabaseSessions → Option String × DatabaseSessions
get_session identity context_id now d = (lookup (identity, context_id) d.session_bindings, d)

unfoldable pub set_session : String → String → String → ℕ → DatabaseSessions → DatabaseSessions
set_session identity context_id session_id now d = record d {
  session_bindings = insert_then_update (identity, context_id) session_id d.session_bindings;
}

unfoldable pub pop_session : String → String → DatabaseSessions → DatabaseSessions
pop_session identity context_id d = record d {
  session_bindings = delete_where (λ k _. k == (identity, context_id)) d.session_bindings;
}

unfoldable pub get_owner : String → ℕ → DatabaseSessions → Option String × DatabaseSessions
get_owner session_id now d = (lookup session_id d.session_owners, d)

unfoldable pub set_owner : String → String → ℕ → DatabaseSessions → DatabaseSessions
set_owner session_id identity now d = record d {
  session_owners = insert_then_update session_id identity d.session_owners;
}

-- `delete(_PENDING_SESSION_CLAIMS).where(session_id == ...)`
unfoldable pub delete_claim : String → DatabaseSessions → DatabaseSessions
delete_claim session_id d = record d {
  pending_session_claims = delete_where (λ k _. k == session_id) d.pending_session_claims;
}

claim_in_row : String → ℕ → DatabaseSessions → PendingClaimRow → Option String × DatabaseSessions
claim_in_row session_id now d row =
    elim (pending_claim_expires_at row d.pending_claim_ttl_seconds) [
      | none ↦ (none, delete_claim session_id d)
      | some expires_at ↦
          if leb expires_at now then (none, delete_claim session_id d) else (some row.identity, d)
    ]

unfoldable pub get_pending_claim : String → ℕ → DatabaseSessions → Option String × DatabaseSessions
unfolding claim_in_row
get_pending_claim session_id now d =
    let d' = prune_expired_pending_claims now d in
    elim (lookup session_id d'.pending_session_claims) [
      | none ↦ (none, d')
      | some row ↦ claim_in_row session_id now d' row
    ]

unfoldable pub set_pending_claim : String → String → ℕ → DatabaseSessions → DatabaseSessions
set_pending_claim session_id identity now d =
    let d' = prune_expired_pending_claims now d in
    if le_zero d'.pending_claim_ttl_seconds then delete_claim session_id d' else record d' {
      pending_session_claims =
          insert_then_update session_id
            (record {
              identity = identity;
              updated_at = some now;
              expires_at = some (now + pos_part d'.pending_claim_ttl_seconds);
            })
            d'.pending_session_claims;
    }

unfoldable pub clear_pending_claim : String → Option String → DatabaseSessions → DatabaseSessions
clear_pending_claim session_id identity d = elim identity [
  | none ↦ delete_claim session_id d
  | some i ↦ record d {
    pending_session_claims =
        delete_where (λ k row. k == session_id && row.identity == i) d.pending_session_claims;
  }
]

abbrev pub database_repository : SessionRepository
database_repository = record {
  State = DatabaseSessions;
  get_session = get_session;
  set_session = set_session;
  pop_session = pop_session;
  get_owner = get_owner;
  set_owner = set_owner;
  get_pending_claim = get_pending_claim;
  set_pending_claim = set_pending_claim;
  clear_pending_claim = clear_pending_claim;
}
