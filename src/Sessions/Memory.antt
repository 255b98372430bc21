-- ===== src/Sessions/Memory.antt =====
-- `MemorySessionStateRepository` of src/opencode_a2a/server/state_store.py.
use opencode_a2a_serve.Base.Names.{ℕ, ◌+◌, String, true, false, Option, none, some, List, [], ◌∷◌}
use opencode_a2a_serve.Base.Equality.{◌==◌, string_eq, option_eq, pair_eq, if◌then◌else◌}
use opencode_a2a_serve.Base.Lists.{leb}
use opencode_a2a_serve.Base.Int.{ℤ, pos_part, le_zero}
use opencode_a2a_serve.Base.Dict.{Dict, lookup, insert, erase, erase_all}
use opencode_a2a_serve.Cache.{TtlCache}
use opencode_a2a_serve.Cache
use opencode_a2a_serve.Sessions.Repository.{SessionRepository}

pub record MemorySessions : Type 0 where
  pub sessions : TtlCache (String × String)
  pub session_owners : TtlCache String
  pub pending_session_claims : Dict String String
  pub pending_session_claim_expiries : Dict String ℕ
  pub pending_claim_ttl_seconds : ℤ

-- `__init__`: owners are refreshed when they are read.
abbrev pub new_memory_sessions : ℤ → ℤ → ℤ → MemorySessions
new_memory_sessions ttl_seconds maxsize pending_claim_ttl_seconds = record {
  sessions = Cache.new ttl_seconds maxsize false;
  session_owners = Cache.new ttl_seconds maxsize true;
  pending_session_claims = [];
  pending_session_claim_expiries = [];
  pending_claim_ttl_seconds = pending_claim_ttl_seconds;
}

-- `[session_id for session_id, expires_at in ... if expires_at <= now]`
unfoldable pub expired_claims : ℕ → Dict String ℕ → List String
expired_claims now [] = []
expired_claims now ((session_id, expires_at) ∷ rest) =
    let more = expired_claims now rest in if leb expires_at now then session_id ∷ more else more

unfoldable pub prune_pending_claims : ℕ → MemorySessions → MemorySessions
prune_pending_claims now m =
    let expired = expired_claims now m.pending_session_claim_expiries in
    record m {
      pending_session_claims = erase_all expired m.pending_session_claims;
      pending_session_claim_expiries = erase_all expired m.pending_session_claim_expiries;
    }

unfoldable pub get_session : String → String → ℕ → MemorySessions → Option String × MemorySessions
get_session identity context_id now m =
    let (found, cache) = Cache.get (identity, context_id) now m.sessions in
    (found, record m { sessions = cache })

unfoldable pub set_session : String → String → String → ℕ → MemorySessions → MemorySessions
set_session identity context_id session_id now m = record m {
  sessions = Cache.set (identity, context_id) session_id now m.sessions;
}

unfoldable pub pop_session : String → String → MemorySessions → MemorySessions
pop_session identity context_id m = record m {
  sessions = Cache.pop (identity, context_id) m.sessions;
}

unfoldable pub get_owner : String → ℕ → MemorySessions → Option String × MemorySessions
get_owner session_id now m =
    let (found, cache) = Cache.get session_id now m.session_owners in
    (found, record m { session_owners = cache })

unfoldable pub set_owner : String → String → ℕ → MemorySessions → MemorySessions
set_owner session_id identity now m = record m {
  session_owners = Cache.set session_id identity now m.session_owners;
}

unfoldable pub get_pending_claim : String → ℕ → MemorySessions → Option String × MemorySessions
get_pending_claim session_id now m =
    let m' = prune_pending_claims now m in (lookup session_id m'.pending_session_claims, m')

unfoldable pub clear_pending_claim : String → Option String → MemorySessions → MemorySessions
clear_pending_claim session_id identity m =
    if (elim identity [
      | none ↦ true
      | some i ↦ lookup session_id m.pending_session_claims == some i
    ])
    then record m {
      pending_session_claims = erase session_id m.pending_session_claims;
      pending_session_claim_expiries = erase session_id m.pending_session_claim_expiries;
    }
    else m

unfoldable pub set_pending_claim : String → String → ℕ → MemorySessions → MemorySessions
set_pending_claim session_id identity now m =
    let m' = prune_pending_claims now m in
    if le_zero m'.pending_claim_ttl_seconds
    then clear_pending_claim session_id none m'
    else record m' {
      pending_session_claims = insert session_id identity m'.pending_session_claims;
      pending_session_claim_expiries =
          insert session_id (now + pos_part m'.pending_claim_ttl_seconds)
            m'.pending_session_claim_expiries;
    }

abbrev pub memory_repository : SessionRepository
memory_repository = record {
  State = MemorySessions;
  get_session = get_session;
  set_session = set_session;
  pop_session = pop_session;
  get_owner = get_owner;
  set_owner = set_owner;
  get_pending_claim = get_pending_claim;
  set_pending_claim = set_pending_claim;
  clear_pending_claim = clear_pending_claim;
}
