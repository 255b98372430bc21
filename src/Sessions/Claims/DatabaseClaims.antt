-- ===== src/Sessions/Claims/DatabaseClaims.antt =====
-- The pending claims of `DatabaseSessionStateRepository` of src/opencode_a2a/server/state_store.py, kept
-- in rows, meet the contract, also where a row of an older schema has no `expires_at`.
use mathlib.Core.Path.{subst}
use opencode_a2a_serve.Base.Names.{
  ℕ, ◌+◌, ◌<◌, String, false, ◌&&◌, Option, none, some, ◌≡◌, refl, arith, ap, ◌∙◌, sym,
}
use opencode_a2a_serve.Base.Equality.{◌==◌, string_eq, if◌then◌else◌}
use opencode_a2a_serve.Base.Lists.{leb}
use opencode_a2a_serve.Base.Int.{pos_part}
use opencode_a2a_serve.Base.Dict.{lookup, NodupKeys}
use opencode_a2a_serve.Sessions.Database.{
  DatabaseSessions, PendingClaimRow, pending_claim_expires_at, is_expired_row,
  prune_expired_pending_claims, delete_claim, get_session, set_session, pop_session, get_owner,
  set_owner, get_pending_claim, set_pending_claim, clear_pending_claim, database_repository,
}
use opencode_a2a_serve.Tables.Laws.{
  kept, lookup-insert_then_update, lookup-delete_key, lookup-delete_where, delete_where-NodupKeys,
  insert_then_update-NodupKeys,
}
use opencode_a2a_serve.Sessions.Claims.Contract.{live, claimant, is_cleared, HasClaims}

-- The primary key of the table, and a positive time to live.
pub record IsTable (d : DatabaseSessions) : Type 0 where
  pub positive : 0 < pos_part d.pending_claim_ttl_seconds
  pub nodup : NodupKeys d.pending_session_claims

abbrev pub database_claim_ttl : DatabaseSessions → ℕ
database_claim_ttl d = pos_part d.pending_claim_ttl_seconds

abbrev claim_of_row : ℕ → Option PendingClaimRow → Option (String × ℕ)
claim_of_row ttl none = none
claim_of_row ttl (some row) = elim row.expires_at [
  | some x ↦ some (row.identity, x)
  | none ↦ elim row.updated_at [ some u ↦ some (row.identity, u + ttl) | none ↦ none ]
]

abbrev pub database_claim : DatabaseSessions → String → Option (String × ℕ)
database_claim d s =
    claim_of_row (pos_part d.pending_claim_ttl_seconds) (lookup s d.pending_session_claims)

test_of_positive : (n : ℕ) → 0 < n → leb n 0 ≡ false
test_of_positive n h = ground arith

module _ (t : ℕ) (d : DatabaseSessions) (v : IsTable d) where
  rows-prune :
      (s : String)
      → lookup s (prune_expired_pending_claims t d).pending_session_claims
        ≡ kept
            (λ _ row. is_expired_row t (pos_part d.pending_claim_ttl_seconds) row)
            s
            (lookup s d.pending_session_claims)
  unfolding prune_expired_pending_claims
  rows-prune s = rw (test_of_positive (pos_part d.pending_claim_ttl_seconds) v.positive) (
      lookup-delete_where (λ _ row. is_expired_row t (pos_part d.pending_claim_ttl_seconds) row) s
        d.pending_session_claims v.nodup)

  ttl-prune :
      (prune_expired_pending_claims t d).pending_claim_ttl_seconds ≡ d.pending_claim_ttl_seconds
  unfolding prune_expired_pending_claims
  ttl-prune = ground arith

  database_claim-prune :
      (s : String)
      → database_claim (prune_expired_pending_claims t d) s ≡ live t (database_claim d s)
  unfolding is_expired_row
  database_claim-prune s = rw (rows-prune s, ttl-prune) (ground arith)

  prune-IsTable : IsTable (prune_expired_pending_claims t d)
  unfolding prune_expired_pending_claims
  prune-IsTable = rw (test_of_positive (pos_part d.pending_claim_ttl_seconds) v.positive) (record {
    positive = v.positive;
    nodup =
        delete_where-NodupKeys
          (λ _ row. is_expired_row t (pos_part d.pending_claim_ttl_seconds) row)
          d.pending_session_claims v.nodup;
  })

  get_pending_claim_is :
      (s : String)
      → ((get_pending_claim s t d).0 ≡ claimant (live t (database_claim d s)))
        × ((get_pending_claim s t d).1 ≡ prune_expired_pending_claims t d)
  unfolding get_pending_claim is_expired_row pending_claim_expires_at
  get_pending_claim_is s = ground (arith, rows-prune s, ttl-prune)

  set_pending_claim_is :
      (s w i : String)
      → database_claim (set_pending_claim w i t d) s ≡ (
          if s == w
          then some (i, t + pos_part d.pending_claim_ttl_seconds)
          else live t (database_claim d s))
  unfolding set_pending_claim
  set_pending_claim_is s w i =
      let p = prune_expired_pending_claims t d in
      let row : PendingClaimRow = record {
        identity = i;
        updated_at = some t;
        expires_at = some (t + pos_part p.pending_claim_ttl_seconds);
      } in
      ground (
        arith,
        v.positive,
        ttl-prune,
        lookup-insert_then_update s w row p.pending_session_claims,
        database_claim-prune s,
      )

  set_pending_claim-IsTable : (w i : String) → IsTable (set_pending_claim w i t d)
  unfolding set_pending_claim
  set_pending_claim-IsTable w i =
      let p = prune_expired_pending_claims t d in
      let q = prune-IsTable in
      rw (test_of_positive (pos_part p.pending_claim_ttl_seconds) q.positive) (record {
        positive = q.positive;
        nodup = insert_then_update-NodupKeys w _ p.pending_session_claims q.nodup;
      })

module _ (d : DatabaseSessions) (v : IsTable d) where
  clear_pending_claim_is :
      (s w : String) (who : Option String)
      → database_claim (clear_pending_claim w who d) s
        ≡ (if s == w && is_cleared who (database_claim d s) then none else database_claim d s)
  unfolding clear_pending_claim delete_claim
  clear_pending_claim_is s w none = ground (arith, lookup-delete_key s w d.pending_session_claims)
  clear_pending_claim_is s w (some i) = ground (
    arith,
    lookup-delete_where (λ k row. k == w && row.identity == i) s d.pending_session_claims v.nodup,
  )

  clear_pending_claim-IsTable :
      (w : String) (who : Option String) → IsTable (clear_pending_claim w who d)
  unfolding clear_pending_claim delete_claim
  clear_pending_claim-IsTable w none = record {
    positive = v.positive;
    nodup = delete_where-NodupKeys (λ k _. k == w) d.pending_session_claims v.nodup;
  }
  clear_pending_claim-IsTable w (some i) = record {
    positive = v.positive;
    nodup =
        delete_where-NodupKeys (λ k row. k == w && row.identity == i) d.pending_session_claims
          v.nodup;
  }

ttl-clear :
    (w : String) (who : Option String) (d : DatabaseSessions)
    → database_claim_ttl (clear_pending_claim w who d) ≡ database_claim_ttl d
unfolding clear_pending_claim delete_claim
ttl-clear w none d = refl
ttl-clear w (some i) d = refl

-- The database repository keeps the contract on pending claims, for a positive time to live and
-- one row per session: each method does what it says on the claim of each session with the time at
-- which it ends, rows of an older schema included.
pub database_repository-HasClaims :
    HasClaims database_repository IsTable database_claim_ttl database_claim
unfolding get_owner
database_repository-HasClaims = record {
  get_pending_claim_lem = λ s t d v. (get_pending_claim_is t d v s).0;
  claim-get_pending_claim = λ s w t d v.
      ap (λ x. database_claim x s) (get_pending_claim_is t d v w).1 ∙ database_claim-prune t d v s;
  claim-set_pending_claim = λ s w i t d v. set_pending_claim_is t d v s w i;
  claim-clear_pending_claim = λ s w who d v. clear_pending_claim_is d v s w who;
  claim-get_owner = λ s w t d. refl;
  ttl-get_owner = λ w t d. refl;
  ttl-get_pending_claim = λ w t d v.
      ap (λ x. pos_part x.pending_claim_ttl_seconds) (get_pending_claim_is t d v w).1
      ∙ ap pos_part (ttl-prune t d v);
  get_owner-IsValid = λ w t d v. v;
  get_pending_claim-IsValid =
      λ w t d v. subst IsTable (sym (get_pending_claim_is t d v w).1) (prune-IsTable t d v);
  set_pending_claim-IsValid = λ w i t d v. set_pending_claim-IsTable t d v w i;
  clear_pending_claim-IsValid = λ w who d v. clear_pending_claim-IsTable d v w who;
  ttl-set_pending_claim = λ w i t d v. unfold set_pending_claim in ground (arith, ttl-prune t d v);
  ttl-clear_pending_claim = λ w who d. ttl-clear w who d;
  claim-get_session = λ s i c t m. unfold get_session in refl;
  claim-set_session = λ s i c w t m. unfold set_session in refl;
  claim-pop_session = λ s i c m. unfold pop_session in refl;
  claim-set_owner = λ s w i t m. unfold set_owner in refl;
  ttl-get_session = λ i c t m. unfold get_session in refl;
  ttl-set_session = λ i c w t m. unfold set_session in refl;
  ttl-pop_session = λ i c m. unfold pop_session in refl;
  ttl-set_owner = λ w i t m. unfold set_owner in refl;
  get_session-IsValid =
      λ i c t m v. unfold get_session in record { positive = v.positive; nodup = v.nodup };
  set_session-IsValid =
      λ i c w t m v. unfold set_session in record { positive = v.positive; nodup = v.nodup };
  pop_session-IsValid =
      λ i c m v. unfold pop_session in record { positive = v.positive; nodup = v.nodup };
  set_owner-IsValid =
      λ w i t m v. unfold set_owner in record { positive = v.positive; nodup = v.nodup };
}
