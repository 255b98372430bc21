-- ===== src/Sessions/Claims/MemoryClaims.antt =====
-- The pending claims of `MemorySessionStateRepository` of src/opencode_a2a/server/state_store.py, in
-- two dictionaries, against the contract.
use opencode_a2a_serve.Base.Names.{
  ℕ, ◌+◌, ◌<◌, String, Bool, false, ◌&&◌, Option, none, some, [], ◌∷◌, ◌≡◌, ◌↔◌, refl, arith, ◌∙◌,
}
use opencode_a2a_serve.Base.Equality.{◌==◌, string_eq, option_eq, contains, if◌then◌else◌}
use opencode_a2a_serve.Base.Lists.{leb}
use opencode_a2a_serve.Base.Int.{pos_part}
use opencode_a2a_serve.Base.Dict.{
  Dict, lookup, NodupKeys, lookup-insert, lookup-erase, lookup-erase_all, insert-NodupKeys,
  erase-NodupKeys, erase_all-NodupKeys,
}
use opencode_a2a_serve.Sessions.Memory.{
  MemorySessions, expired_claims, prune_pending_claims, get_session, set_session, pop_session,
  get_owner, set_owner, get_pending_claim, set_pending_claim, clear_pending_claim,
  memory_repository,
}
use opencode_a2a_serve.Sessions.Claims.Contract.{live, claimant, is_cleared, HasClaims}

-- A claim and its end stand under the same sessions.
pub record IsPaired (m : MemorySessions) : Type 0 where
  pub positive : 0 < pos_part m.pending_claim_ttl_seconds
  pub nodup : NodupKeys m.pending_session_claim_expiries
  pub paired :
      (s : String)
      → (lookup s m.pending_session_claims ≡ none)
        ↔ (lookup s m.pending_session_claim_expiries ≡ none)

abbrev pair_up : Option String → Option ℕ → Option (String × ℕ)
pair_up none x = none
pair_up (some i) none = none
pair_up (some i) (some x) = some (i, x)

abbrev pub memory_claim : MemorySessions → String → Option (String × ℕ)
memory_claim m s =
    pair_up (lookup s m.pending_session_claims) (lookup s m.pending_session_claim_expiries)

abbrev pub memory_claim_ttl : MemorySessions → ℕ
memory_claim_ttl m = pos_part m.pending_claim_ttl_seconds

abbrev ended : ℕ → Option ℕ → Bool
ended now none = false
ended now (some x) = leb x now

-- The collected keys are those whose time is up.
contains-expired_claims :
    (now : ℕ) (d : Dict String ℕ) (s : String)
    → NodupKeys d
    → contains (expired_claims now d) s ≡ ended now (lookup s d)
unfolding expired_claims lookup
contains-expired_claims now [] s u = refl
contains-expired_claims now ((k, x) ∷ d) s (fresh, u) =
    ground (arith, contains-expired_claims now d s u)

test_of_positive : (n : ℕ) → 0 < n → leb n 0 ≡ false
test_of_positive n h = ground arith

module _ (t : ℕ) (m : MemorySessions) (v : IsPaired m) where
  claims-prune :
      (s : String)
      → lookup s (prune_pending_claims t m).pending_session_claims ≡ (
          if ended t (lookup s m.pending_session_claim_expiries)
          then none
          else lookup s m.pending_session_claims)
  unfolding prune_pending_claims
  claims-prune s =
      lookup-erase_all s (expired_claims t m.pending_session_claim_expiries)
        m.pending_session_claims
      ∙ rw (contains-expired_claims t m.pending_session_claim_expiries s v.nodup)

  expiries-prune :
      (s : String)
      → lookup s (prune_pending_claims t m).pending_session_claim_expiries ≡ (
          if ended t (lookup s m.pending_session_claim_expiries)
          then none
          else lookup s m.pending_session_claim_expiries)
  unfolding prune_pending_claims
  expiries-prune s =
      lookup-erase_all s (expired_claims t m.pending_session_claim_expiries)
        m.pending_session_claim_expiries
      ∙ rw (contains-expired_claims t m.pending_session_claim_expiries s v.nodup)

  memory_claim-prune :
      (s : String) → memory_claim (prune_pending_claims t m) s ≡ live t (memory_claim m s)
  memory_claim-prune s = rw (claims-prune s, expiries-prune s) (ground arith)

  prune-IsPaired : IsPaired (prune_pending_claims t m)
  prune-IsPaired = record {
    positive = unfold prune_pending_claims in v.positive;
    nodup =
        unfold prune_pending_claims in
        erase_all-NodupKeys (expired_claims t m.pending_session_claim_expiries)
          m.pending_session_claim_expiries v.nodup;
    paired = λ s. rw (claims-prune s, expiries-prune s) (ground (arith, v.paired s));
  }

  get_pending_claim_is :
      (s : String) → (get_pending_claim s t m).0 ≡ claimant (live t (memory_claim m s))
  unfolding get_pending_claim
  get_pending_claim_is s = rw (claims-prune s) (ground (arith, v.paired s))

  ttl-prune :
      pos_part (prune_pending_claims t m).pending_claim_ttl_seconds
      ≡ pos_part m.pending_claim_ttl_seconds
  unfolding prune_pending_claims
  ttl-prune = refl

  set_pending_claim_is :
      (s w i : String)
      → memory_claim (set_pending_claim w i t m) s ≡ (
          if s == w
          then some (i, t + pos_part m.pending_claim_ttl_seconds)
          else live t (memory_claim m s))
  unfolding set_pending_claim
  set_pending_claim_is s w i =
      let p = prune_pending_claims t m in
      let x = t + pos_part p.pending_claim_ttl_seconds in
      ground (
        arith,
        v.positive,
        ttl-prune,
        lookup-insert s w i p.pending_session_claims,
        lookup-insert s w x p.pending_session_claim_expiries,
        memory_claim-prune s,
      )

  set_pending_claim-IsPaired : (w i : String) → IsPaired (set_pending_claim w i t m)
  unfolding set_pending_claim
  set_pending_claim-IsPaired w i =
      let p = prune_pending_claims t m in
      let x = t + pos_part p.pending_claim_ttl_seconds in
      let q = prune-IsPaired in
      rw (test_of_positive (pos_part p.pending_claim_ttl_seconds) q.positive) (record {
        positive = q.positive;
        nodup = insert-NodupKeys w x p.pending_session_claim_expiries q.nodup;
        paired = λ s. ground (
          arith,
          q.paired s,
          lookup-insert s w i p.pending_session_claims,
          lookup-insert s w x p.pending_session_claim_expiries,
        );
      })

module _ (m : MemorySessions) (v : IsPaired m) where
  clear_pending_claim_is :
      (s w : String) (who : Option String)
      → memory_claim (clear_pending_claim w who m) s
        ≡ (if s == w && is_cleared who (memory_claim m s) then none else memory_claim m s)
  unfolding clear_pending_claim
  clear_pending_claim_is s w who = ground (
    arith,
    v.paired s,
    v.paired w,
    lookup-erase s w m.pending_session_claims,
    lookup-erase s w m.pending_session_claim_expiries,
  )

  clear_pending_claim-IsPaired :
      (w : String) (who : Option String) → IsPaired (clear_pending_claim w who m)
  unfolding clear_pending_claim
  clear_pending_claim-IsPaired w who = record {
    positive = ground (arith, v.positive);
    nodup = ground (arith, v.nodup, erase-NodupKeys w m.pending_session_claim_expiries v.nodup);
    paired = λ s. ground (
      arith,
      v.paired s,
      lookup-erase s w m.pending_session_claims,
      lookup-erase s w m.pending_session_claim_expiries,
    );
  }

  get_owner-IsPaired : (w : String) (t : ℕ) → IsPaired (get_owner w t m).1
  unfolding get_owner
  get_owner-IsPaired w t = record { positive = v.positive; nodup = v.nodup; paired = v.paired }

-- The memory repository keeps the contract on pending claims, for a positive time to live and
-- claims that stand under the same sessions as their ends.
pub memory_repository-HasClaims : HasClaims memory_repository IsPaired memory_claim_ttl memory_claim
unfolding get_owner
memory_repository-HasClaims = record {
  get_pending_claim_lem = λ s t m v. get_pending_claim_is t m v s;
  claim-get_pending_claim = λ s w t m v. unfold get_pending_claim in memory_claim-prune t m v s;
  claim-set_pending_claim = λ s w i t m v. set_pending_claim_is t m v s w i;
  claim-clear_pending_claim = λ s w who m v. clear_pending_claim_is m v s w who;
  claim-get_owner = λ s w t m. refl;
  ttl-get_owner = λ w t m. refl;
  ttl-get_pending_claim = λ w t m v. unfold get_pending_claim prune_pending_claims in refl;
  get_owner-IsValid = λ w t m v. get_owner-IsPaired m v w t;
  get_pending_claim-IsValid = λ w t m v. unfold get_pending_claim in prune-IsPaired t m v;
  set_pending_claim-IsValid = λ w i t m v. set_pending_claim-IsPaired t m v w i;
  clear_pending_claim-IsValid = λ w who m v. clear_pending_claim-IsPaired m v w who;
  ttl-set_pending_claim =
      λ w i t m v. unfold set_pending_claim prune_pending_claims in ground arith;
  ttl-clear_pending_claim = λ w who m. unfold clear_pending_claim in ground arith;
  claim-get_session = λ s i c t m. unfold get_session in refl;
  claim-set_session = λ s i c w t m. unfold set_session in refl;
  claim-pop_session = λ s i c m. unfold pop_session in refl;
  claim-set_owner = λ s w i t m. unfold set_owner in refl;
  ttl-get_session = λ i c t m. unfold get_session in refl;
  ttl-set_session = λ i c w t m. unfold set_session in refl;
  ttl-pop_session = λ i c m. unfold pop_session in refl;
  ttl-set_owner = λ w i t m. unfold set_owner in refl;
  get_session-IsValid = λ i c t m v.
      unfold get_session in record { positive = v.positive; nodup = v.nodup; paired = v.paired };
  set_session-IsValid = λ i c w t m v.
      unfold set_session in record { positive = v.positive; nodup = v.nodup; paired = v.paired };
  pop_session-IsValid = λ i c m v.
      unfold pop_session in record { positive = v.positive; nodup = v.nodup; paired = v.paired };
  set_owner-IsValid = λ w i t m v.
      unfold set_owner in record { positive = v.positive; nodup = v.nodup; paired = v.paired };
}
