-- ===== src/Sessions/Database/Durability.antt =====
-- Bindings and owners in the tables of src/opencode_a2a/server/state_store.py.
use opencode_a2a_serve.Base.Names.{ℕ, String, Option, none, some, ◌≡◌, refl, arith, ap, ◌∙◌}
use opencode_a2a_serve.Base.Equality.{◌==◌, string_eq, pair_eq, if◌then◌else◌}
use opencode_a2a_serve.Base.Dict.{lookup}
use opencode_a2a_serve.Tables.Laws.{lookup-insert_then_update, lookup-delete_key}
use opencode_a2a_serve.Sessions.Repository.{IsDurable}
use opencode_a2a_serve.Sessions.Database.{DatabaseSessions, delete_claim}
use opencode_a2a_serve.Sessions.Database.{
  get_session, set_session, pop_session, get_owner, set_owner, get_pending_claim, set_pending_claim,
  clear_pending_claim, database_repository, prune_expired_pending_claims,
}

module _ (d : DatabaseSessions) where
  owners-prune : (t : ℕ) → (prune_expired_pending_claims t d).session_owners ≡ d.session_owners
  unfolding prune_expired_pending_claims
  owners-prune t = ground arith

  bindings-prune :
      (t : ℕ) → (prune_expired_pending_claims t d).session_bindings ≡ d.session_bindings
  unfolding prune_expired_pending_claims
  bindings-prune t = ground arith

  get_pending_claim_keeps :
      (v : String) (t : ℕ)
      → ((get_pending_claim v t d).1.session_owners ≡ d.session_owners)
        × ((get_pending_claim v t d).1.session_bindings ≡ d.session_bindings)
  unfolding get_pending_claim delete_claim
  get_pending_claim_keeps v t = ground (arith, owners-prune t, bindings-prune t)

  set_pending_claim_keeps :
      (v i : String) (t : ℕ)
      → ((set_pending_claim v i t d).session_owners ≡ d.session_owners)
        × ((set_pending_claim v i t d).session_bindings ≡ d.session_bindings)
  unfolding set_pending_claim delete_claim
  set_pending_claim_keeps v i t = ground (arith, owners-prune t, bindings-prune t)

  clear_pending_claim_keeps :
      (v : String) (i : Option String)
      → ((clear_pending_claim v i d).session_owners ≡ d.session_owners)
        × ((clear_pending_claim v i d).session_bindings ≡ d.session_bindings)
  unfolding clear_pending_claim delete_claim
  clear_pending_claim_keeps v none = (refl, refl)
  clear_pending_claim_keeps v (some i) = (refl, refl)

abbrev binding_in : DatabaseSessions → String → String → Option String
binding_in d i c = lookup (i, c) d.session_bindings

abbrev owner_in : DatabaseSessions → String → Option String
owner_in d s = lookup s d.session_owners

split_pair :
    (i c j d : String) (x y : Option String)
    → (if ◌==◌ {A = String × String} (i, c) (j, d) then x else y)
      ≡ (if i == j then (if c == d then x else y) else y)
unfolding pair_eq
split_pair i c j d x y = ground arith

-- The database repository forgets no binding and no owner by itself: each method changes the
-- bindings and the owners as its name says and in no other way.
pub database_repository-IsDurable : IsDurable database_repository
unfolding get_owner get_session set_session pop_session set_owner
database_repository-IsDurable = record {
  binding = binding_in;
  owner = owner_in;
  get_owner_lem = λ s t d. refl;
  get_session_lem = λ i c t d. refl;
  owner-get_session = λ s i c t d. refl;
  owner-set_session = λ s i c v t d. refl;
  owner-pop_session = λ s i c d. refl;
  owner-get_owner = λ s v t d. refl;
  owner-set_owner = λ s v i t d. lookup-insert_then_update s v i d.session_owners;
  owner-get_pending_claim = λ s v t d. ap (lookup s) (get_pending_claim_keeps d v t).0;
  owner-set_pending_claim = λ s v i t d. ap (lookup s) (set_pending_claim_keeps d v i t).0;
  owner-clear_pending_claim = λ s v i d. ap (lookup s) (clear_pending_claim_keeps d v i).0;
  binding-get_session = λ i c j e t d. refl;
  binding-set_session = λ i c j e v t d.
      lookup-insert_then_update (i, c) (j, e) v d.session_bindings
      ∙ split_pair i c j e (some v) (binding_in d i c);
  binding-pop_session = λ i c j e d.
      lookup-delete_key (i, c) (j, e) d.session_bindings
      ∙ split_pair i c j e none (binding_in d i c);
  binding-get_owner = λ i c v t d. refl;
  binding-set_owner = λ i c v j t d. refl;
  binding-get_pending_claim = λ i c v t d. ap (lookup (i, c)) (get_pending_claim_keeps d v t).1;
  binding-set_pending_claim = λ i c v j t d. ap (lookup (i, c)) (set_pending_claim_keeps d v j t).1;
  binding-clear_pending_claim = λ i c v j d. ap (lookup (i, c)) (clear_pending_claim_keeps d v j).1;
}
