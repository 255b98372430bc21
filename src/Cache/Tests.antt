-- ===== src/Cache/Tests.antt =====
-- The cache of src/opencode_a2a/execution/stream_state.py on small inputs.
use opencode_a2a_serve.Base.Names.{ℕ, ◌<◌, String, true, some, List, [], ◌∷◌, ◌≡◌, ◌↔◌, refl, arith}
use opencode_a2a_serve.Base.Equality.{string_eq}
use opencode_a2a_serve.Base.Int.{pos}
use opencode_a2a_serve.Base.Dict.{lookup, insert, erase, erase_all, NodupKeys}
use opencode_a2a_serve.Base.Sort.{sorted}
use opencode_a2a_serve.Cache.{
  TtlCache, new, expired_keys, evict_overflow, evict_if_needed, get, set,
}
use opencode_a2a_serve.Cache.Bounds.{IsBounded, Op, read, write, remove, run, run-IsBounded}
use opencode_a2a_serve.Cache.Freshness.{get_iff, get-set_self}

-- Two entries of two: "b" expires first.
abbrev full : TtlCache String
full = record {
  ttl_seconds = pos 10;
  maxsize = pos 2;
  refresh_on_get = true;
  store = ("a", ("s1", 14)) ∷ ("b", ("s2", 12)) ∷ [];
}

set_evicts : (set "c" "s3" 5 full).store ≡ ("a", ("s1", 14)) ∷ ("c", ("s3", 15)) ∷ []
unfolding set insert evict_if_needed expired_keys evict_overflow erase erase_all string_eq sorted
set_evicts = refl

set_drops_expired : (set "c" "s3" 14 full).store ≡ ("c", ("s3", 24)) ∷ []
unfolding set insert evict_if_needed expired_keys evict_overflow erase erase_all string_eq sorted
set_drops_expired = refl

get_refreshes :
    get "a" 6 full ≡ (some "s1", record full { store = ("a", ("s1", 16)) ∷ ("b", ("s2", 12)) ∷ [] })
unfolding get lookup insert string_eq
get_refreshes = refl

full-NodupKeys : NodupKeys full.store
unfolding lookup string_eq
full-NodupKeys = (refl, (refl, tt))

full-IsBounded : IsBounded full
full-IsBounded = record { nodup = full-NodupKeys; fits = omega arith }

abbrev ops : List (Op String)
ops = write "a" "s1" 0 ∷ write "b" "s2" 1 ∷ read "a" 2 ∷ write "c" "s3" 3 ∷ remove "b" ∷ []

run-IsBounded_example : IsBounded (run (new (pos 10) (pos 2) true) ops)
run-IsBounded_example = run-IsBounded (pos 10) (pos 2) true ops

get_iff_example :
    ((get "a" 6 full).0 ≡ some "s1")
    ↔ ((exp : ℕ) × (lookup "a" full.store ≡ some ("s1", exp)) × (6 < exp))
get_iff_example = get_iff "a" 6 full "s1" refl

get-set_self_example : (get "c" 14 (set "c" "s3" 5 full)).0 ≡ some "s3"
get-set_self_example =
    get-set_self "c" "s3" 5 14 full refl full-IsBounded (omega arith, (omega arith, tt))
      (omega arith)
