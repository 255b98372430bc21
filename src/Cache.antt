-- ===== src/Cache.antt =====
-- The bounded cache with expiry, `_TTLCache` of src/opencode_a2a/execution/stream_state.py.
-- Times are numbers of ticks of the clock that `now` reads; the reading is an argument.
pub mod Bounds
pub mod Eviction
pub mod Freshness
pub mod Tests
use opencode_a2a_serve.Base.Names.{ℕ, ◌+◌, ◌-◌, Bool, true, false, ◌||◌, String, Option, none, some}
use opencode_a2a_serve.Base.Names.{List, ◌∷◌, []}
use opencode_a2a_serve.Base.Equality.{Eq, if◌then◌else◌}
use opencode_a2a_serve.Base.Lists.{length, take, leb}
use opencode_a2a_serve.Base.Int.{ℤ, pos_part, le_zero}
use opencode_a2a_serve.Base.Dict.{Dict, keys, lookup, insert, erase, erase_all}
use opencode_a2a_serve.Base.Sort.{sorted}

-- The fields that `__init__` sets, but for the clock. A value is stored with its `expires_at`.
pub record TtlCache {ℓ} (K : Type ℓ) : Type ℓ where
  pub ttl_seconds : ℤ
  pub maxsize : ℤ
  pub refresh_on_get : Bool
  pub store : Dict K (String × ℕ)

-- `__init__`
abbrev pub new {ℓ} : {K : Type ℓ} → ℤ → ℤ → Bool → TtlCache K
new ttl_seconds maxsize refresh_on_get = record {
  ttl_seconds = ttl_seconds;
  maxsize = maxsize;
  refresh_on_get = refresh_on_get;
  store = [];
}

-- `ttl_seconds <= 0 or maxsize <= 0`
abbrev pub is_disabled {ℓ} : {K : Type ℓ} → TtlCache K → Bool
is_disabled c = le_zero c.ttl_seconds || le_zero c.maxsize

-- The sort key of the eviction, `item[1][1]`.
abbrev pub by_expiry {ℓ} : {K : Type ℓ} → K × (String × ℕ) → K × (String × ℕ) → Bool
by_expiry (_, (_, a)) (_, (_, b)) = leb a b

-- `[key for key, (_, exp) in items if exp <= now]`
unfoldable pub expired_keys {ℓ} : {K : Type ℓ} → ℕ → Dict K (String × ℕ) → List K
expired_keys now [] = []
expired_keys now ((key, (_, exp)) ∷ items) =
    let rest = expired_keys now items in if leb exp now then key ∷ rest else rest

module _ {ℓ} {K : Type ℓ} ⦃e : Eq K⦄ where
  found : K → ℕ → TtlCache K → String × ℕ → Option String × TtlCache K
  found key now c (value, expires_at) =
      if leb expires_at now
      then (none, record c { store = erase key c.store })
      else if c.refresh_on_get
      then (
        some value,
        record c { store = insert key (value, now + pos_part c.ttl_seconds) c.store },
      )
      else (some value, c)

  -- `get`
  unfoldable pub get : K → ℕ → TtlCache K → Option String × TtlCache K
  unfolding found
  get key now c =
      if is_disabled c
      then (none, c)
      else elim (lookup key c.store) [ none ↦ (none, c) | some item ↦ found key now c item ]

  -- The second half of `_evict_if_needed`, after the expired entries are gone.
  unfoldable pub evict_overflow : ℕ → Dict K (String × ℕ) → Dict K (String × ℕ)
  evict_overflow maxsize store =
      if leb (length store) maxsize
      then store
      else erase_all (keys (take (length store - maxsize) (sorted by_expiry store))) store

  -- `_evict_if_needed`, on the stored entries
  unfoldable pub evict_if_needed : ℕ → ℕ → Dict K (String × ℕ) → Dict K (String × ℕ)
  evict_if_needed now maxsize store =
      if leb (length store) maxsize
      then store
      else evict_overflow maxsize (erase_all (expired_keys now store) store)

  -- `set`
  unfoldable pub set : K → String → ℕ → TtlCache K → TtlCache K
  set key value now c = if is_disabled c then c else record c {
    store =
        evict_if_needed now (pos_part c.maxsize)
          (insert key (value, now + pos_part c.ttl_seconds) c.store);
  }

  -- `pop`
  unfoldable pub pop : K → TtlCache K → TtlCache K
  pop key c = record c { store = erase key c.store }
