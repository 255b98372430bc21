-- ===== src/Cache/Bounds.antt =====
-- The size of the cache of src/opencode_a2a/execution/stream_state.py, and its order of eviction.
use opencode_a2a_serve.Base.Names.{ℕ, ◌+◌, ◌-◌, ◌≤◌, Bool, true, false, String, none}
use opencode_a2a_serve.Base.Names.{List, ◌∷◌, [], ◌≡◌, ◌≢◌, arith, ◌∙◌, inl, inr}
use opencode_a2a_serve.Base.Equality.{Eq, Bool-cases, Option-cases}
use opencode_a2a_serve.Base.Lists.{length, take, length-take}
use opencode_a2a_serve.Base.Int.{ℤ, pos_part}
use opencode_a2a_serve.Base.Dict.{Dict, keys, lookup, insert, erase_all, NodupKeys}
use opencode_a2a_serve.Base.Dict.{insert-NodupKeys, erase-NodupKeys, erase_all-NodupKeys}
use opencode_a2a_serve.Base.Dict.Size.{
  length-erase_all-keys, length-erase-le, length-insert_of_present, take-NodupKeys, lookup-take,
}
use opencode_a2a_serve.Base.Sort.{sorted, sorted-NodupKeys, lookup-sorted, length-sorted}
use opencode_a2a_serve.Cache.{
  TtlCache, found, new, expired_keys, is_disabled, by_expiry, evict_overflow, evict_if_needed, get,
  set, pop,
}

-- No key twice, and no more entries than `maxsize`.
pub record IsBounded {ℓ} {K : Type ℓ} ⦃e : Eq K⦄ (c : TtlCache K) : Type ℓ where
  pub nodup : NodupKeys c.store
  pub fits : length c.store ≤ pos_part c.maxsize

-- One call on a cache, with the clock reading that it makes.
pub data Op {ℓ} (K : Type ℓ) : Type ℓ where
  read : K → ℕ → Op K
  write : K → String → ℕ → Op K
  remove : K → Op K

module _ {ℓ} {K : Type ℓ} ⦃e : Eq K⦄ where
  apply : TtlCache K → Op K → TtlCache K
  apply c (read key now) = (get key now c).1
  apply c (write key value now) = set key value now c
  apply c (remove key) = pop key c

  unfoldable pub run : TtlCache K → List (Op K) → TtlCache K
  unfolding apply
  run c [] = c
  run c (op ∷ ops) = run (apply c op) ops

  evict_overflow_fits :
      (maxsize : ℕ) (store : Dict K (String × ℕ))
      → NodupKeys store
      → length (evict_overflow maxsize store) ≤ maxsize
  unfolding evict_overflow
  evict_overflow_fits maxsize store u =
      let order = sorted by_expiry store in
      let n = length store - maxsize in
      ground (
        arith,
        length-sorted by_expiry store,
        length-take n order,
        length-erase_all-keys (take n order) store
            (take-NodupKeys n order (sorted-NodupKeys by_expiry store u)) u
            (λ j q r. lookup-take n j order q (lookup-sorted by_expiry j store u ∙ r)),
      )

  evict_overflow-NodupKeys :
      (maxsize : ℕ) (store : Dict K (String × ℕ))
      → NodupKeys store
      → NodupKeys (evict_overflow maxsize store)
  unfolding evict_overflow
  evict_overflow-NodupKeys maxsize store u = ground (
    arith,
    erase_all-NodupKeys (keys (take (length store - maxsize) (sorted by_expiry store))) store u,
  )

  evict_if_needed_fits :
      (now maxsize : ℕ) (store : Dict K (String × ℕ))
      → NodupKeys store
      → NodupKeys (evict_if_needed now maxsize store)
        × (length (evict_if_needed now maxsize store) ≤ maxsize)
  unfolding evict_if_needed
  evict_if_needed_fits now maxsize store u =
      let left = erase_all (expired_keys now store) store in
      let v = erase_all-NodupKeys (expired_keys now store) store u in
      ground (arith, evict_overflow_fits maxsize left v, evict_overflow-NodupKeys maxsize left v)

  -- Whatever the size of a cache with distinct keys, after `set` on an enabled cache no key stands
  -- twice and at most `maxsize` entries are left.
  pub set-IsBounded :
      (key : K) (value : String) (now : ℕ) (c : TtlCache K)
      → is_disabled c ≡ false
      → NodupKeys c.store
      → IsBounded (set key value now c)
  unfolding set
  set-IsBounded key value now c on u =
      let store = insert key (value, now + pos_part c.ttl_seconds) c.store in
      let kept =
        evict_if_needed_fits now (pos_part c.maxsize) store
          (insert-NodupKeys key (value, now + pos_part c.ttl_seconds) c.store u) in
      rw on (record { nodup = kept.0; fits = kept.1 })

  found-IsBounded :
      (key : K) (now : ℕ) (c : TtlCache K) (value : String) (exp : ℕ)
      → IsBounded c
      → lookup key c.store ≢ none
      → IsBounded (found key now c (value, exp)).1
  unfolding get
  found-IsBounded key now c value exp b present =
      let later : String × ℕ = (value, now + pos_part c.ttl_seconds) in
      ground (
        arith,
        length-erase-le key c.store,
        erase-NodupKeys key c.store b.nodup,
        insert-NodupKeys key later c.store b.nodup,
        length-insert_of_present key later c.store,
      )

  get-IsBounded : (key : K) (now : ℕ) (c : TtlCache K) → IsBounded c → IsBounded (get key now c).1
  unfolding get
  get-IsBounded key now c b = elim (Option-cases (lookup key c.store)) [
    | inl absent ↦ rw (absent, get) (ground arith)
    | inr (item, present) ↦
        rw (present, get)
          (elim (Bool-cases (is_disabled c)) [
            | inl off ↦ rw off b
            | inr on ↦ rw on (found-IsBounded key now c item.0 item.1 b (ground arith))
          ])
  ]

  pop-IsBounded : (key : K) (c : TtlCache K) → IsBounded c → IsBounded (pop key c)
  unfolding pop
  pop-IsBounded key c b = record {
    nodup = erase-NodupKeys key c.store b.nodup;
    fits = omega (arith, b.fits, length-erase-le key c.store);
  }

  set_disabled :
      (key : K) (value : String) (now : ℕ) (c : TtlCache K)
      → is_disabled c ≡ true
      → set key value now c ≡ c
  unfolding set
  set_disabled key value now c off = rw off

  apply-IsBounded : (op : Op K) (c : TtlCache K) → IsBounded c → IsBounded (apply c op)
  unfolding apply
  apply-IsBounded (read key now) c b = get-IsBounded key now c b
  apply-IsBounded (write key value now) c b = elim (Bool-cases (is_disabled c)) [
    | inl off ↦ rw (set_disabled key value now c off) b
    | inr on ↦ set-IsBounded key value now c on b.nodup
  ]
  apply-IsBounded (remove key) c b = pop-IsBounded key c b

  run-IsBounded_from : (ops : List (Op K)) (c : TtlCache K) → IsBounded c → IsBounded (run c ops)
  unfolding run
  run-IsBounded_from [] c b = b
  run-IsBounded_from (op ∷ ops) c b = run-IsBounded_from ops (apply c op) (apply-IsBounded op c b)

  -- After any sequence of `get`, `set` and `pop` calls at any clock readings, starting from a new
  -- cache with any settings, no key stands twice and there are at most `max(0, maxsize)` entries.
  pub run-IsBounded :
      (ttl_seconds maxsize : ℤ) (refresh_on_get : Bool) (ops : List (Op K))
      → IsBounded (run (new ttl_seconds maxsize refresh_on_get) ops)
  run-IsBounded ttl_seconds maxsize refresh_on_get ops =
      run-IsBounded_from ops (new ttl_seconds maxsize refresh_on_get)
        (record { nodup = tt; fits = omega arith })
