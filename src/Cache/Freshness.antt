-- ===== src/Cache/Freshness.antt =====
-- What a read of the cache of src/opencode_a2a/execution/stream_state.py returns.
use opencode_a2a_serve.Base.Names.{ℕ, ◌+◌, ◌<◌, false, String, some}
use opencode_a2a_serve.Base.Names.{◌≡◌, ◌↔◌, arith, ◌∙◌, inl, inr}
use opencode_a2a_serve.Base.Equality.{Eq, Option-cases}
use opencode_a2a_serve.Base.Int.{pos_part}
use opencode_a2a_serve.Base.Dict.{lookup}
use opencode_a2a_serve.Base.Dict.{lookup-insert}
use opencode_a2a_serve.Base.Dict.Size.{insert_of_absent, length-insert_of_present}
use opencode_a2a_serve.Cache.{TtlCache, is_disabled, evict_if_needed, get, set}
use opencode_a2a_serve.Cache.Eviction.{ExpireBy, evict_if_needed_keeps_last}
use opencode_a2a_serve.Cache.Bounds.{IsBounded}

module _ {ℓ} {K : Type ℓ} ⦃e : Eq K⦄ where
  -- `get` on an enabled cache returns a value exactly if it is stored for the key and expires
  -- later than `now`.
  pub get_iff :
      (key : K) (now : ℕ) (c : TtlCache K) (value : String)
      → is_disabled c ≡ false
      → ((get key now c).0 ≡ some value)
        ↔ ((exp : ℕ) × (lookup key c.store ≡ some (value, exp)) × (now < exp))
  unfolding get
  get_iff key now c value on = elim (Option-cases (lookup key c.store)) [
    | inl absent ↦ (λ h. absurd (ground arith), λ h. ground arith)
    | inr (item, present) ↦ (λ h. (item.1, ground arith, ground arith), λ h. ground arith)
  ]

  set_enabled :
      (key : K) (value : String) (now : ℕ) (c : TtlCache K)
      → is_disabled (set key value now c) ≡ is_disabled c
  unfolding set
  set_enabled key value now c = ground arith

  set_stores :
      (key : K) (value : String) (now : ℕ) (c : TtlCache K)
      → is_disabled c ≡ false
      → IsBounded c
      → ExpireBy (now + pos_part c.ttl_seconds) c.store
      → lookup key (set key value now c).store ≡ some (value, now + pos_part c.ttl_seconds)
  unfolding set
  set_stores key value now c on b last =
      let x = now + pos_part c.ttl_seconds in
      rw on (elim (Option-cases (lookup key c.store)) [
        | inl absent ↦ rw (insert_of_absent key (value, x) c.store absent) (
            evict_if_needed_keeps_last now (pos_part c.maxsize) key value x c.store (ground arith)
              (ground arith) absent last b.nodup)
        | inr (old, present) ↦
            let same = length-insert_of_present key (value, x) c.store (ground arith) in
            unfold evict_if_needed in
            ground (arith, b.fits, same, lookup-insert key key (value, x) c.store)
      ])

  -- On an enabled, bounded cache whose entries all expire by `now + ttl_seconds` (as they do when
  -- the clock never goes back), a value that is set at `now` is what `get` returns at every later
  -- reading before `now + ttl_seconds`, whatever eviction the `set` made.
  pub get-set_self :
      (key : K) (value : String) (now later : ℕ) (c : TtlCache K)
      → is_disabled c ≡ false
      → IsBounded c
      → ExpireBy (now + pos_part c.ttl_seconds) c.store
      → later < now + pos_part c.ttl_seconds
      → (get key later (set key value now c)).0 ≡ some value
  get-set_self key value now later c on b last h =
      (get_iff key later (set key value now c) value (set_enabled key value now c ∙ on)).1
        (now + pos_part c.ttl_seconds, set_stores key value now c on b last, h)
