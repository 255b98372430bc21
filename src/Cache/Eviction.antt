-- ===== src/Cache/Eviction.antt =====
-- Which entries the eviction of the cache of src/opencode_a2a/execution/stream_state.py takes.
use opencode_a2a_serve.Base.Names.{ℕ, ◌-◌, ◌≤◌, ◌<◌, false, String, none, some}
use opencode_a2a_serve.Base.Names.{
  List, ◌∷◌, [], ◌++◌, ◌≡◌, ◌≢◌, refl, arith, ◌∙◌, suc, zero, inl, inr, ap,
}
use opencode_a2a_serve.Base.Equality.{Eq, Bool-cases, contains}
use opencode_a2a_serve.Base.Lists.{length, take, leb, length-append}
use opencode_a2a_serve.Base.Dict.{Dict, keys, lookup, erase, erase_all, NodupKeys}
use opencode_a2a_serve.Base.Dict.{lookup-erase_all, contains-keys, erase_all-NodupKeys}
use opencode_a2a_serve.Base.Dict.Size.{lookup-take}
use opencode_a2a_serve.Base.Sort.{sorted, insert_sorted, lookup-sorted, length-sorted}
use opencode_a2a_serve.Cache.{expired_keys, by_expiry, evict_overflow, evict_if_needed}

-- Every entry expires by `limit`: with a clock that does not go back, `now + ttl_seconds` is one.
abbrev pub ExpireBy {ℓ} : {K : Type ℓ} → ℕ → Dict K (String × ℕ) → Type 0
ExpireBy limit [] = Unit
ExpireBy limit ((_, (_, exp)) ∷ d) = (exp ≤ limit) × ExpireBy limit d

module _ {ℓ} {K : Type ℓ} ⦃e : Eq K⦄ where
  expired_keys_fresh :
      (key : K) (value : String) (exp now : ℕ) (d : Dict K (String × ℕ))
      → lookup key d ≡ none
      → now < exp
      → contains (expired_keys now (d ++ (key, (value, exp)) ∷ [])) key ≡ false
  unfolding expired_keys lookup
  expired_keys_fresh key value exp now [] h lt = ground arith
  expired_keys_fresh key value exp now ((j, (w, x)) ∷ d) h lt =
      ground (arith, expired_keys_fresh key value exp now d)

  erase_last :
      (j k : K) (v : String × ℕ) (d : Dict K (String × ℕ))
      → j ≢ k
      → erase j (d ++ (k, v) ∷ []) ≡ erase j d ++ (k, v) ∷ []
  unfolding erase
  erase_last j k v [] n = ground arith
  erase_last j k v ((i, w) ∷ d) n = ground (arith, erase_last j k v d)

  erase_all_last :
      (ks : List K) (k : K) (v : String × ℕ) (d : Dict K (String × ℕ))
      → contains ks k ≡ false
      → erase_all ks (d ++ (k, v) ∷ []) ≡ erase_all ks d ++ (k, v) ∷ []
  unfolding erase_all
  erase_all_last [] k v d h = refl
  erase_all_last (j ∷ ks) k v d h =
      rw (erase_last j k v d (ground arith)) (ground (arith, erase_all_last ks k v (erase j d)))

  -- What is left of a dictionary keeps its bound.
  erase-ExpireBy :
      (limit : ℕ) (k : K) (d : Dict K (String × ℕ)) → ExpireBy limit d → ExpireBy limit (erase k d)
  unfolding erase
  erase-ExpireBy limit k [] h = tt
  erase-ExpireBy limit k ((j, (v, x)) ∷ d) h = ground (arith, erase-ExpireBy limit k d)

  erase_all-ExpireBy :
      (limit : ℕ) (ks : List K) (d : Dict K (String × ℕ))
      → ExpireBy limit d
      → ExpireBy limit (erase_all ks d)
  unfolding erase_all
  erase_all-ExpireBy limit [] d h = h
  erase_all-ExpireBy limit (k ∷ ks) d h =
      erase_all-ExpireBy limit ks (erase k d) (erase-ExpireBy limit k d h)

-- An entry that is above all the others sorts last, since the sort is stable.
module _ {ℓ} {K : Type ℓ} where
  insert_sorted_last :
      (x y : K × (String × ℕ)) (d : Dict K (String × ℕ))
      → x.1.1 ≤ y.1.1
      → insert_sorted by_expiry x (d ++ y ∷ []) ≡ insert_sorted by_expiry x d ++ y ∷ []
  unfolding insert_sorted
  insert_sorted_last x y [] h = ground arith
  insert_sorted_last x y (z ∷ d) h = ground (arith, insert_sorted_last x y d)

  sorted_last :
      (y : K × (String × ℕ)) (d : Dict K (String × ℕ))
      → ExpireBy y.1.1 d
      → sorted by_expiry (d ++ y ∷ []) ≡ sorted by_expiry d ++ y ∷ []
  unfolding sorted
  sorted_last y [] h = refl
  sorted_last y (x ∷ d) h =
      ap (insert_sorted by_expiry x) (sorted_last y d h.1)
      ∙ insert_sorted_last x y (sorted by_expiry d) h.0

  take_before_last :
      (n : ℕ) (y : K × (String × ℕ)) (d : Dict K (String × ℕ))
      → n ≤ length d
      → take n (d ++ y ∷ []) ≡ take n d
  take_before_last zero y d h = refl
  take_before_last (suc n) y [] h = absurd (omega arith)
  take_before_last (suc n) y (x ∷ d) h =
      ap (λ (t : Dict K (String × ℕ)). x ∷ t) (take_before_last n y d (omega arith))

module _ {ℓ} {K : Type ℓ} ⦃e : Eq K⦄ where
  lookup_last :
      (k : K) (v : String × ℕ) (d : Dict K (String × ℕ))
      → lookup k d ≡ none
      → lookup k (d ++ (k, v) ∷ []) ≡ some v
  unfolding lookup
  lookup_last k v [] h = ground arith
  lookup_last k v ((j, w) ∷ d) h = ground (arith, lookup_last k v d)

  take_lacks :
      (n : ℕ) (k : K) (d : Dict K (String × ℕ))
      → lookup k d ≡ none
      → contains (keys (take n d)) k ≡ false
  take_lacks n k d h = elim (Bool-cases (contains (keys (take n d)) k)) [
    | inl has ↦ absurd (lookup-take n k d ((contains-keys (take n d) k).0 has) h)
    | inr lacks ↦ lacks
  ]

  module _ (maxsize : ℕ) (k : K) (v : String) (x : ℕ) (d : Dict K (String × ℕ)) (room : 0 < maxsize)
      (absent : lookup k d ≡ none) (last : ExpireBy x d) (u : NodupKeys d) where
    evicted-eq :
        take (length (d ++ (k, (v, x)) ∷ []) - maxsize) (sorted by_expiry (d ++ (k, (v, x)) ∷ []))
        ≡ take (length (d ++ (k, (v, x)) ∷ []) - maxsize) (sorted by_expiry d)
    evicted-eq = rw (sorted_last (k, (v, x)) d last) (
        take_before_last (length (d ++ (k, (v, x)) ∷ []) - maxsize) (k, (v, x)) (sorted by_expiry d)
          (omega (arith, length-sorted by_expiry d, length-append d ((k, (v, x)) ∷ []))))

    evict_overflow_keeps_last :
        lookup k (evict_overflow maxsize (d ++ (k, (v, x)) ∷ [])) ≡ some (v, x)
    unfolding evict_overflow
    evict_overflow_keeps_last = elim (Bool-cases (leb (length (d ++ (k, (v, x)) ∷ [])) maxsize)) [
      | inl fits ↦ rw fits (lookup_last k (v, x) d absent)
      | inr over ↦
          rw (over, evicted-eq)
            (lookup-erase_all k _ (d ++ (k, (v, x)) ∷ [])
              ∙ rw (take_lacks _ k (sorted by_expiry d) (lookup-sorted by_expiry k d u ∙ absent))
                  (lookup_last k (v, x) d absent))
    ]

  -- Evicting keeps an entry that was appended, has not expired and expires last.
  pub evict_if_needed_keeps_last :
      (now maxsize : ℕ) (k : K) (v : String) (x : ℕ) (d : Dict K (String × ℕ))
      → 0 < maxsize
      → now < x
      → lookup k d ≡ none
      → ExpireBy x d
      → NodupKeys d
      → lookup k (evict_if_needed now maxsize (d ++ (k, (v, x)) ∷ [])) ≡ some (v, x)
  unfolding evict_if_needed
  evict_if_needed_keeps_last now maxsize k v x d room fresh absent last u =
      let ks = expired_keys now (d ++ (k, (v, x)) ∷ []) in
      let lacks = expired_keys_fresh k v x now d absent fresh in
      elim (Bool-cases (leb (length (d ++ (k, (v, x)) ∷ [])) maxsize)) [
        | inl fits ↦ rw fits (lookup_last k (v, x) d absent)
        | inr over ↦
            rw (over, erase_all_last ks k (v, x) d lacks)
              (evict_overflow_keeps_last maxsize k v x (erase_all ks d) room
                (lookup-erase_all k ks d ∙ rw lacks absent) (erase_all-ExpireBy x ks d last)
                (erase_all-NodupKeys ks d u))
      ]
