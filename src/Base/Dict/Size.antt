-- ===== src/Base/Dict/Size.antt =====
-- How many entries a dictionary has after it was changed.
use opencode_a2a_serve.Base.Names.{ℕ, zero, suc, ◌+◌, ◌≤◌, ◌≡◌, refl, ◌≢◌, none, [], ◌∷◌}
use opencode_a2a_serve.Base.Names.{arith, ◌++◌}
use opencode_a2a_serve.Base.Equality.{Eq}
use opencode_a2a_serve.Base.Lists.{length, take}
use opencode_a2a_serve.Base.Dict.{
  Dict, keys, lookup, insert, erase, erase_all, NodupKeys, lookup-erase,
}
use opencode_a2a_serve.Base.Dict.{erase-NodupKeys}

module _ {ℓ κ} {K : Type ℓ} {V : Type κ} ⦃e : Eq K⦄ where
  pub erase_of_absent : (k : K) (d : Dict K V) → lookup k d ≡ none → erase k d ≡ d
  unfolding erase lookup
  erase_of_absent k [] h = refl
  erase_of_absent k ((j, v) ∷ d) h = ground (arith, erase_of_absent k d)

  pub length-erase-le : (k : K) (d : Dict K V) → length (erase k d) ≤ length d
  unfolding erase
  length-erase-le k [] = omega arith
  length-erase-le k ((j, v) ∷ d) = ground (arith, length-erase-le k d)

  pub length-erase :
      (k : K) (d : Dict K V) → NodupKeys d → lookup k d ≢ none → suc (length (erase k d)) ≡ length d
  unfolding erase lookup
  length-erase k [] u h = absurd (h refl)
  length-erase k ((j, v) ∷ d) (fresh, u) h = ground (arith, length-erase k d u, erase_of_absent k d)

  present_head : (k : K) (v : V) (d : Dict K V) → lookup k ((k, v) ∷ d) ≢ none
  unfolding lookup
  present_head k v d h = ground arith

  present_tail :
      (j k : K) (v : V) (d : Dict K V)
      → lookup k d ≡ none
      → lookup j d ≢ none
      → (lookup j ((k, v) ∷ d) ≢ none) × (j ≢ k)
  unfolding lookup
  present_tail j k v d fresh h = ground arith

  kept_by_erase : (j k : K) (d : Dict K V) → j ≢ k → lookup j d ≢ none → lookup j (erase k d) ≢ none
  kept_by_erase j k d n h = ground (arith, lookup-erase j k d)

module _ {ℓ κ} {K : Type ℓ} {V W : Type κ} ⦃e : Eq K⦄ where
  -- Erasing the keys of a part of `d` takes out that many entries.
  pub length-erase_all-keys :
      (p : Dict K W) (d : Dict K V)
      → NodupKeys p
      → NodupKeys d
      → ((j : K) → lookup j p ≢ none → lookup j d ≢ none)
      → length (erase_all (keys p) d) + length p ≡ length d
  unfolding erase_all
  length-erase_all-keys [] d _ u h = omega arith
  length-erase_all-keys ((k, w) ∷ p) d (fresh, up) u h =
      let pair = λ (j : K) (q : lookup j p ≢ none). present_tail j k w p fresh q in
      omega (
        arith,
        length-erase_all-keys p (erase k d) up (erase-NodupKeys k d u)
            (λ j q. kept_by_erase j k d (pair j q).1 (h j (pair j q).0)),
        length-erase k d u (h k (present_head k w p)),
      )

module _ {ℓ κ} {K : Type ℓ} {V : Type κ} ⦃e : Eq K⦄ where
  pub lookup-take : (n : ℕ) (j : K) (d : Dict K V) → lookup j (take n d) ≢ none → lookup j d ≢ none
  unfolding lookup
  lookup-take zero j d h = absurd (h refl)
  lookup-take (suc n) j [] h = h
  lookup-take (suc n) j ((k, v) ∷ d) h = ground (arith, lookup-take n j d)

  pub take-NodupKeys : (n : ℕ) (d : Dict K V) → NodupKeys d → NodupKeys (take n d)
  take-NodupKeys zero d u = tt
  take-NodupKeys (suc n) [] u = tt
  take-NodupKeys (suc n) ((k, v) ∷ d) (fresh, u) =
      (ground (arith, lookup-take n k d), take-NodupKeys n d u)

  pub length-insert_of_present :
      (k : K) (v : V) (d : Dict K V) → lookup k d ≢ none → length (insert k v d) ≡ length d
  unfolding insert lookup
  length-insert_of_present k v [] h = absurd (h refl)
  length-insert_of_present k v ((j, w) ∷ d) h = ground (arith, length-insert_of_present k v d)

  -- A new key goes to the end.
  pub insert_of_absent :
      (k : K) (v : V) (d : Dict K V) → lookup k d ≡ none → insert k v d ≡ d ++ (k, v) ∷ []
  unfolding insert lookup
  insert_of_absent k v [] h = refl
  insert_of_absent k v ((j, w) ∷ d) h = ground (arith, insert_of_absent k v d)
