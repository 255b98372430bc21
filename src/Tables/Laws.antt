-- ===== src/Tables/Laws.antt =====
-- What the statements of src/opencode_a2a/server/state_store.py leave in a table.
use opencode_a2a_serve.Base.Names.{
  Bool, Option, none, some, [], ◌∷◌, ◌++◌, ◌≡◌, refl, arith, inl, inr,
}
use opencode_a2a_serve.Base.Equality.{Eq, ◌==◌, if◌then◌else◌, Option-cases}
use opencode_a2a_serve.Base.Dict.{Dict, lookup, NodupKeys}
use opencode_a2a_serve.Tables.{update_row, insert_then_update, delete_where}

abbrev pub replaced : {V : Type 0} → V → Option V → Option V
replaced v none = none
replaced v (some _) = some v

module _ {K V : Type 0} ⦃e : Eq K⦄ where
  lookup-append_one :
      (j k : K) (v : V) (t : Dict K V)
      → lookup k t ≡ none
      → lookup j (t ++ (k, v) ∷ []) ≡ (if j == k then some v else lookup j t)
  unfolding lookup
  lookup-append_one j k v [] h = refl
  lookup-append_one j k v ((i, w) ∷ t) h = ground (arith, lookup-append_one j k v t)

  pub lookup-update_row :
      (j k : K) (v : V) (t : Dict K V)
      → lookup j (update_row k v t) ≡ (if j == k then replaced v (lookup j t) else lookup j t)
  unfolding lookup update_row
  lookup-update_row j k v [] = ground arith
  lookup-update_row j k v ((i, w) ∷ t) = ground (arith, lookup-update_row j k v t)

  -- An INSERT that becomes an UPDATE when the key is taken sets the row of its key and no other.
  pub lookup-insert_then_update :
      (j k : K) (v : V) (t : Dict K V)
      → lookup j (insert_then_update k v t) ≡ (if j == k then some v else lookup j t)
  unfolding insert_then_update
  lookup-insert_then_update j k v t = elim (Option-cases (lookup k t)) [
    | inl absent ↦ rw (absent, insert_then_update) (lookup-append_one j k v t absent)
    | inr (w, present) ↦
        rw (present, insert_then_update) (ground (arith, lookup-update_row j k v t))
  ]

  pub lookup-delete_key :
      (j k : K) (t : Dict K V)
      → lookup j (delete_where (λ i _. i == k) t) ≡ (if j == k then none else lookup j t)
  unfolding lookup delete_where
  lookup-delete_key j k [] = ground arith
  lookup-delete_key j k ((i, w) ∷ t) = ground (arith, lookup-delete_key j k t)

-- What a DELETE leaves of the row of a key.
abbrev pub kept : {K V : Type 0} → (K → V → Bool) → K → Option V → Option V
kept p k none = none
kept p k (some v) = if p k v then none else some v

module _ {K V : Type 0} ⦃e : Eq K⦄ (p : K → V → Bool) where
  pub lookup-delete_where :
      (k : K) (t : Dict K V) → NodupKeys t → lookup k (delete_where p t) ≡ kept p k (lookup k t)
  unfolding lookup delete_where
  lookup-delete_where k [] u = refl
  lookup-delete_where k ((j, v) ∷ t) (fresh, u) = ground (arith, lookup-delete_where k t u)

  pub delete_where-NodupKeys : (t : Dict K V) → NodupKeys t → NodupKeys (delete_where p t)
  unfolding delete_where
  delete_where-NodupKeys [] u = tt
  delete_where-NodupKeys ((j, v) ∷ t) (fresh, u) =
      ground (arith, delete_where-NodupKeys t u, lookup-delete_where j t u)

module _ {K V : Type 0} ⦃e : Eq K⦄ where
  append_one-NodupKeys :
      (k : K) (v : V) (t : Dict K V)
      → lookup k t ≡ none
      → NodupKeys t
      → NodupKeys (t ++ (k, v) ∷ [])
  unfolding lookup
  append_one-NodupKeys k v [] h u = (refl, tt)
  append_one-NodupKeys k v ((j, w) ∷ t) h (fresh, u) =
      (ground (arith, lookup-append_one j k v t), append_one-NodupKeys k v t (ground arith) u)

  pub update_row-NodupKeys :
      (k : K) (v : V) (t : Dict K V) → NodupKeys t → NodupKeys (update_row k v t)
  unfolding update_row
  update_row-NodupKeys k v [] u = tt
  update_row-NodupKeys k v ((j, w) ∷ t) (fresh, u) =
      ground (arith, lookup-update_row j k v t, update_row-NodupKeys k v t u)

  pub insert_then_update-NodupKeys :
      (k : K) (v : V) (t : Dict K V) → NodupKeys t → NodupKeys (insert_then_update k v t)
  unfolding insert_then_update
  insert_then_update-NodupKeys k v t u = elim (Option-cases (lookup k t)) [
    | inl absent ↦ rw (absent, insert_then_update) (append_one-NodupKeys k v t absent u)
    | inr (w, present) ↦ rw (present, insert_then_update) (update_row-NodupKeys k v t u)
  ]
