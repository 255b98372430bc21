-- ===== src/Base/Sort.antt =====
-- Python's `sorted`: a stable sort by a test `le`, written as insertion into a sorted list.
use opencode_a2a_serve.Base.Names.{suc, ◌≡◌, refl, Bool, true, false, ap, sym, ◌||◌}
use opencode_a2a_serve.Base.Names.{none, some, List, [], ◌∷◌, arith, ◌∙◌}
use opencode_a2a_serve.Base.Equality.{Eq, ◌==◌, contains, if◌then◌else◌}
use opencode_a2a_serve.Base.Lists.{length}
use opencode_a2a_serve.Base.Dict.{Dict, lookup, NodupKeys, lookup-cons}

module _ {ℓ} {A : Type ℓ} (le : A → A → Bool) where
  -- `x` before the first element that it is not above: equals keep their order.
  unfoldable pub insert_sorted : A → List A → List A
  insert_sorted x [] = x ∷ []
  insert_sorted x (y ∷ ys) = if le x y then x ∷ y ∷ ys else y ∷ insert_sorted x ys

  unfoldable pub sorted : List A → List A
  unfolding insert_sorted
  sorted [] = []
  sorted (x ∷ xs) = insert_sorted x (sorted xs)

  -- Each element is below all that follow it.
  abbrev pub AllAbove : A → List A → Type 0
  AllAbove x [] = Unit
  AllAbove x (y ∷ ys) = (le x y ≡ true) × AllAbove x ys

  abbrev pub IsSorted : List A → Type 0
  IsSorted [] = Unit
  IsSorted (x ∷ xs) = AllAbove x xs × IsSorted xs

  pub length-insert_sorted : (x : A) (xs : List A) → length (insert_sorted x xs) ≡ suc (length xs)
  unfolding insert_sorted
  length-insert_sorted x [] = refl
  length-insert_sorted x (y ∷ ys) = ground (arith, length-insert_sorted x ys)

  pub length-sorted : (xs : List A) → length (sorted xs) ≡ length xs
  unfolding sorted
  length-sorted [] = refl
  length-sorted (x ∷ xs) = length-insert_sorted x (sorted xs) ∙ ap suc (length-sorted xs)

  insert_sorted-cons : (x : A) (xs : List A) → AllAbove x xs → insert_sorted x xs ≡ x ∷ xs
  unfolding insert_sorted
  insert_sorted-cons x [] a = refl
  insert_sorted-cons x (y ∷ ys) (p, a) = rw p refl

  -- Sorting a sorted list changes nothing.
  pub sorted_same : (xs : List A) → IsSorted xs → sorted xs ≡ xs
  unfolding sorted
  sorted_same [] s = refl
  sorted_same (x ∷ xs) (a, s) = rw (sorted_same xs s) (insert_sorted-cons x xs a)

  module _ (total : (x y : A) → le x y ≡ false → le y x ≡ true)
      (transitive : (x y z : A) → le x y ≡ true → le y z ≡ true → le x z ≡ true) where
    AllAbove-trans : (x y : A) (ys : List A) → le x y ≡ true → AllAbove y ys → AllAbove x ys
    AllAbove-trans x y [] h a = tt
    AllAbove-trans x y (z ∷ zs) h (p, a) = (transitive x y z h p, AllAbove-trans x y zs h a)

    insert_sorted-AllAbove :
        (x y : A) (ys : List A) → le y x ≡ true → AllAbove y ys → AllAbove y (insert_sorted x ys)
    unfolding insert_sorted
    insert_sorted-AllAbove x y [] h a = (h, tt)
    insert_sorted-AllAbove x y (z ∷ zs) h (p, a) = ground (arith, insert_sorted-AllAbove x y zs h a)

    insert_sorted-IsSorted : (x : A) (xs : List A) → IsSorted xs → IsSorted (insert_sorted x xs)
    unfolding insert_sorted
    insert_sorted-IsSorted x [] s = (tt, tt)
    insert_sorted-IsSorted x (y ∷ ys) (a, s) = ground (
      arith,
      total x y,
      AllAbove-trans x y ys,
      insert_sorted-AllAbove x y ys,
      insert_sorted-IsSorted x ys s,
    )

    pub sorted-IsSorted : (xs : List A) → IsSorted (sorted xs)
    unfolding sorted
    sorted-IsSorted [] = tt
    sorted-IsSorted (x ∷ xs) = insert_sorted-IsSorted x (sorted xs) (sorted-IsSorted xs)

-- Sorting keeps the elements.
module _ {ℓ} {A : Type ℓ} ⦃e : Eq A⦄ (le : A → A → Bool) where
  pub contains-insert_sorted :
      (x a : A) (xs : List A) → contains (insert_sorted le x xs) a ≡ (a == x || contains xs a)
  unfolding insert_sorted
  contains-insert_sorted x a [] = refl
  contains-insert_sorted x a (y ∷ ys) = ground (arith, contains-insert_sorted x a ys)

  pub contains-sorted : (a : A) (xs : List A) → contains (sorted le xs) a ≡ contains xs a
  unfolding sorted
  contains-sorted a [] = refl
  contains-sorted a (x ∷ xs) =
      contains-insert_sorted x a (sorted le xs) ∙ rw (contains-sorted a xs) refl

-- Sorting the items of a dictionary keeps what each key holds.
module _ {ℓ κ} {K : Type ℓ} {V : Type κ} ⦃e : Eq K⦄ (le : K × V → K × V → Bool) where
  lookup-insert_sorted :
      (j k : K) (v : V) (d : Dict K V)
      → lookup k d ≡ none
      → lookup j (insert_sorted le (k, v) d) ≡ (if j == k then some v else lookup j d)
  unfolding insert_sorted lookup
  lookup-insert_sorted j k v [] h = refl
  lookup-insert_sorted j k v ((i, w) ∷ d) h = ground (arith, lookup-insert_sorted j k v d)

  insert_sorted-NodupKeys :
      (k : K) (v : V) (d : Dict K V)
      → lookup k d ≡ none
      → NodupKeys d
      → NodupKeys (insert_sorted le (k, v) d)
  unfolding insert_sorted lookup
  insert_sorted-NodupKeys k v [] h u = (refl, tt)
  insert_sorted-NodupKeys k v ((i, w) ∷ d) h (fresh, u) =
      ground (arith, insert_sorted-NodupKeys k v d, lookup-insert_sorted i k v d)

  pub lookup-sorted : (j : K) (d : Dict K V) → NodupKeys d → lookup j (sorted le d) ≡ lookup j d
  unfolding sorted
  lookup-sorted j [] u = refl
  lookup-sorted j ((k, v) ∷ d) (fresh, u) =
      lookup-insert_sorted j k v (sorted le d) (lookup-sorted k d u ∙ fresh)
      ∙ rw (lookup-sorted j d u) (sym (lookup-cons j k v d))

  pub sorted-NodupKeys : (d : Dict K V) → NodupKeys d → NodupKeys (sorted le d)
  unfolding sorted
  sorted-NodupKeys [] u = tt
  sorted-NodupKeys ((k, v) ∷ d) (fresh, u) =
      insert_sorted-NodupKeys k v (sorted le d) (lookup-sorted k d u ∙ fresh) (sorted-NodupKeys d u)
