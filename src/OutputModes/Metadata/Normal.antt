-- ===== src/OutputModes/Metadata/Normal.antt =====
-- What the normalization of src/opencode_a2a/output_modes.py gives is a list of modes, and it keeps one.
use mathlib.Core.List.{append-nil, append_assoc}
use mathlib.Core.Option.{some-injective}
use opencode_a2a_serve.Base.Names.{
  String, true, false, Option, none, some, List, [], ◌∷◌, ◌++◌, ◌≡◌, ◌||◌, refl, arith, ap, subst,
  sym, ◌∙◌,
}
use opencode_a2a_serve.Base.Equality.{◌==◌, string_eq, contains}
use opencode_a2a_serve.Base.Text.{is_truthy, strip, text_leb}
use opencode_a2a_serve.Base.Sort.{sorted, insert_sorted, contains-insert_sorted, contains-sorted}
use opencode_a2a_serve.OutputModes.{is_wildcard, normalize_from, normalize_accepted_output_modes}
use opencode_a2a_serve.OutputModes.Metadata.{as_texts}

module _ (lower : String → String) where
  -- A text that the normalization keeps as it is
  abbrev pub IsMode : String → Type 0
  IsMode mode = (lower (strip mode) ≡ mode) × (is_truthy mode ≡ true) × (is_wildcard mode ≡ false)

  -- Modes, each of them once
  abbrev pub AreModes : List String → Type 0
  AreModes [] = Unit
  AreModes (mode ∷ modes) = IsMode mode × (contains modes mode ≡ false) × AreModes modes

  contains-snoc :
      (xs : List String) (x a : String) → contains (xs ++ x ∷ []) a ≡ (contains xs a || a == x)
  contains-snoc [] x a = ground arith
  contains-snoc (y ∷ ys) x a = ground (arith, contains-snoc ys x a)

  snoc-AreModes :
      (xs : List String) (x : String)
      → IsMode x
      → contains xs x ≡ false
      → AreModes xs
      → AreModes (xs ++ x ∷ [])
  snoc-AreModes [] x m h a = (m, refl, tt)
  snoc-AreModes (y ∷ ys) x m h (n, fresh, a) =
      ground (arith, m, h, n, fresh, contains-snoc ys x y, snoc-AreModes ys x m)

  insert-AreModes :
      (x : String) (xs : List String)
      → IsMode x
      → contains xs x ≡ false
      → AreModes xs
      → AreModes (insert_sorted text_leb x xs)
  unfolding insert_sorted
  insert-AreModes x [] m h a = (m, refl, tt)
  insert-AreModes x (y ∷ ys) m h (n, fresh, a) =
      ground (arith, m, h, n, fresh, contains-insert_sorted text_leb x y ys, insert-AreModes x ys m)

  sorted-AreModes : (xs : List String) → AreModes xs → AreModes (sorted text_leb xs)
  unfolding sorted
  sorted-AreModes [] a = tt
  sorted-AreModes (x ∷ xs) (m, fresh, a) =
      insert-AreModes x (sorted text_leb xs) m (contains-sorted text_leb x xs ∙ fresh)
        (sorted-AreModes xs a)

  -- The result of the loop is not empty.
  loop_ends-insert_sorted :
      (x : String) (xs : List String)
      → normalize_from lower [] (insert_sorted text_leb x xs) ≡ some (insert_sorted text_leb x xs)
  unfolding normalize_from insert_sorted
  loop_ends-insert_sorted x [] = refl
  loop_ends-insert_sorted x (y ∷ ys) = ground arith

  contains-middle :
      (xs : List String) (x a : String) (ys : List String)
      → contains (xs ++ x ∷ ys) a ≡ (contains xs a || a == x || contains ys a)
  contains-middle [] x a ys = refl
  contains-middle (y ∷ xs) x a ys = ground (arith, contains-middle xs x a ys)

  loop_ends-sorted :
      (xs : List String)
      → normalize_from lower [] xs ≡ some xs
      → normalize_from lower [] (sorted text_leb xs) ≡ some (sorted text_leb xs)
  unfolding sorted
  loop_ends-sorted [] h = h
  loop_ends-sorted (x ∷ xs) h = loop_ends-insert_sorted x (sorted text_leb xs)

  loop_ends :
      (values : List (Option String)) (xs modes : List String)
      → normalize_from lower values xs ≡ some modes
      → normalize_from lower [] modes ≡ some modes
  unfolding normalize_from
  loop_ends [] [] modes h = absurd (ground (arith, h))
  loop_ends [] (x ∷ xs) modes h = ground (arith, h)
  loop_ends (none ∷ values) xs modes h = loop_ends values xs modes h
  loop_ends (some value ∷ values) xs modes h =
      ground (
        arith,
        h,
        loop_ends values xs modes,
        loop_ends values (xs ++ lower (strip value) ∷ []) modes,
      )

  normalize_ends :
      (accepted : Option (List (Option String))) (modes : List String)
      → normalize_accepted_output_modes lower accepted ≡ some modes
      → normalize_from lower [] modes ≡ some modes
  unfolding normalize_accepted_output_modes
  normalize_ends none modes h = absurd (ground (arith, h))
  normalize_ends (some values) modes h = loop_ends values [] modes h

  head_is_fresh :
      (x : String) (xs ys : List String)
      → AreModes (xs ++ x ∷ ys)
      → (contains xs x ≡ false) × IsMode x
  head_is_fresh x [] ys (m, fresh, a) = (refl, m)
  head_is_fresh x (y ∷ xs) ys (n, fresh, a) =
      ground (arith, fresh, head_is_fresh x xs ys a, contains-middle xs x y ys)

  -- The loop takes modes as they are.
  loop_keeps :
      (xs ys : List String)
      → AreModes (xs ++ ys)
      → normalize_from lower (as_texts ys) xs ≡ normalize_from lower [] (xs ++ ys)
  unfolding normalize_from
  loop_keeps xs [] a = ap (normalize_from lower []) (sym (append-nil xs))
  loop_keeps xs (y ∷ ys) a =
      let (fresh, (same, given, plain)) = head_is_fresh y xs ys a in
      let a' = subst (λ zs. AreModes zs) (sym (append_assoc xs (y ∷ []) ys)) a in
      rw same (
        rw given (
          rw fresh (
            rw plain (
              loop_keeps (xs ++ y ∷ []) ys a'
              ∙ ap (normalize_from lower []) (append_assoc xs (y ∷ []) ys)))))

  module _ (lower_again : (s : String) → lower (strip (lower (strip s))) ≡ lower (strip s)) where
    loop-AreModes :
        (values : List (Option String)) (xs modes : List String)
        → AreModes xs
        → normalize_from lower values xs ≡ some modes
        → AreModes modes
    unfolding normalize_from
    loop-AreModes [] [] modes a h = absurd (ground (arith, h))
    loop-AreModes [] (x ∷ xs) modes a h = subst (λ zs. AreModes zs) (some-injective _ _ h) a
    loop-AreModes (none ∷ values) xs modes a h = loop-AreModes values xs modes a h
    loop-AreModes (some value ∷ values) xs modes a h =
        let mode = lower (strip value) in
        ground (
          arith,
          a,
          h,
          lower_again value,
          snoc-AreModes xs mode,
          loop-AreModes values xs modes a,
          loop-AreModes values (xs ++ mode ∷ []) modes,
        )

    pub normalize-AreModes :
        (accepted : Option (List (Option String))) (modes : List String)
        → normalize_accepted_output_modes lower accepted ≡ some modes
        → AreModes modes
    unfolding normalize_accepted_output_modes
    normalize-AreModes none modes h = absurd (ground (arith, h))
    normalize-AreModes (some values) modes h = loop-AreModes values [] modes tt h

    -- Normalizing a sorted result again changes nothing.
    pub normalize-sorted :
        (accepted : Option (List (Option String))) (modes : List String)
        → normalize_accepted_output_modes lower accepted ≡ some modes
        → normalize_accepted_output_modes lower (some (as_texts (sorted text_leb modes)))
          ≡ some (sorted text_leb modes)
    unfolding normalize_accepted_output_modes
    normalize-sorted accepted modes h =
        let a = normalize-AreModes accepted modes h in
        loop_keeps [] (sorted text_leb modes) (sorted-AreModes modes a)
        ∙ loop_ends-sorted modes (normalize_ends accepted modes h)

    -- Nor does normalizing a result.
    pub normalize_again :
        (accepted : Option (List (Option String))) (modes : List String)
        → normalize_accepted_output_modes lower accepted ≡ some modes
        → normalize_accepted_output_modes lower (some (as_texts modes)) ≡ some modes
    unfolding normalize_accepted_output_modes
    normalize_again accepted modes h =
        loop_keeps [] modes (normalize-AreModes accepted modes h) ∙ normalize_ends accepted modes h
