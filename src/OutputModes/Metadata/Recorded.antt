-- ===== src/OutputModes/Metadata/Recorded.antt =====
-- The metadata of src/opencode_a2a/output_modes.py are read back as they were written.
use opencode_a2a_serve.Base.Names.{
  String, Option, some, List, [], ◌∷◌, ◌≡◌, refl, sym, ap, subst, ◌∙◌, arith,
}
use opencode_a2a_serve.Base.Equality.{◌==◌, string_eq, if◌then◌else◌}
use opencode_a2a_serve.Base.Text.{strip, text_leb}
use opencode_a2a_serve.Base.Value.{
  Value, null, bool, int, float, array, dict, str, Fields, get, put, get-put, get-put_self,
}
use opencode_a2a_serve.Base.Sort.{sorted}
use opencode_a2a_serve.OutputModes.{normalize_accepted_output_modes}
use opencode_a2a_serve.OutputModes.Metadata.{
  texts, modes_source, as_texts, of_texts, fields_or_empty, negotiation, merged_metadata, get_of,
  build_output_negotiation_metadata, merge_output_negotiation_metadata,
  extract_accepted_output_modes_from_metadata,
}
use opencode_a2a_serve.OutputModes.Metadata.Normal.{normalize-sorted}

-- What stands under the other keys, beside the negotiation, is the same before and after.
abbrev pub KeepsOthers : Value → Value → Type 0
KeepsOthers before after =
    ((key : String)
      → get_of key after
        ≡ (if key == "opencode" then get_of "opencode" after else get_of key before))
    × ((key : String)
        → get_of key (get_of "opencode" after) ≡ (
            if key == "output_negotiation"
            then get_of "output_negotiation" (get_of "opencode" after)
            else get_of key (get_of "opencode" before)))

get_of_lem : (key : String) (v : Value) → get_of key v ≡ get key (fields_or_empty v)
unfolding get
get_of_lem key (dict fields) = refl
get_of_lem key null = refl
get_of_lem key (bool b) = refl
get_of_lem key (int n) = refl
get_of_lem key (float m e) = refl
get_of_lem key (str s) = refl
get_of_lem key (array items) = refl

texts-of_texts : (xs : List String) → texts (of_texts xs) ≡ as_texts xs
unfolding texts of_texts
texts-of_texts [] = refl
texts-of_texts (x ∷ xs) = ap (λ rest. some x ∷ rest) (texts-of_texts xs)

-- The negotiation in what was built, and in the merged metadata
abbrev negotiated : Fields → Fields
negotiated built =
    fields_or_empty (get "output_negotiation" (fields_or_empty (get "opencode" built)))

negotiated_lem :
    (modes : List String)
    → get "accepted_output_modes" (negotiated (negotiation modes))
      ≡ array (of_texts (sorted text_leb modes))
unfolding negotiation get string_eq
negotiated_lem modes = refl

opencode_of_merged :
    (metadata : Value) (built : Fields)
    → get_of "opencode" (merged_metadata metadata built)
      ≡ dict (
          put "output_negotiation"
            (dict (negotiated built))
            (fields_or_empty (get "opencode" (fields_or_empty metadata))))
unfolding merged_metadata
opencode_of_merged metadata built = get-put_self "opencode" _ (fields_or_empty metadata)

negotiation_of_merged :
    (metadata : Value) (built : Fields)
    → get_of "output_negotiation" (get_of "opencode" (merged_metadata metadata built))
      ≡ dict (negotiated built)
negotiation_of_merged metadata built =
    ap (get_of "output_negotiation") (opencode_of_merged metadata built)
    ∙ get-put_self "output_negotiation" _ _

merged_modes :
    (metadata : Value) (modes : List String)
    → get_of "accepted_output_modes" (
        get_of "output_negotiation"
          (get_of "opencode" (merged_metadata metadata (negotiation modes))))
      ≡ array (of_texts (sorted text_leb modes))
merged_modes metadata modes =
    ap (get_of "accepted_output_modes") (negotiation_of_merged metadata (negotiation modes))
    ∙ negotiated_lem modes

-- A key that was written, and the others
get-put_others :
    (key k : String) (v w : Value) (d : Fields)
    → get k (put k v d) ≡ w
    → get key (put k v d) ≡ (if key == k then w else get key d)
get-put_others key k v w d h = ground (arith, h, get-put key k v d, get-put k k v d)

merged-KeepsOthers :
    (metadata : Value) (built : Fields) → KeepsOthers metadata (merged_metadata metadata built)
merged-KeepsOthers metadata built = (
  λ key.
      rw (get_of_lem key metadata) (
        unfold merged_metadata in
        get-put_others key "opencode" _ _ (fields_or_empty metadata) refl),
  λ key. rw (opencode_of_merged metadata built) (
      rw (get_of_lem key (get_of "opencode" metadata))
        (rw (get_of_lem "opencode" metadata) (get-put_others key "output_negotiation" _ _ _ refl))),
)

module _ (lower : String → String) where
  -- The metadata name the modes, in their order.
  abbrev pub Records : List String → Value → Type 0
  Records modes metadata =
      extract_accepted_output_modes_from_metadata lower metadata ≡ some (sorted text_leb modes)

  build_lem :
      (accepted : Option (List (Option String))) (modes : List String)
      → normalize_accepted_output_modes lower accepted ≡ some modes
      → build_output_negotiation_metadata lower accepted ≡ some (negotiation modes)
  unfolding build_output_negotiation_metadata
  build_lem accepted modes n = rw (n, build_output_negotiation_metadata)

  merge_lem :
      (metadata : Value) (accepted : Option (List (Option String))) (modes : List String)
      → normalize_accepted_output_modes lower accepted ≡ some modes
      → merge_output_negotiation_metadata lower metadata accepted
        ≡ merged_metadata metadata (negotiation modes)
  unfolding merge_output_negotiation_metadata
  merge_lem metadata accepted modes n =
      rw (build_lem accepted modes n, merge_output_negotiation_metadata)

  module _ (lower_again : (s : String) → lower (strip (lower (strip s))) ≡ lower (strip s)) where
    merged-Records :
        (metadata : Value) (accepted : Option (List (Option String))) (modes : List String)
        → normalize_accepted_output_modes lower accepted ≡ some modes
        → Records modes (merged_metadata metadata (negotiation modes))
    unfolding extract_accepted_output_modes_from_metadata modes_source
    merged-Records metadata accepted modes n = rw (merged_modes metadata modes) (
        rw (texts-of_texts (sorted text_leb modes))
          (normalize-sorted lower lower_again accepted modes n))

    -- For lower-casing that is settled after one round: when the accepted output modes come out as
    -- a list of modes, the modes that are read from any metadata after the merge are that list in
    -- sorted order; every other key of the metadata, and every other key under `opencode`, has the
    -- value that it had.
    pub extract-merge :
        (metadata : Value) (accepted : Option (List (Option String))) (modes : List String)
        → normalize_accepted_output_modes lower accepted ≡ some modes
        → Records modes (merge_output_negotiation_metadata lower metadata accepted)
          × KeepsOthers metadata (merge_output_negotiation_metadata lower metadata accepted)
    extract-merge metadata accepted modes n =
        subst (λ after. Records modes after × KeepsOthers metadata after)
          (sym (merge_lem metadata accepted modes n))
          (
            merged-Records metadata accepted modes n,
            merged-KeepsOthers metadata (negotiation modes),
          )
