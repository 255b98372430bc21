-- ===== src/OutputModes/Tests.antt =====
-- src/opencode_a2a/output_modes.py with a client that accepts only plain text.
use opencode_a2a_serve.Base.Names.{String, Option, none, some, List, [], ◌∷◌, ◌≡◌, refl}
use opencode_a2a_serve.Base.Equality.{string_eq}
use opencode_a2a_serve.Base.Text.{strip, lower}
use opencode_a2a_serve.Base.Value.{Fields, end, field, str}
use opencode_a2a_serve.OutputModes.{
  File, AnyPart, text_part, data_part, file_part, Payload, artifact_update, part_media_type,
  text_fallback, accepts, normalize_from, normalize_accepted_output_modes, filter_part,
  filter_parts, filter_artifact, filter_payload, apply_accepted_output_modes,
}
use opencode_a2a_serve.OutputModes.Laws.{PayloadIsAccepted, apply-PayloadIsAccepted, apply_again}

abbrev dumps : Fields → String
dumps d = "{}"

abbrev image : File
image = record { mime_type = some "image/png"; mime_type_alias = none; content = end }

abbrev update : List AnyPart → Payload
update parts = artifact_update (record { artifact_parts = parts; artifact_others = end }) end

abbrev sent : Payload
sent = update (text_part "hi" ∷ data_part (field "a" (str "b") end) ∷ file_part image ∷ [])

abbrev received : Payload
received = update (text_part "hi" ∷ text_part "{}" ∷ [])

abbrev wanted : Option (List (Option String))
wanted = some (some " TEXT/plain " ∷ none ∷ some "" ∷ some "text/plain" ∷ [])

normalizes : normalize_accepted_output_modes lower wanted ≡ some ("text/plain" ∷ [])
unfolding normalize_accepted_output_modes normalize_from lower strip string_eq
normalizes = refl

applies : apply_accepted_output_modes lower dumps wanted sent ≡ some received
unfolding apply_accepted_output_modes normalize_accepted_output_modes normalize_from lower strip
    string_eq filter_payload filter_artifact filter_parts filter_part part_media_type text_fallback
    accepts
applies = refl

apply-PayloadIsAccepted_example : PayloadIsAccepted ("text/plain" ∷ []) received
apply-PayloadIsAccepted_example =
    apply-PayloadIsAccepted lower dumps wanted ("text/plain" ∷ []) sent received normalizes applies

apply_again_example : apply_accepted_output_modes lower dumps wanted received ≡ some received
apply_again_example = apply_again lower dumps wanted sent received applies
