-- ===== src/ProtocolVersions.antt =====
-- src/opencode_a2a/protocol_versions.py. `\d` accepts the digits of any script: which characters those
-- are is the argument `is_digit`.
pub mod Laws
pub mod Tests
use Prim.Native.Char.{Char, code}
use opencode_a2a_serve.Base.Names.{
  ℕ, String, ◌<>◌, Bool, true, false, not, ◌&&◌, ◌||◌, Option, none, some, List, [], ◌∷◌, ◌++◌, ◌⊎◌,
  inl, inr,
}
use opencode_a2a_serve.Base.Equality.{◌==◌, string_eq, nat_eq, contains, if◌then◌else◌}
use opencode_a2a_serve.Base.Text.{strip, is_truthy}

pub record NegotiatedProtocolVersion : Type 0 where
  pub requested_version : String
  pub negotiated_version : String
  pub explicit : Bool

pub data Negotiation : Type 0 where
  negotiated : NegotiatedProtocolVersion → Negotiation
  -- `UnsupportedProtocolVersionError`: what was asked for, the supported versions and the default
  unsupported : String → List String → String → Negotiation
  -- a `ValueError` on the default or the supported versions
  misconfigured : String → Negotiation

-- A version, or the text of a `ValueError`
abbrev pub Versioned : Type 0 → Type 0
Versioned A = String ⊎ A

-- `(value or "").strip()`
abbrev pub stripped : Option String → String
stripped none = strip ""
stripped (some s) = strip s

module _ (is_digit : Char → Bool) where
  -- The digits at the front of a text, and the rest
  unfoldable pub digits : String → String × String
  digits String.[] = ("", "")
  digits (String.◌∷◌ c s) =
      let (ds, rest) = digits s in
      if is_digit c then (String.◌∷◌ c ds, rest) else ("", String.◌∷◌ c s)

  -- `(?:\.\d+)?$`
  is_end : String → Bool
  is_end String.[] = true
  is_end (String.◌∷◌ c s) =
      let (patch, rest) = digits s in code c == 46 && is_truthy patch && not (is_truthy rest)

  after_major : String × String → Option (String × String)
  unfolding is_end
  after_major (major, String.[]) = none
  after_major (major, String.◌∷◌ c s) =
      let (minor, rest) = digits s in
      if is_truthy major && code c == 46 && is_truthy minor && is_end rest
      then some (major, minor)
      else none

  -- `_PROTOCOL_VERSION_PATTERN.fullmatch`: the groups `major` and `minor`
  unfoldable pub match_version : String → Option (String × String)
  unfolding after_major digits
  match_version s = after_major (digits s)

  version_of : Option (String × String) → Versioned String
  version_of none = inl "Protocol version must use Major.Minor or Major.Minor.Patch format."
  version_of (some (major, minor)) = inr (major <> "." <> minor)

  -- `normalize_protocol_version`
  unfoldable pub normalize_protocol_version : String → Versioned String
  unfolding version_of match_version
  normalize_protocol_version value =
      if is_truthy (strip value)
      then version_of (match_version (strip value))
      else inl "Protocol version must be a non-empty string."

  -- The loop of `normalize_protocol_versions`: `seen` has the same texts as `normalized_versions`.
  normalize_from : List String → List String → Versioned (List String)
  unfolding normalize_protocol_version
  normalize_from [] normalized = inr normalized
  normalize_from (value ∷ values) normalized = elim (normalize_protocol_version value) [
    | inl message ↦ inl message
    | inr v ↦
        normalize_from values (if contains normalized v then normalized else normalized ++ v ∷ [])
  ]

  at_least_one : Versioned (List String) → Versioned (List String)
  at_least_one (inl message) = inl message
  at_least_one (inr []) = inl "At least one supported protocol version must be declared."
  at_least_one (inr (v ∷ rest)) = inr (v ∷ rest)

  -- `normalize_protocol_versions`
  unfoldable pub normalize_protocol_versions : List String → Versioned (List String)
  unfolding normalize_from at_least_one
  normalize_protocol_versions values = at_least_one (normalize_from values [])

  -- The end of `negotiate_protocol_version`, with the requested version and what it is normalized to
  decided : Bool → String → List String → String → Versioned String → Negotiation
  decided explicit default supported raw (inl message) = unsupported raw supported default
  decided explicit default supported raw (inr requested) =
      if contains supported requested
      then negotiated (record {
        requested_version = requested;
        negotiated_version = requested;
        explicit = explicit;
      })
      else unsupported requested supported default

  negotiate_with : String → String → Versioned String → Versioned (List String) → Negotiation
  unfolding decided normalize_protocol_version
  negotiate_with raw_header raw_query (inl message) supported = misconfigured message
  negotiate_with raw_header raw_query (inr default) (inl message) = misconfigured message
  negotiate_with raw_header raw_query (inr default) (inr supported) =
      let raw_requested =
        if is_truthy raw_header
        then raw_header
        else if is_truthy raw_query
        then raw_query
        else default in
      decided (is_truthy raw_header || is_truthy raw_query) default supported raw_requested
        (normalize_protocol_version raw_requested)

  -- `negotiate_protocol_version`
  unfoldable pub negotiate_protocol_version :
      Option String → Option String → String → List String → Negotiation
  unfolding negotiate_with normalize_protocol_version normalize_protocol_versions
  negotiate_protocol_version header_value query_value default supported =
      negotiate_with (stripped header_value) (stripped query_value)
        (normalize_protocol_version default) (normalize_protocol_versions supported)
