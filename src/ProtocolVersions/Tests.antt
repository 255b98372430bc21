-- ===== src/ProtocolVersions/Tests.antt =====
-- src/opencode_a2a/protocol_versions.py with the digits of ASCII.
use Prim.Native.Char.{Char, code}
use opencode_a2a_serve.Base.Names.{
  String, Bool, true, none, some, List, [], ◌∷◌, ◌&&◌, inl, inr, ◌≡◌, refl, arith,
}
use opencode_a2a_serve.Base.Equality.{string_eq, nat_eq, contains}
use opencode_a2a_serve.Base.Lists.{leb}
use opencode_a2a_serve.Base.Text.{strip, is_space}
use opencode_a2a_serve.ProtocolVersions.{
  negotiated, digits, match_version, normalize_protocol_version, normalize_protocol_versions,
  negotiate_protocol_version,
}
use opencode_a2a_serve.ProtocolVersions.Laws.{AreDigits, explicitly, negotiated_again}

abbrev is_digit : Char → Bool
is_digit c = leb 48 (code c) && leb (code c) 57

is_digit-AreDigits : AreDigits is_digit
unfolding is_space
is_digit-AreDigits = record {
  no_stop = λ c h. ground (arith, h);
  no_space = λ c h. ground (arith, h);
}

abbrev versions : List String
versions = "0.3.0" ∷ "1.0" ∷ "0.3" ∷ []

refuses_other_forms :
    normalize_protocol_version is_digit " 1.0.x "
    ≡ inl "Protocol version must use Major.Minor or Major.Minor.Patch format."
unfolding normalize_protocol_version strip match_version digits nat_eq
refuses_other_forms = refl

negotiates :
    negotiate_protocol_version is_digit (some " ") (some "1.0.2") "0.3" versions
    ≡ negotiated (explicitly "1.0")
unfolding negotiate_protocol_version normalize_protocol_versions normalize_protocol_version strip
    match_version digits nat_eq string_eq
negotiates = refl

negotiated_again_example :
    (vs : List String) × (normalize_protocol_versions is_digit versions ≡ inr vs)
    × (contains vs "1.0" ≡ true)
    × (negotiate_protocol_version is_digit (some "1.0") none "0.3" versions
        ≡ negotiated (explicitly "1.0"))
negotiated_again_example =
    negotiated_again is_digit is_digit-AreDigits (some " ") (some "1.0.2") none "0.3" versions
      (explicitly "1.0") negotiates
