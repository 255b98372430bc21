-- ===== src/ProtocolVersions/Laws.antt =====
-- The versions that src/opencode_a2a/protocol_versions.py negotiates.
use Prim.Native.Char.{Char, code}
use text.Mathlib.TextLemmas.{nil-append, cons-append}
use opencode_a2a_serve.Base.Names.{
  String, ◌<>◌, Bool, true, false, ◌&&◌, ◌||◌, Option, some, List, inl, inr, ◌≡◌, refl, arith,
}
use opencode_a2a_serve.Base.Equality.{◌==◌, string_eq, nat_eq, contains, if◌then◌else◌, Bool-cases}
use opencode_a2a_serve.Base.Text.{strip, is_truthy, is_space, is_solid, strip_of_solid}
use opencode_a2a_serve.ProtocolVersions.{
  NegotiatedProtocolVersion, negotiated, Versioned, digits, is_end, after_major, match_version,
  version_of, normalize_protocol_version, normalize_protocol_versions, decided, negotiate_with,
  negotiate_protocol_version, stripped,
}

-- No digit is a full stop or white space, as Unicode has it.
pub record AreDigits (is_digit : Char → Bool) : Type 0 where
  pub no_stop : (c : Char) → is_digit c ≡ true → (code c == 46) ≡ false
  pub no_space : (c : Char) → is_digit c ≡ true → is_space (code c) ≡ false

-- What a client gets that asks for the version in its header
abbrev pub explicitly : String → NegotiatedProtocolVersion
explicitly version = record {
  requested_version = version;
  negotiated_version = version;
  explicit = true;
}

module _ (is_digit : Char → Bool) (d : AreDigits is_digit) where
  abbrev all_digits : String → Bool
  all_digits String.[] = true
  all_digits (String.◌∷◌ c s) = is_digit c && all_digits s

  digits_all : (s : String) → all_digits (digits is_digit s).0 ≡ true
  unfolding digits
  digits_all String.[] = refl
  digits_all (String.◌∷◌ c s) = elim (Bool-cases (is_digit c)) [
    | inl digit ↦ rw digit (rw digit (digits_all s))
    | inr other ↦ rw other refl
  ]

  solid_digits : (s : String) → all_digits s ≡ true → is_solid s ≡ true
  solid_digits String.[] h = refl
  solid_digits (String.◌∷◌ c s) h = ground (arith, h, d.no_space c, solid_digits s)

  solid_version :
      (major minor : String)
      → all_digits major ≡ true
      → all_digits minor ≡ true
      → is_solid (major <> "." <> minor) ≡ true
  unfolding is_space
  solid_version String.[] minor h h' =
      rw (nil-append ("." <> minor))
        (rw (cons-append "." "" minor) (rw (nil-append minor) (solid_digits minor h')))
  solid_version (String.◌∷◌ c s) minor h h' =
      rw (cons-append c s ("." <> minor)) (ground (arith, h, d.no_space c, solid_version s minor))

  stop_no_digit : (c : Char) → (code c == 46) ≡ true → is_digit c ≡ false
  stop_no_digit c h = elim (Bool-cases (is_digit c)) [
    | inl digit ↦ absurd (ground (arith, h, d.no_stop c digit))
    | inr other ↦ other
  ]

  digits_alone : (s : String) → all_digits s ≡ true → digits is_digit s ≡ (s, "")
  unfolding digits
  digits_alone String.[] h = refl
  digits_alone (String.◌∷◌ c s) h = ground (arith, h, digits_alone s)

  digits_before :
      (s : String) (c : Char) (rest : String)
      → all_digits s ≡ true
      → is_digit c ≡ false
      → digits is_digit (s <> String.◌∷◌ c rest) ≡ (s, String.◌∷◌ c rest)
  unfolding digits
  digits_before String.[] c rest h other = rw (nil-append (String.◌∷◌ c rest)) (rw other refl)
  digits_before (String.◌∷◌ b s) c rest h other =
      rw (cons-append b s (String.◌∷◌ c rest)) (ground (arith, h, digits_before s c rest))

  -- What a version in its normal form is matched to
  match_normal :
      (major minor : String)
      → all_digits major ≡ true
      → all_digits minor ≡ true
      → is_truthy major ≡ true
      → is_truthy minor ≡ true
      → match_version is_digit (major <> "." <> minor) ≡ some (major, minor)
  unfolding match_version after_major is_end nat_eq
  match_normal major minor h h' given given' = rw (cons-append "." "" minor) (
      rw (nil-append minor) (
        rw (digits_before major "." minor h (stop_no_digit "." refl))
          (rw given (rw (digits_alone minor h') (rw given' refl)))))

  -- A version in its normal form
  record IsVersion (v : String) : Type 0 where
    major : String
    minor : String
    major_digits : all_digits major ≡ true
    minor_digits : all_digits minor ≡ true
    major_given : is_truthy major ≡ true
    minor_given : is_truthy minor ≡ true
    same : v ≡ (major <> "." <> minor)

  groups-IsVersion :
      (major rest v : String)
      → all_digits major ≡ true
      → version_of is_digit (after_major is_digit (major, rest)) ≡ inr v
      → IsVersion v
  unfolding after_major version_of
  groups-IsVersion major String.[] v h e = absurd (ground (arith, e))
  groups-IsVersion major (String.◌∷◌ c rest) v h e =
      elim (Bool-cases (
        is_truthy major
        && code c == 46
        && is_truthy (digits is_digit rest).0
        && is_end is_digit (digits is_digit rest).1)) [
          | inl good ↦ record {
            major = major;
            minor = (digits is_digit rest).0;
            major_digits = h;
            minor_digits = digits_all rest;
            major_given = ground (arith, good);
            minor_given = ground (arith, good);
            same = ground (arith, good, e);
          }
          | inr bad ↦ absurd (ground (arith, bad, e))
        ]

  normalized-IsVersion :
      (value v : String) → normalize_protocol_version is_digit value ≡ inr v → IsVersion v
  unfolding normalize_protocol_version match_version
  normalized-IsVersion value v e = elim (Bool-cases (is_truthy (strip value))) [
    | inl given ↦
        groups-IsVersion (digits is_digit (strip value)).0 (digits is_digit (strip value)).1 v
          (digits_all (strip value)) (ground (arith, given, e))
    | inr empty ↦ absurd (ground (arith, empty, e))
  ]

  truthy_append : (s t : String) → is_truthy s ≡ true → is_truthy (s <> t) ≡ true
  truthy_append String.[] t h = absurd (ground (arith, h))
  truthy_append (String.◌∷◌ c s) t h = rw (cons-append c s t) refl

  IsVersion-strip : (v : String) → IsVersion v → strip v ≡ v
  IsVersion-strip v x = rw x.same (
      strip_of_solid (x.major <> "." <> x.minor)
        (solid_version x.major x.minor x.major_digits x.minor_digits))

  IsVersion-truthy : (v : String) → IsVersion v → is_truthy v ≡ true
  IsVersion-truthy v x = rw x.same (truthy_append x.major ("." <> x.minor) x.major_given)

  match_IsVersion :
      (v : String) (x : IsVersion v) → version_of is_digit (match_version is_digit v) ≡ inr v
  unfolding version_of
  match_IsVersion v x = rw x.same (
      rw (match_normal x.major x.minor x.major_digits x.minor_digits x.major_given x.minor_given)
        refl)

  -- A normal form is kept.
  IsVersion-normal : (v : String) → IsVersion v → normalize_protocol_version is_digit v ≡ inr v
  unfolding normalize_protocol_version
  IsVersion-normal v x = rw (IsVersion-strip v x) (rw (IsVersion-truthy v x) (match_IsVersion v x))

  decided_lem :
      (explicit : Bool) (default : String) (supported : List String) (raw : String)
      (requested : Versioned String) (v : NegotiatedProtocolVersion)
      → decided is_digit explicit default supported raw requested ≡ negotiated v
      → (requested ≡ inr v.negotiated_version) × (contains supported v.negotiated_version ≡ true)
  unfolding decided
  decided_lem explicit default supported raw (inl message) v e = absurd (ground (arith, e))
  decided_lem explicit default supported raw (inr requested) v e =
      elim (Bool-cases (contains supported requested)) [
        | inl found ↦ ground (arith, found, e)
        | inr missing ↦ absurd (ground (arith, missing, e))
      ]

  asked_again :
      (raw_query default : String) (supported : List String) (version : String)
      → IsVersion version
      → contains supported version ≡ true
      → negotiate_with is_digit (strip version) raw_query (inr default) (inr supported)
        ≡ negotiated (explicitly version)
  unfolding negotiate_with decided
  asked_again raw_query default supported version x found =
      rw (IsVersion-strip version x)
        (rw (IsVersion-truthy version x) (rw (IsVersion-normal version x) (rw found refl)))

  abbrev IsKept : Versioned String → Versioned (List String) → String → String → Type 0
  IsKept default (inl message) raw_query version = false ≡ true
  IsKept default (inr supported) raw_query version =
      (contains supported version ≡ true)
      × (negotiate_with is_digit (strip version) raw_query default (inr supported)
          ≡ negotiated (explicitly version))

  with-IsKept :
      (raw_header raw_query raw_query' : String) (default : Versioned String)
      (supported : Versioned (List String)) (v : NegotiatedProtocolVersion)
      → negotiate_with is_digit raw_header raw_query default supported ≡ negotiated v
      → IsKept default supported raw_query' v.negotiated_version
  unfolding negotiate_with
  with-IsKept raw_header raw_query raw_query' (inl message) supported v e =
      absurd (ground (arith, e))
  with-IsKept raw_header raw_query raw_query' (inr default) (inl message) v e =
      absurd (ground (arith, e))
  with-IsKept raw_header raw_query raw_query' (inr default) (inr supported) v e =
      let raw_requested =
        if is_truthy raw_header
        then raw_header
        else if is_truthy raw_query
        then raw_query
        else default in
      let (read, found) =
        decided_lem (is_truthy raw_header || is_truthy raw_query) default supported raw_requested
          (normalize_protocol_version is_digit raw_requested) v e in
      (
        found,
        asked_again raw_query' default supported v.negotiated_version
            (normalized-IsVersion raw_requested v.negotiated_version read) found,
      )

  supported_of :
      (default : Versioned String) (supported : Versioned (List String))
      (raw_query version : String)
      → IsKept default supported raw_query version
      → (versions : List String) × (supported ≡ inr versions)
        × (contains versions version ≡ true)
        × (negotiate_with is_digit (strip version) raw_query default supported
            ≡ negotiated (explicitly version))
  supported_of default (inl message) raw_query version h = absurd (ground (arith, h))
  supported_of default (inr versions) raw_query version (found, again) =
      (versions, refl, found, again)

  -- A version that is negotiated is one of the supported versions in their normal form, and a
  -- client that asks for it in its header gets the same version, whatever its query says, if no
  -- digit is a full stop or white space.
  pub negotiated_again :
      (header_value query_value query_value' : Option String) (default : String)
      (supported : List String) (v : NegotiatedProtocolVersion)
      → negotiate_protocol_version is_digit header_value query_value default supported
        ≡ negotiated v
      → (versions : List String) × (normalize_protocol_versions is_digit supported ≡ inr versions)
        × (contains versions v.negotiated_version ≡ true)
        × (negotiate_protocol_version is_digit
              (some v.negotiated_version)
              query_value'
              default
              supported
            ≡ negotiated (explicitly v.negotiated_version))
  unfolding negotiate_protocol_version
  negotiated_again header_value query_value query_value' default supported v e =
      supported_of (normalize_protocol_version is_digit default)
        (normalize_protocol_versions is_digit supported) (stripped query_value')
        v.negotiated_version
        (with-IsKept (stripped header_value) (stripped query_value) (stripped query_value')
          (normalize_protocol_version is_digit default)
          (normalize_protocol_versions is_digit supported) v e)
