-- ===== src/Rpc/Queries/Parsing.antt =====
-- src/opencode_a2a/parsing.py, with the errors of src/opencode_a2a/jsonrpc/params.py.
use Prim.Native.Char.{Char, code}
use opencode_a2a_serve.Base.Names.{
  ℕ, ◌+◌, ◌*◌, String, ◌<>◌, Bool, true, false, not, Option, none, some, [], ◌∷◌, ◌⊎◌, inl, inr,
  ◌≡◌, arith,
}
use opencode_a2a_serve.Base.Equality.{
  ◌==◌, string_eq, nat_eq, contains, if◌then◌else◌, Option-cases,
}
use opencode_a2a_serve.Base.Lists.{leb}
use opencode_a2a_serve.Base.Int.{ℤ, pos, negsuc}
use opencode_a2a_serve.Base.Text.{strip, lower, or_none, show}
use opencode_a2a_serve.Base.Value.{Value, null, bool, int, str}
use opencode_a2a_serve.Rpc.Errors.{RpcError, invalid_field, minus}

-- A value, or the error that a `JsonRpcParamsValidationError` becomes
abbrev pub Validated : Type 0 → Type 0
Validated A = RpcError ⊎ A

-- `parsed < minimum`
abbrev pub is_below : ℕ → ℤ → Bool
is_below minimum (negsuc n) = true
is_below minimum (pos n) = not (leb minimum n)

at_least : String → ℕ → ℤ → Validated (Option ℤ)
at_least name minimum n =
    if is_below minimum n
    then inl (invalid_field (name <> " must be >= " <> show minimum) name)
    else inr (some n)

at_least-minimum :
    (name : String) (minimum : ℕ) (n k : ℤ)
    → at_least name minimum n ≡ inr (some k)
    → is_below minimum k ≡ false
unfolding at_least
at_least-minimum name minimum n k h = ground (arith, h)

no_integer : String → Validated (Option ℤ)
no_integer name = inl (invalid_field (name <> " must be an integer") name)

-- `int(s)` reads decimal digits of any script: `decimal` is the value of a digit in Unicode's tables.
-- The limit on the number of digits is left out.
module _ (decimal : Char → Option ℕ) where
  -- One character of the digits, where single underscores may stand between digits: `last` says that
  -- the character before is a digit.
  digit_step : Char → ℕ → Bool → Option (ℕ × Bool)
  digit_step c n last =
      if code c == 95
      then (if last then some (n, false) else none)
      else (elim (decimal c) [ none ↦ none | some d ↦ some (n * 10 + d, true) ])

  read_digits : String → ℕ → Bool → Option ℕ
  unfolding digit_step
  read_digits String.[] n last = if last then some n else none
  read_digits (String.◌∷◌ c s) n last = elim (digit_step c n last) [
    | none ↦ none
    | some (n', last') ↦ read_digits s n' last'
  ]

  signed : (ℕ → ℤ) → Option ℕ → Option ℤ
  signed sign none = none
  signed sign (some n) = some (sign n)

  read_signed : String → Option ℤ
  unfolding signed
  read_signed String.[] = none
  read_signed (String.◌∷◌ c s) =
      if code c == 43
      then signed pos (read_digits s 0 false)
      else if code c == 45
      then signed minus (read_digits s 0 false)
      else signed pos (read_digits (String.◌∷◌ c s) 0 false)

  -- `int(s)`, none for a `ValueError`
  unfoldable pub int_of : String → Option ℤ
  unfolding read_signed read_digits digit_step signed
  int_of s = read_signed (strip s)

  -- `parse_int_field` with a minimum, which every caller gives
  unfoldable pub parse_int_field : Value → String → ℕ → Validated (Option ℤ)
  unfolding at_least no_integer
  parse_int_field null name minimum = inr none
  parse_int_field (bool b) name minimum = no_integer name
  parse_int_field (int n) name minimum = at_least name minimum n
  parse_int_field (str s) name minimum = elim (int_of s) [
    | none ↦ no_integer name
    | some n ↦ at_least name minimum n
  ]
  parse_int_field _ name minimum = no_integer name

  pub parse_int_field-minimum :
      (value : Value) (name : String) (minimum : ℕ) (n : ℤ)
      → parse_int_field value name minimum ≡ inr (some n)
      → is_below minimum n ≡ false
  unfolding parse_int_field at_least no_integer
  parse_int_field-minimum null name minimum n h = ground (arith, h)
  parse_int_field-minimum (bool b) name minimum n h = ground (arith, h)
  parse_int_field-minimum (int k) name minimum n h = at_least-minimum name minimum k n h
  parse_int_field-minimum (str s) name minimum n h = elim (Option-cases (int_of s)) [
    | inl none_read ↦ ground (arith, h, none_read)
    | inr (k, read) ↦ at_least-minimum name minimum k n (ground (arith, h, read))
  ]
  parse_int_field-minimum _ name minimum n h = ground (arith, h)

-- `parse_string_field`
unfoldable pub parse_string_field : Value → String → Validated (Option String)
parse_string_field null name = inr none
parse_string_field (str s) name = inr (or_none (strip s))
parse_string_field _ name = inl (invalid_field (name <> " must be a string") name)

no_boolean : String → Validated (Option Bool)
no_boolean name = inl (invalid_field (name <> " must be a boolean") name)

-- `parse_bool_field`, with the texts that it accepts by default
unfoldable pub parse_bool_field : Value → String → Validated (Option Bool)
unfolding no_boolean
parse_bool_field null name = inr none
parse_bool_field (bool b) name = inr (some b)
parse_bool_field (str s) name =
    if contains ("true" ∷ "1" ∷ "yes" ∷ "on" ∷ []) (lower (strip s))
    then inr (some true)
    else if contains ("false" ∷ "0" ∷ "no" ∷ "off" ∷ []) (lower (strip s))
    then inr (some false)
    else no_boolean name
parse_bool_field _ name = no_boolean name
