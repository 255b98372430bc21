-- ===== src/Base/Value.antt =====
-- The values of Python that come from JSON: what `isinstance` tells apart, and `dict.get`.
use opencode_a2a_serve.Base.Names.{
  String, Bool, true, false, Option, none, some, ◌≡◌, refl, ◌∙◌, arith,
}
use opencode_a2a_serve.Base.Equality.{◌==◌, string_eq, if◌then◌else◌}
use opencode_a2a_serve.Base.Int.{ℤ}
use opencode_a2a_serve.Base.Text.{strip, or_none}

-- A float is `mantissa * 2 ^ exponent`. A `dict` has its keys in insertion order.
mutual
  pub data Value : Type 0 where
    null : Value
    bool : Bool → Value
    int : ℤ → Value
    float : ℤ → ℤ → Value
    str : String → Value
    array : Items → Value
    dict : Fields → Value

  pub data Items : Type 0 where
    nil : Items
    cons : Value → Items → Items

  pub data Fields : Type 0 where
    end : Fields
    field : String → Value → Fields → Fields

-- `d.get(key)`: a missing key gives `None`
unfoldable pub get : String → Fields → Value
get key end = null
get key (field k v rest) = if key == k then v else get key rest

-- `d[key] = value`
unfoldable pub put : String → Value → Fields → Fields
put key value end = field key value end
put key value (field k v rest) =
    if key == k then field k value rest else field k v (put key value rest)

-- `d.pop(key, None)`. Every entry of the key goes; a real dict has at most one.
unfoldable pub pop : String → Fields → Fields
pop key end = end
pop key (field k v rest) = let rest' = pop key rest in if key == k then rest' else field k v rest'

-- `{**base, **more}`
unfoldable pub merge : Fields → Fields → Fields
unfolding put
merge base end = base
merge base (field k v rest) = merge (put k v base) rest

-- `bool(d)` for a dict
abbrev pub is_nonempty : Fields → Bool
is_nonempty end = false
is_nonempty (field k v rest) = true

-- `isinstance(value, str)`
abbrev pub as_str : Value → Option String
as_str (str s) = some s
as_str _ = none

-- `isinstance(value, Mapping)`
abbrev pub as_mapping : Value → Option Fields
as_mapping (dict fields) = some fields
as_mapping _ = none

-- `value is None`
abbrev pub is_none : Value → Bool
is_none null = true
is_none _ = false

-- A stripped text that is not empty, or `None`, for a value that may be no text.
abbrev pub nonempty_text : Value → Option String
nonempty_text (str s) = or_none (strip s)
nonempty_text _ = none

pub get-put :
    (j k : String) (v : Value) (d : Fields) → get j (put k v d) ≡ (if j == k then v else get j d)
unfolding get put
get-put j k v end = refl
get-put j k v (field i w d) = ground (arith, get-put j k v d)

pub get-put_self : (key : String) (v : Value) (d : Fields) → get key (put key v d) ≡ v
get-put_self key v d = get-put key key v d ∙ ground arith

pub get-pop : (j k : String) (d : Fields) → get j (pop k d) ≡ (if j == k then null else get j d)
unfolding get pop
get-pop j k end = ground arith
get-pop j k (field i w d) = ground (arith, get-pop j k d)
