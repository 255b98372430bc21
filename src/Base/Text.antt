-- ===== src/Base/Text.antt =====
-- `str` as the program uses it: `strip`, the truth of a text, and `text or None`.
pub mod Lower
use Prim.Native.Char.{Char, code, nul}
use Prim.Native.Nat.{◌/◌, ◌%◌}
use opencode_a2a_serve.Base.Names.{
  ℕ, zero, suc, Bool, true, false, ◌||◌, ◌&&◌, String, Option, none, some, ◌≡◌, refl, arith, ◌∙◌,
  ap, inl, inr,
}
use opencode_a2a_serve.Base.Equality.{if◌then◌else◌, Bool-cases}
use opencode_a2a_serve.Base.Lists.{leb}

abbrev between : ℕ → ℕ → ℕ → Bool
between lo hi c = leb lo c && leb c hi

-- The code points that `str.isspace` accepts, all of which `str.strip` removes.
unfoldable pub is_space : ℕ → Bool
is_space c =
    between 9 13 c
    || between 28 32 c
    || between 0x85 0x85 c
    || between 0xA0 0xA0 c
    || between 0x1680 0x1680 c
    || between 0x2000 0x200A c
    || between 0x2028 0x2029 c
    || between 0x202F 0x202F c
    || between 0x205F 0x205F c
    || between 0x3000 0x3000 c

-- `bool(s)`
abbrev pub is_truthy : String → Bool
is_truthy String.[] = false
is_truthy (String.◌∷◌ c s) = true

-- `s or None`
abbrev pub or_none : String → Option String
or_none s = if is_truthy s then some s else none

-- `bool(o)` for `str | None`
abbrev pub is_given : Option String → Bool
is_given none = false
is_given (some s) = is_truthy s

lstrip : String → String
lstrip String.[] = String.[]
lstrip (String.◌∷◌ c s) = if is_space (code c) then lstrip s else String.◌∷◌ c s

rstrip : String → String
rstrip String.[] = String.[]
rstrip (String.◌∷◌ c s) =
    let rest = rstrip s in
    if is_space (code c) && (if is_truthy rest then false else true)
    then String.[]
    else String.◌∷◌ c rest

-- `s.strip()`
unfoldable pub strip : String → String
unfolding lstrip rstrip is_space
strip s = rstrip (lstrip s)

rstrip_idem : (s : String) → rstrip (rstrip s) ≡ rstrip s
unfolding rstrip
rstrip_idem String.[] = refl
rstrip_idem (String.◌∷◌ c s) = ground (arith, rstrip_idem s)

lstrip-rstrip_of_solid :
    (c : Char) (s : String)
    → is_space (code c) ≡ false
    → lstrip (rstrip (String.◌∷◌ c s)) ≡ rstrip (String.◌∷◌ c s)
unfolding lstrip rstrip
lstrip-rstrip_of_solid c s h = ground arith

lstrip-strip : (s : String) → lstrip (rstrip (lstrip s)) ≡ rstrip (lstrip s)
unfolding lstrip
lstrip-strip String.[] = unfold rstrip in refl
lstrip-strip (String.◌∷◌ c s) = elim (Bool-cases (is_space (code c))) [
  | inl space ↦ rw space (lstrip-strip s)
  | inr solid ↦ rw solid (lstrip-rstrip_of_solid c s solid)
]

-- Stripping twice is stripping once.
pub strip_idem : (s : String) → strip (strip s) ≡ strip s
unfolding strip
strip_idem s = ap rstrip (lstrip-strip s) ∙ rstrip_idem (lstrip s)

-- Without any white space
abbrev pub is_solid : String → Bool
is_solid String.[] = true
is_solid (String.◌∷◌ c s) = (if is_space (code c) then false else true) && is_solid s

lstrip_of_solid : (s : String) → is_solid s ≡ true → lstrip s ≡ s
unfolding lstrip
lstrip_of_solid String.[] h = refl
lstrip_of_solid (String.◌∷◌ c s) h = ground (arith, h)

rstrip_of_solid : (s : String) → is_solid s ≡ true → rstrip s ≡ s
unfolding rstrip
rstrip_of_solid String.[] h = refl
rstrip_of_solid (String.◌∷◌ c s) h = ground (arith, h, rstrip_of_solid s)

-- Stripping keeps a text without white space.
pub strip_of_solid : (s : String) → is_solid s ≡ true → strip s ≡ s
unfolding strip
strip_of_solid s h = rw (lstrip_of_solid s h) (rstrip_of_solid s h)

strip_text : strip " a b\t" ≡ "a b"
unfolding strip
strip_text = refl

translate : String → String → Char → Char
translate (String.◌∷◌ a as_) (String.◌∷◌ b bs) c =
    if (if leb (code a) (code c) then leb (code c) (code a) else false)
    then b
    else translate as_ bs c
translate _ _ c = c

-- `s.lower()` on ASCII letters and on the one other character whose lower case is an ASCII letter,
-- the Kelvin sign. Other characters stay. So a comparison of the result with an ASCII text comes
-- out as in Python, and that is all the program uses it for.
unfoldable pub lower : String → String
unfolding translate
lower String.[] = String.[]
lower (String.◌∷◌ c s) =
    String.◌∷◌ (translate "ABCDEFGHIJKLMNOPQRSTUVWXYZK" "abcdefghijklmnopqrstuvwxyzk" c) (lower s)

nth_char : String → ℕ → Char
nth_char String.[] n = nul
nth_char (String.◌∷◌ c s) zero = c
nth_char (String.◌∷◌ c s) (suc n) = nth_char s n

-- The digits of `n` in front of a text, on fuel; `n` rounds are more than enough.
show_onto : ℕ → ℕ → String → String
show_onto zero n text = text
show_onto (suc fuel) n text =
    let text' = String.◌∷◌ (nth_char "0123456789" (n % 10)) text in
    let rest = show_onto fuel (n / 10) text' in if leb n 9 then text' else rest

-- `str(n)`
unfoldable pub show : ℕ → String
unfolding show_onto nth_char
show n = show_onto (suc n) n ""

-- `s <= t`, by code points
unfoldable pub text_leb : String → String → Bool
text_leb String.[] t = true
text_leb (String.◌∷◌ a s) String.[] = false
text_leb (String.◌∷◌ a s) (String.◌∷◌ b t) =
    let rest = text_leb s t in
    if leb (code a) (code b) then (if leb (code b) (code a) then rest else true) else false

lower_text : lower "Step-START 9É" ≡ "step-start 9É"
unfolding lower
lower_text = refl

show_text : show 1203 ≡ "1203"
unfolding show
show_text = refl
