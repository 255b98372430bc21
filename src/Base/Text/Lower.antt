-- ===== src/Base/Text/Lower.antt =====
-- `strip` and `lower` of Base.Text: a stripped and lowered text stays as it is.
use Prim.Native.Char.{Char, code}
use opencode_a2a_serve.Base.Names.{String, false, ◌≡◌, refl, arith, ◌∙◌, ap, ◌⊎◌, inl, inr}
use opencode_a2a_serve.Base.Text.{
  is_space, is_truthy, lstrip, rstrip, strip, strip_idem, translate, lower,
}

abbrev upper_letters : String
upper_letters = "ABCDEFGHIJKLMNOPQRSTUVWXYZK"

abbrev lower_letters : String
lower_letters = "abcdefghijklmnopqrstuvwxyzk"

lower_char : Char → Char
lower_char c = translate upper_letters lower_letters c

abbrev AllChars : (Char → Type 0) → String → Type 0
AllChars P String.[] = Unit
AllChars P (String.◌∷◌ c s) = P c × AllChars P s

-- A character stays, or becomes one of the given ones.
translate-cases :
    (P : Char → Type 0) (us ls : String) (c : Char)
    → AllChars P ls
    → (translate us ls c ≡ c) ⊎ P (translate us ls c)
unfolding translate
translate-cases P String.[] ls c all = inl refl
translate-cases P (String.◌∷◌ a us) String.[] c all = inl refl
translate-cases P (String.◌∷◌ a us) (String.◌∷◌ b ls) c (p, all) =
    ground (arith, translate-cases P us ls c all)

abbrev IsSolid : Char → Type 0
IsSolid c = is_space (code c) ≡ false

letters_stay : AllChars (λ c. lower_char c ≡ c) lower_letters
unfolding lower_char translate
letters_stay = grind arith

upper-IsSolid : AllChars (λ c. IsSolid c) upper_letters
unfolding is_space
upper-IsSolid = ground arith

lower-IsSolid : AllChars (λ c. IsSolid c) lower_letters
unfolding is_space
lower-IsSolid = ground arith

lower_char_idem : (c : Char) → lower_char (lower_char c) ≡ lower_char c
unfolding lower_char
lower_char_idem c =
    elim (translate-cases (λ x. lower_char x ≡ x) upper_letters lower_letters c letters_stay) [
      | inl same ↦ ap lower_char same
      | inr fixed ↦ fixed
    ]

is_space-translate :
    (us ls : String) (c : Char)
    → AllChars IsSolid us
    → AllChars IsSolid ls
    → is_space (code (translate us ls c)) ≡ is_space (code c)
unfolding translate
is_space-translate String.[] ls c u l = refl
is_space-translate (String.◌∷◌ a us) String.[] c u l = refl
is_space-translate (String.◌∷◌ a us) (String.◌∷◌ b ls) c (p, u) (q, l) =
    ground (arith, is_space-translate us ls c u l)

is_space-lower_char : (c : Char) → is_space (code (lower_char c)) ≡ is_space (code c)
unfolding lower_char
is_space-lower_char c = is_space-translate upper_letters lower_letters c upper-IsSolid lower-IsSolid

lower-cons : (c : Char) (s : String) → lower (String.◌∷◌ c s) ≡ String.◌∷◌ (lower_char c) (lower s)
unfolding lower lower_char
lower-cons c s = refl

lower-nil : lower "" ≡ ""
unfolding lower
lower-nil = refl

lower_idem : (s : String) → lower (lower s) ≡ lower s
lower_idem String.[] = rw lower-nil lower-nil
lower_idem (String.◌∷◌ c s) =
    cc (lower-cons c s, lower-cons (lower_char c) (lower s), lower_char_idem c, lower_idem s)

lstrip-lower : (s : String) → lstrip (lower s) ≡ lower (lstrip s)
unfolding lstrip
lstrip-lower String.[] = cc lower-nil
lstrip-lower (String.◌∷◌ c s) =
    ground (arith, lower-cons c s, is_space-lower_char c, lstrip-lower s)

is_truthy-lower : (s : String) → is_truthy (lower s) ≡ is_truthy s
unfolding lower
is_truthy-lower String.[] = refl
is_truthy-lower (String.◌∷◌ c s) = refl

rstrip-lower : (s : String) → rstrip (lower s) ≡ lower (rstrip s)
unfolding rstrip
rstrip-lower String.[] = cc lower-nil
rstrip-lower (String.◌∷◌ c s) = ground (
  arith,
  lower-nil,
  lower-cons c s,
  lower-cons c (rstrip s),
  is_space-lower_char c,
  rstrip-lower s,
  is_truthy-lower (rstrip s),
)

strip-lower : (s : String) → strip (lower s) ≡ lower (strip s)
unfolding strip
strip-lower s = ap rstrip (lstrip-lower s) ∙ rstrip-lower (lstrip s)

-- What is stripped and lowered is so when it is stripped and lowered again.
pub lower_again : (s : String) → lower (strip (lower (strip s))) ≡ lower (strip s)
lower_again s = rw (strip-lower (strip s)) (rw (strip_idem s) (lower_idem (strip s)))
