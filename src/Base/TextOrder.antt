-- ===== src/Base/TextOrder.antt =====
-- The order of texts by code points is total and transitive.
use opencode_a2a_serve.Base.Names.{String, true, false, ◌≡◌, refl, arith}
use opencode_a2a_serve.Base.Text.{text_leb}

pub text_leb_total : (s t : String) → text_leb s t ≡ false → text_leb t s ≡ true
unfolding text_leb
text_leb_total String.[] t h = absurd (ground arith)
text_leb_total (String.◌∷◌ a s) String.[] h = refl
text_leb_total (String.◌∷◌ a s) (String.◌∷◌ b t) h = ground (arith, text_leb_total s t)

pub text_leb_trans :
    (s t u : String) → text_leb s t ≡ true → text_leb t u ≡ true → text_leb s u ≡ true
unfolding text_leb
text_leb_trans String.[] t u h k = refl
text_leb_trans (String.◌∷◌ a s) String.[] u h k = absurd (ground arith)
text_leb_trans (String.◌∷◌ a s) (String.◌∷◌ b t) String.[] h k = absurd (ground arith)
text_leb_trans (String.◌∷◌ a s) (String.◌∷◌ b t) (String.◌∷◌ c u) h k =
    ground (arith, text_leb_trans s t u)
