-- ===== src/Base/Int.antt =====
-- Signed integers over the native numbers. Of a duration or a limit that may be negative the
-- program only uses `max(0, n)` and the test `n <= 0`, which `pos_part` gives.
use opencode_a2a_serve.Base.Names.{ℕ, Bool}
use opencode_a2a_serve.Base.Lists.{leb}

-- `negsuc n` is -(n + 1).
pub data ℤ : Type 0 where
  pos : ℕ → ℤ
  negsuc : ℕ → ℤ

-- `max(0, n)`
abbrev pub pos_part : ℤ → ℕ
pos_part (pos n) = n
pos_part (negsuc n) = 0

-- `n <= 0`
abbrev pub le_zero : ℤ → Bool
le_zero n = leb (pos_part n) 0
