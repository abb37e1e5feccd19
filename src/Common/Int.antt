-- ===== src/Common/Int.antt =====
-- Signed integers over the native numbers, and two's complement words of any width.
use Prim.Native.Nat.{ℕ, ◌-◌, ◌%◌, ◌^◌, ◌<◌}
use cppgres.Common.Tests.{ltb, if◌then◌else◌}

-- `negsuc n` is -(n + 1).
pub data ℤ : Type 0 where
  pos : ℕ → ℤ
  negsuc : ℕ → ℤ

-- The value modulo 2 ^ w: a cast to an unsigned integer of w bits.
abbrev pub to_word : ℕ → ℤ → ℕ
to_word w (pos n) = n % 2 ^ w
to_word w (negsuc n) = 2 ^ w - 1 - n % 2 ^ w

-- The value of the low w bits in two's complement: a cast to a signed integer of w bits.
abbrev pub of_word : ℕ → ℕ → ℤ
of_word w n = let m = n % 2 ^ w in if ltb m (2 ^ (w - 1)) then pos m else negsuc (2 ^ w - 1 - m)

-- A signed integer of w bits holds the value.
abbrev pub Fits : ℕ → ℤ → Type 0
Fits w (pos n) = n < 2 ^ (w - 1)
Fits w (negsuc n) = n < 2 ^ (w - 1)
