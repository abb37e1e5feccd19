-- ===== src/Datum/Integers.antt =====
-- datum_conversion of the integer types, bool, oid and size_t in types.hpp. A Datum is an unsigned integer of 64 bits.
use cppgres.Common.{ℕ, ◌%◌, ◌^◌, Bool, true, false, not, ◌==◌, ℤ, to_word, of_word}

unfoldable pub int64_from_datum : ℕ → ℤ
int64_from_datum d = of_word 64 d

unfoldable pub int64_into_datum : ℤ → ℕ
int64_into_datum t = to_word 64 t

unfoldable pub int32_from_datum : ℕ → ℤ
int32_from_datum d = of_word 32 d

unfoldable pub int32_into_datum : ℤ → ℕ
int32_into_datum t = to_word 64 t

unfoldable pub int16_from_datum : ℕ → ℤ
int16_from_datum d = of_word 16 d

unfoldable pub int16_into_datum : ℤ → ℕ
int16_into_datum t = to_word 64 t

-- static_cast<bool> is true of every datum but zero
unfoldable pub bool_from_datum : ℕ → Bool
bool_from_datum d = not (d == 0)

unfoldable pub bool_into_datum : Bool → ℕ
bool_into_datum true = 1
bool_into_datum false = 0

-- an oid has 32 bits, a size_t 64
unfoldable pub oid_from_datum : ℕ → ℕ
oid_from_datum d = d % 2 ^ 32

unfoldable pub oid_into_datum : ℕ → ℕ
oid_into_datum t = t

unfoldable pub size_from_datum : ℕ → ℕ
size_from_datum d = d

unfoldable pub size_into_datum : ℕ → ℕ
size_into_datum t = t
