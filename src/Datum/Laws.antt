-- ===== src/Datum/Laws.antt =====
-- What the conversions and type traits of datum.hpp, type.hpp and types.hpp keep.
use native.Mathlib.Nat.{le_trans}
use cppgres.Common.{
  ℕ, ◌-◌, ◌^◌, ◌≡◌, ◌↔◌, refl, Bool, true, false, Option, none, some, ==_self, if◌then◌else◌, ℤ,
  pos, negsuc, to_word, Fits, arith, ◌⊎◌, inl, inr, ◌≤◌,
}
use cppgres.Datum.Nullable.{
  ok, NullableDatum, equal, Conversion, from_nullable_datum, into_nullable_datum,
  from_nullable_datum_optional, into_nullable_datum_optional,
}
use cppgres.Datum.Integers.{
  int64_from_datum, int64_into_datum, int32_from_datum, int32_into_datum, int16_from_datum,
  int16_into_datum,
}
use cppgres.Datum.Types.{
  Oid, same_oid, number, CppType, is, type_for, int64, int32, int16, int8_oid, int4_oid, int2_oid,
}
use cppgres.Datum.Types

-- The datum that a nullable datum stands for.
abbrev pub view : NullableDatum → Option ℕ
view d = if d.isnull then none else some d.value

-- Two nullable datums compare equal exactly if both are null or both hold the same datum.
pub equal-view : (a b : NullableDatum) → (equal a b ≡ true) ↔ (view a ≡ view b)
unfolding equal
equal-view a b = (λ h. ground arith, λ h. ground arith)

module _ {T : Type 0} (conversion : Conversion T)
    (faithful : (t : T) → conversion.from_datum (conversion.into_datum t) ≡ ok t) where
  -- For a type whose own conversion brings each value back, an optional of the type comes back
  -- from its nullable datum as it went in, an empty one as empty.
  pub optional_round_trip :
      (o : Option T)
      → from_nullable_datum_optional conversion (into_nullable_datum_optional conversion o) ≡ ok o
  unfolding from_nullable_datum_optional into_nullable_datum_optional
  optional_round_trip none = refl
  optional_round_trip (some t) = rw (faithful t) refl

  pub round_trip :
      (t : T) → from_nullable_datum conversion (into_nullable_datum conversion t) ≡ ok t
  unfolding from_nullable_datum into_nullable_datum
  round_trip t = faithful t

-- The integers that a type takes from Postgres, and the width of the value in such a datum.
abbrev pub width : Oid → ℕ
width Types.int8_oid = 64
width Types.int4_oid = 32
width Types.int2_oid = 16
width _ = 0

pub int64_round_trip : (t : ℤ) → Fits 64 t → int64_from_datum (int64_into_datum t) ≡ t
unfolding int64_from_datum int64_into_datum
int64_round_trip (pos n) h = ground arith
int64_round_trip (negsuc n) h = ground arith

-- Each 32-bit signed integer comes back from its datum as it went in.
pub int32_round_trip : (t : ℤ) → Fits 32 t → int32_from_datum (int32_into_datum t) ≡ t
unfolding int32_from_datum int32_into_datum
int32_round_trip (pos n) h = ground arith
int32_round_trip (negsuc n) h = ground arith

pub int16_round_trip : (t : ℤ) → Fits 16 t → int16_from_datum (int16_into_datum t) ≡ t
unfolding int16_from_datum int16_into_datum
int16_round_trip (pos n) h = ground arith
int16_round_trip (negsuc n) h = ground arith

same_oid_self : (o : Oid) → same_oid o o ≡ true
unfolding same_oid
same_oid_self o = ==_self (number o)

-- Each C++ type with type traits accepts the Postgres type that it goes by, nested optionals
-- included, whatever types are composite.
pub is-type_for : (is_composite : Oid → Bool) (t : CppType) → is is_composite t (type_for t) ≡ true
unfolding is type_for
is-type_for c (Types.value_of o) = same_oid_self o
is-type_for c (Types.expanded o) = same_oid_self o
is-type_for c (Types.composite o) = rw (same_oid_self o) refl
is-type_for c (Types.optional a) = is-type_for c a
is-type_for c _ = refl

-- The datum of an integer as Postgres makes it: the value is extended to 64 bits.
abbrev pub stored : ℤ → ℕ
stored x = to_word 64 x

abbrev pub is_integer : CppType → Bool
is_integer Types.int64 = true
is_integer Types.int32 = true
is_integer Types.int16 = true
is_integer _ = false

abbrev pub int_from_datum : CppType → ℕ → ℤ
int_from_datum Types.int64 d = int64_from_datum d
int_from_datum Types.int32 d = int32_from_datum d
int_from_datum _ d = int16_from_datum d

-- The width that a C++ integer reads.
abbrev pub bits : CppType → ℕ
bits Types.int64 = 64
bits Types.int32 = 32
bits _ = 16

module _ (x : ℤ) where
  Fits-wider : (w v : ℕ) → 2 ^ (w - 1) ≤ 2 ^ (v - 1) → Fits w x → Fits v x
  Fits-wider w v h f = elim (sign x) [
    | inl (n, e) ↦ rw e (le_trans (rw e at f) h)
    | inr (n, e) ↦ rw e (le_trans (rw e at f) h)
  ]
    where
      sign : (y : ℤ) → ((n : ℕ) × (y ≡ pos n)) ⊎ ((n : ℕ) × (y ≡ negsuc n))
      sign (pos n) = inl (n, refl)
      sign (negsuc n) = inr (n, refl)

-- An integer type that accepts a Postgres type reads every integer that fits this type from its
-- datum without loss.
pub accepted_exact :
    (c : Oid → Bool) (t : CppType) (o : Oid) (x : ℤ)
    → is_integer t ≡ true
    → is c t o ≡ true
    → Fits (width o) x
    → int_from_datum t (stored x) ≡ x
unfolding is int64_into_datum int32_into_datum int16_into_datum
accepted_exact c Types.int64 Types.int8_oid x i a f = int64_round_trip x f
accepted_exact c Types.int64 Types.int4_oid x i a f =
    int64_round_trip x (Fits-wider x 32 64 (omega arith) f)
accepted_exact c Types.int64 Types.int2_oid x i a f =
    int64_round_trip x (Fits-wider x 16 64 (omega arith) f)
accepted_exact c Types.int32 Types.int4_oid x i a f = int32_round_trip x f
accepted_exact c Types.int32 Types.int2_oid x i a f =
    int32_round_trip x (Fits-wider x 16 32 (omega arith) f)
accepted_exact c Types.int16 Types.int2_oid x i a f = int16_round_trip x f
accepted_exact c Types.int64 (Types.custom n) x i a f = absurd (ground arith)
accepted_exact c Types.int32 (Types.custom n) x i a f = absurd (ground arith)
accepted_exact c Types.int16 (Types.custom n) x i a f = absurd (ground arith)
accepted_exact c _ _ x i a f = cc
