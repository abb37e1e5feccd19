-- ===== src/Datum/Nullable.antt =====
-- `nullable_datum`, and the conversions of datum.hpp and types.hpp that deal with null.
use cppgres.Common.{ℕ, Bool, true, false, Option, none, some, ◌==◌, if◌then◌else◌}
use cppgres.World.{What, null_datum, datum_is_null}

-- What a conversion gives, or the exception that it throws.
pub data Result (A : Type 0) : Type 0 where
  ok : A → Result A
  err : What → Result A

infixl 5 ◌>>=◌
abbrev pub ◌>>=◌ : {A B : Type 0} → Result A → (A → Result B) → Result B
ok a >>= f = f a
err e >>= f = err e

-- NullableDatum of Postgres, which the union of the class stands on.
pub record NullableDatum : Type 0 where
  pub value : ℕ
  pub isnull : Bool

-- nullable_datum() leaves the value at zero; nullable_datum(datum)
unfoldable pub null_value : NullableDatum
null_value = record { value = 0; isnull = true }

unfoldable pub of_datum : ℕ → NullableDatum
of_datum d = record { value = d; isnull = false }

-- operator struct datum &(), operator const ::Datum &()
unfoldable pub get_datum : NullableDatum → Result ℕ
get_datum d = if d.isnull then err null_datum else ok d.value

-- operator==
unfoldable pub equal : NullableDatum → NullableDatum → Bool
equal a b = if a.isnull then b.isnull else if b.isnull then a.isnull else a.value == b.value

-- A datum_conversion<T>: `from_datum` may throw.
pub record Conversion (T : Type 0) : Type 0 where
  pub from_datum : ℕ → Result T
  pub into_datum : T → ℕ

module _ {T : Type 0} (conversion : Conversion T) where
  open conversion use {from_datum, into_datum}

  -- default_datum_conversion<T>
  unfoldable pub from_nullable_datum : NullableDatum → Result T
  from_nullable_datum d = if d.isnull then err datum_is_null else from_datum d.value

  unfoldable pub into_nullable_datum : T → NullableDatum
  unfolding of_datum
  into_nullable_datum t = of_datum (into_datum t)

  as_some : Result T → Result (Option T)
  as_some (ok t) = ok (some t)
  as_some (err e) = err e

  -- datum_conversion<std::optional<T>>
  unfoldable pub from_nullable_datum_optional : NullableDatum → Result (Option T)
  unfolding as_some
  from_nullable_datum_optional d = if d.isnull then ok none else as_some (from_datum d.value)

  unfoldable pub into_nullable_datum_optional : Option T → NullableDatum
  unfolding of_datum null_value
  into_nullable_datum_optional none = null_value
  into_nullable_datum_optional (some t) = of_datum (into_datum t)
