-- ===== src/Datum/Examples.antt =====
-- Conversions of datum.hpp and types.hpp at concrete values.
use cppgres.Common.{◌≡◌, refl, Bool, true, false, some, negsuc, arith}
use cppgres.Datum.Nullable.{
  ok, Conversion, NullableDatum, from_nullable_datum_optional, into_nullable_datum_optional,
}
use cppgres.Datum.Integers.{bool_from_datum, bool_into_datum}
use cppgres.Datum.Types.{int64, int2_oid, optional, is, type_for}
use cppgres.Datum.Laws.{optional_round_trip, accepted_exact, stored, int_from_datum, is-type_for}

abbrev bools : Conversion Bool
bools = record { from_datum = λ d. ok (bool_from_datum d); into_datum = bool_into_datum }

bools_faithful : (b : Bool) → bools.from_datum (bools.into_datum b) ≡ ok b
unfolding bool_from_datum bool_into_datum
bools_faithful true = refl
bools_faithful false = refl

abbrev five : NullableDatum
five = record { value = 5; isnull = false }

abbrev missing : NullableDatum
missing = record { value = 5; isnull = true }

optional_round_trip_case :
    from_nullable_datum_optional bools (into_nullable_datum_optional bools (some true))
    ≡ ok (some true)
optional_round_trip_case = optional_round_trip bools bools_faithful (some true)

accepted_exact_example : int_from_datum int64 (stored (negsuc 299)) ≡ negsuc 299
unfolding is
accepted_exact_example =
    accepted_exact (λ o. false) int64 int2_oid (negsuc 299) refl refl (omega arith)

is-type_for_case : is (λ o. false) (optional int64) (type_for (optional int64)) ≡ true
is-type_for_case = is-type_for (λ o. false) (optional int64)
