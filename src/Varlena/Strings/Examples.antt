-- ===== src/Varlena/Strings/Examples.antt =====
-- Three bytes as a string and as a byte array, as a concrete case of the round trips.
use cppgres.Common.{arith, ℕ, ◌≡◌, some, List, [], ◌∷◌}
use cppgres.World.{◌>>=◌}
use cppgres.Samples.{plain_errors}
use cppgres.Guard.Outcomes.{Ends}
use cppgres.Varlena.Sample.{memory, api, start, bytes_laws}
use cppgres.Varlena.Strings.{string_from_datum, string_into_datum, byte_array_into_datum}
use cppgres.Varlena.Strings.Copies.{strings_round_trip}

abbrev three : List ℕ
three = 1 ∷ 0 ∷ 255 ∷ []

strings_round_trip_example :
    Ends
      (λ read h. read ≡ 1 ∷ 0 ∷ 255 ∷ [])
      (λ h. ⊥)
      ((string_into_datum plain_errors memory api three >>= λ d.
          string_from_datum plain_errors memory api 1 d (some 4))
        start)
    × Ends
        (λ read h. read ≡ 1 ∷ 0 ∷ 255 ∷ [])
        (λ h. ⊥)
        ((byte_array_into_datum plain_errors memory api 1 three >>= λ d.
            string_from_datum plain_errors memory api 1 d (some 4))
          start)
strings_round_trip_example =
    strings_round_trip plain_errors memory api (λ x p. p.plain_at x) ⊥ bytes_laws three 1 (some 4)
      start (omega arith)
