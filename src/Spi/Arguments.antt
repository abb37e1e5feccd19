-- ===== src/Spi/Arguments.antt =====
-- make_datums and make_nulls of `spi_executor` in executor.hpp: the two arrays that SPI takes for the arguments.
use cppgres.Common.{ℕ, true, false, List, [], ◌∷◌, ◌≡◌, refl, if◌then◌else◌, arith}
use cppgres.Datum.Nullable.{NullableDatum}

-- The characters 'n' and ' ' of the array of nulls.
pub data NullFlag : Type 0 where
  null_flag value_flag : NullFlag

unfoldable pub make_datums : List NullableDatum → List ℕ
make_datums [] = []
make_datums (v ∷ values) = (if v.isnull then 0 else v.value) ∷ make_datums values

unfoldable pub make_nulls : List NullableDatum → List NullFlag
make_nulls [] = []
make_nulls (v ∷ values) = (if v.isnull then null_flag else value_flag) ∷ make_nulls values

-- An argument as SPI reads it: the datum counts only where the flag is not 'n'.
abbrev pub read_argument : ℕ → NullFlag → NullableDatum
read_argument d null_flag = record { value = 0; isnull = true }
read_argument d value_flag = record { value = d; isnull = false }

abbrev pub read_arguments : List ℕ → List NullFlag → List NullableDatum
read_arguments (d ∷ ds) (f ∷ fs) = read_argument d f ∷ read_arguments ds fs
read_arguments _ _ = []

-- A null says nothing of the value in it.
abbrev pub normal : NullableDatum → NullableDatum
normal v = if v.isnull then record { value = 0; isnull = true } else v

abbrev pub normal_all : List NullableDatum → List NullableDatum
normal_all [] = []
normal_all (v ∷ vs) = normal v ∷ normal_all vs

argument_read :
    (v : NullableDatum)
    → read_argument (if v.isnull then 0 else v.value) (if v.isnull then null_flag else value_flag)
      ≡ normal v
argument_read v = ground arith

-- The arrays of datums and of null flags that are made of the arguments of a query read back as
-- the same arguments, a null as a null whatever value stood in it.
pub arguments_faithful :
    (values : List NullableDatum)
    → read_arguments (make_datums values) (make_nulls values) ≡ normal_all values
unfolding make_datums make_nulls
arguments_faithful [] = refl
arguments_faithful (v ∷ values) = rw (argument_read v, arguments_faithful values) refl
