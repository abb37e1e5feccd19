-- ===== src/Spi/Rows.antt =====
-- `result_iterator` and `results` of executor.hpp: rows that are decoded on demand and kept.
use cppgres.Common.{
  ℕ, suc, ◌+◌, ◌-◌, ◌%◌, ◌^◌, Bool, true, false, ◌&&◌, Option, none, some, List, [], ◌∷◌, ◌==◌,
  if◌then◌else◌, length, get_elem?, set, replicate, zero,
}
use cppgres.World.{out_of_range, invalid_type, wrong_number_of_values}
use cppgres.Datum.Nullable.{Result, ok, err, NullableDatum, ◌>>=◌}

-- A table of tuples: the types of the columns, and the rows.
pub record TupleTable : Type 0 where
  pub types : List ℕ
  pub vals : List (List NullableDatum)

-- The C++ types that a row may be read as; the numbers are the types of the elements.
pub data Shape : Type 0 where
  scalar vector : ℕ → Shape
  composite : ℕ → List ℕ → Shape
  tuple : List ℕ → Shape

-- What a row becomes.
pub data Value (A : Type 0) : Type 0 where
  single : A → Value A
  several : List A → Value A

-- SPI_getbinval and SPI_gettypeid count from one; beyond the row they give a null
abbrev pub column : List NullableDatum → ℕ → NullableDatum
column row i = elim (get_elem? row i) [ none ↦ record { value = 0; isnull = true } | some d ↦ d ]

abbrev pub type_at : List ℕ → ℕ → ℕ
type_at types i = elim (get_elem? types i) [ none ↦ 0 | some t ↦ t ]

module _ {A : Type 0} (convert : ℕ → NullableDatum → ℕ → Result A) where
  -- the loop of the vector case and the fold of the tuple case; `convert` is
  -- from_nullable_datum, of a C++ type, a datum and its Postgres type
  columns : List ℕ → List ℕ → List NullableDatum → ℕ → Result (List A)
  columns [] types row i = ok []
  columns (t ∷ ts) types row i = do
    a ← convert t (column row i) (type_at types i)
    rest ← columns ts types row (suc i)
    ok (a ∷ rest)

  first_column : ℕ → List ℕ → List NullableDatum → Result (Value A)
  first_column t types row = do a ← convert t (column row 0) (type_at types 0); ok (single a)

  all_columns : List ℕ → List ℕ → List NullableDatum → Result (Value A)
  unfolding columns
  all_columns ts types row = do as' ← columns ts types row 0; ok (several as')

  -- the branches of operator[] on the kind of type; a scalar is a tuple of one
  unfoldable pub decode : Shape → List ℕ → List NullableDatum → Result (Value A)
  unfolding first_column all_columns
  decode (scalar t) types row = first_column t types row
  decode (composite t fields) types row = first_column t types row
  decode (vector t) types row = all_columns (replicate (length types) t) types row
  decode (tuple ts) types row = all_columns ts types row

  pub record Iterator : Type 0 where
    pub index : ℕ
    pub tuples : List (Option (Value A))

  module _ (shape : Shape) (table : TupleTable) where
    -- results::begin() and results::end()
    unfoldable pub begin : Iterator
    begin = record { index = 0; tuples = replicate (length table.vals) none }

    unfoldable pub end : ℕ
    end = length table.vals

    unfoldable pub keep : Iterator → ℕ → Result (Value A) → Result (Value A) × Iterator
    keep it n (ok v) = (ok v, record it { tuples = set it.tuples n (some v) })
    keep it n (err e) = (err e, it)

    unfoldable pub read : Iterator → ℕ → Option (List NullableDatum) → Result (Value A) × Iterator
    unfolding keep decode
    read it n none = (err out_of_range, it)
    read it n (some row) = keep it n (decode shape table.types row)

    unfoldable pub cached : Iterator → ℕ → Option (Option (Value A)) → Result (Value A) × Iterator
    unfolding read
    cached it n none = (err out_of_range, it)
    cached it n (some (some v)) = (ok v, it)
    cached it n (some none) = read it n (get_elem? table.vals n)

    -- operator[](n): `tuples` is mutable, so that the iterator comes back changed
    unfoldable pub get : Iterator → ℕ → Result (Value A) × Iterator
    unfolding cached
    get it n = cached it n (get_elem? it.tuples n)

    -- operator*()
    unfoldable pub deref : Iterator → Result (Value A) × Iterator
    unfolding get
    deref it = get it it.index

    -- operator++(), operator+=(n), operator-=(n), on a size_t
    unfoldable pub increment : Iterator → Iterator
    increment it = record it { index = (it.index + 1) % 2 ^ 64 }

    unfoldable pub advance : Iterator → ℕ → Iterator
    advance it n = record it { index = (it.index + n) % 2 ^ 64 }

    unfoldable pub retreat : Iterator → ℕ → Iterator
    retreat it n = record it { index = (it.index + 2 ^ 64 - n) % 2 ^ 64 }

    -- operator==(size_t end_index)
    unfoldable pub at_end : Iterator → Bool
    unfolding end
    at_end it = it.index == end

    abbrev pub prepended :
        Value A → Option (Result (List (Value A))) → Option (Result (List (Value A)))
    prepended v none = none
    prepended v (some (ok vs)) = some (ok (v ∷ vs))
    prepended v (some (err e)) = some (err e)

    unfoldable pub continue :
        (Iterator → Option (Result (List (Value A))))
        → Result (Value A) × Iterator
        → Option (Result (List (Value A)))
    unfolding increment
    continue rest (ok v, it) = prepended v (rest (increment it))
    continue rest (err e, it) = some (err e)

    -- `for (auto &v : results)`: what the body is given, or the first exception
    unfoldable pub collect : ℕ → Iterator → Option (Result (List (Value A)))
    unfolding deref at_end continue
    collect zero it = none
    collect (suc fuel) it = elim (at_end it) [
      | true ↦ some (ok [])
      | false ↦ continue (collect fuel) (deref it)
    ]

-- The loop of the constructor of `results` over the columns: `accepts` is type_traits<T>().is.
module _ (accepts : ℕ → ℕ → Bool) where
  columns_fit : List ℕ → List ℕ → ℕ → Bool
  columns_fit [] types i = true
  columns_fit (t ∷ ts) types i = accepts t (type_at types i) && columns_fit ts types (suc i)

  fits_or_error : List ℕ → List ℕ → Result (Unit {0})
  unfolding columns_fit
  fits_or_error ts types = if columns_fit ts types 0 then ok tt else err invalid_type

  sized : List ℕ → List ℕ → Bool → Result (Unit {0})
  unfolding fits_or_error
  sized ts types convertible =
      if length types == length ts
      then fits_or_error ts types
      else if length types == 1 && convertible
      then ok tt
      else err wrong_number_of_values

  -- results(::SPITupleTable *)
  unfoldable pub check_results : Shape → List ℕ → Result (Unit {0})
  unfolding sized
  check_results (vector t) types = fits_or_error (replicate (length types) t) types
  check_results (scalar t) types = sized (t ∷ []) types true
  check_results (composite t fields) types = sized fields types true
  check_results (tuple ts) types = sized ts types false
