-- ===== src/Function.antt =====
-- function.hpp: `postgres_function`, a C++ function as Postgres calls it.
mod Frame
pub mod Keeping
pub mod Calls
pub mod Arguments
pub mod Values
pub mod Interrupts
pub mod Records
pub mod Outgoing
mod Examples
unfoldable pub use Frame.*
use cppgres.Common.{
  ℕ, suc, Bool, true, false, not, ◌&&◌, Option, none, some, List, [], ◌∷◌, map, ◌==◌, leb,
  if◌then◌else◌, length, get_elem?,
}
use cppgres.World.{
  records_differ, What, World, Outcome, returns, throws, raises, terminates, Cpp, pure, ◌>>=◌, ◌>>◌,
  modify, throw, at_scope_end, std_exception, invalid_type, wrong_number_of_values,
  caller_expects_no_set, unexpected_set_type, set_expected, unexpected_return_type,
  too_few_arguments, unexpected_argument_type,
}
use cppgres.Guard.{ErrorApi, ffi_guard, report, exception_guard}
use cppgres.Datum.Nullable.{Result, ok, err, NullableDatum, get_datum}
use cppgres.Datum.Types.{
  Oid, invalid_oid, record_oid, same_oid, CppType, void, tuple_of, tuple_of_one, is, record_type,
}
use cppgres.Record.{TupleDescriptor, attributes, equal_types}

module _ (is_composite : Oid → Bool) where
  -- type_traits of a std::tuple
  unfoldable pub accepts_tuple : List CppType → Oid → Bool
  accepts_tuple (t ∷ []) o = is is_composite (tuple_of_one t) o
  accepts_tuple ts o = is is_composite (tuple_of (length ts)) o

  unfoldable pub columns_fit : List CppType → List Oid → ℕ → Bool
  columns_fit [] os i = true
  columns_fit (t ∷ ts) os i = is is_composite t (oid_at os i) && columns_fit ts os (suc i)

  -- the type that a message is about is named by type::name(), which throws for an invalid one
  module _ {P : Type 0} (errors : ErrorApi (Backend P)) where
    unfoldable pub check : Bool → What → Cpp (Backend P) (Unit {0})
    check b text w = if b then returns tt w else report errors text w

    unfoldable pub check_type : Bool → Oid → What → Cpp (Backend P) (Unit {0})
    check_type b o text w =
        if b
        then returns tt w
        else if valid o
        then report errors text w
        else throw (std_exception invalid_type) w

    check_expects_set : {A : Type 0} → Func P A → Call → Cpp (Backend P) (Unit {0})
    unfolding check
    check_expects_set (set_of ts f) c = check c.has_resultinfo caller_expects_no_set
    check_expects_set (records_of f) c = check c.has_resultinfo caller_expects_no_set
    check_expects_set _ c = pure tt

    -- `if (retset) … else if (!type_traits<return_type>().is(rettype))`
    check_return : {A : Type 0} → Func P A → Bool → Oid → Cpp (Backend P) (Unit {0})
    unfolding check_type accepts_tuple
    check_return (set_of ts f) true o = check_type (accepts_tuple ts o) o unexpected_set_type
    check_return (records_of f) true o =
        check_type (is is_composite record_type o) o unexpected_set_type
    check_return _ true o = report errors set_expected
    check_return (set_of ts f) false o = check_type (same_oid o record_oid) o unexpected_return_type
    check_return (records_of f) false o =
        check_type (same_oid o record_oid) o unexpected_return_type
    check_return (valued t f) false o = check_type (is is_composite t o) o unexpected_return_type
    check_return (procedure f) false o =
        check_type (is is_composite void o) o unexpected_return_type

    module _ {A : Type 0} (convert : CppType → NullableDatum → Oid → Result A) where
      -- one element of `argument_types{…}`; `convert` is from_nullable_datum
      convert_argument : CppType → Call → ℕ → Cpp (Backend P) A
      unfolding check_type lift
      convert_argument t c i = do
        check_type (is is_composite t (argument_type c i)) (argument_type c i)
            unexpected_argument_type
        lift (convert t (argument c i) (argument_type c i))

      pub convert_arguments : List CppType → Call → ℕ → Cpp (Backend P) (List A)
      unfolding convert_argument
      convert_arguments [] c i = pure []
      convert_arguments (t ∷ ts) c i = do
        a ← convert_argument t c i
        rest ← convert_arguments ts c (suc i)
        pure (a ∷ rest)

    module _ (api : SetApi P) where
      -- the body of the loop over a set
      store_row : List NullableDatum → Cpp (Backend P) (Unit {0})
      unfolding datums lift
      store_row row = do
        values ← lift (datums row)
        ffi_guard errors (api.tuplestore_putvalues values (map (λ d. d.isnull) row))

      store_rows : List (Cpp (Backend P) (List NullableDatum)) → Cpp (Backend P) (Unit {0})
      unfolding store_row
      store_rows [] = pure tt
      store_rows (next ∷ rest) = do
        row ← next
        api.check_for_interrupts
        store_row row
        store_rows rest

      -- the two tests on expectedDesc
      check_columns : List CppType → List Oid → Cpp (Backend P) (Unit {0})
      unfolding columns_fit
      check_columns ts os w =
          if length ts == length os
          then (if columns_fit ts os 0 then returns tt w else throw (std_exception invalid_type) w)
          else throw (std_exception wrong_number_of_values) w

      -- the tests on the first record of a set
      unfoldable pub check_record : Option TupleDescriptor → RecordRow → Cpp (Backend P) (Unit {0})
      check_record none r = pure tt
      check_record (some expected_desc) r =
          if not (attributes r.descriptor == attributes expected_desc)
          then throw (std_exception wrong_number_of_values)
          else if not (equal_types r.descriptor expected_desc)
          then throw (std_exception records_differ)
          else pure tt

      -- the loop over a set of records
      unfoldable pub store_records :
          Option TupleDescriptor
          → Bool
          → List (Cpp (Backend P) RecordRow)
          → Cpp (Backend P) (Unit {0})
      unfolding check_record
      store_records expected_desc checked [] = pure tt
      store_records expected_desc checked (next ∷ rest) = do
        r ← next
        (if not checked then check_record expected_desc r else pure tt)
        ffi_guard errors (api.tuplestore_puttuple r.tuple)
        store_records expected_desc true rest

      module _ {A : Type 0} where
        unfoldable pub materialize_records :
            (List A → Cpp (Backend P) (List (Cpp (Backend P) RecordRow)))
            → List A
            → Call
            → Cpp (Backend P) Answer
        unfolding in_context store_records
        materialize_records f args c = do
          in_context c.per_query_memory (do
            ffi_guard errors api.tuplestore_begin_heap
            rows ← f args
            store_records c.expected_desc false rows)
          pure (record { datum = 0; isnull = true })

        materialize :
            List CppType
            → (List A → Cpp (Backend P) (List (Cpp (Backend P) (List NullableDatum))))
            → List A
            → Call
            → Cpp (Backend P) Answer
        unfolding check_columns in_context store_rows
        materialize ts f args c = do
          check_columns ts c.expected
          in_context c.per_query_memory
              (do ffi_guard errors api.tuplestore_begin_heap; rows ← f args; store_rows rows)
          pure (record { datum = 0; isnull = true })

        unfoldable pub run_body : Func P A → List A → Call → Cpp (Backend P) Answer
        unfolding materialize materialize_records answer
        run_body (procedure f) args c = do f args; pure (record { datum = 0; isnull = c.isnull })
        run_body (valued t f) args c = do d ← f args; pure (answer c d)
        run_body (set_of ts f) args c = materialize ts f args c
        run_body (records_of f) args c = materialize_records f args c

        module _ (convert : CppType → NullableDatum → Oid → Result A) where
          -- the test that counts the converted arguments holds whenever it is reached
          unfoldable pub checked_arguments :
              Func P A → List CppType → Call → Cpp (Backend P) (List A)
          unfolding check_expects_set check_return convert_arguments
          checked_arguments func ts c = do
            check_expects_set func c
            check_return func (returns_set c) (return_type_of c)
            check (leb (length ts) (length c.args)) too_few_arguments
            convert_arguments convert ts c 0

          -- operator()(FunctionCallInfo fc)
          unfoldable pub invoke : Func P A → List CppType → Call → Cpp (Backend P) Answer
          unfolding checked_arguments run_body with_call
          invoke func ts c =
              exception_guard errors
                (do args ← checked_arguments func ts c; with_call c.fcinfo (run_body func args c))
