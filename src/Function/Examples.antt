-- ===== src/Function/Examples.antt =====
-- Calls of function.hpp at concrete values: functions of one bool, over a Postgres that keeps nothing.
use cppgres.Common.{
  ◌++◌, ℕ, ◌≡◌, refl, Bool, true, false, none, List, [], ◌∷◌, arith, if◌then◌else◌,
}
use cppgres.World.{
  World, returns, raises, Cpp, pure, invalid_type, throw, std_exception, out_of_range,
}
use cppgres.Samples.{backend, plain_errors}
use cppgres.Datum.Nullable.{Result, ok, err, NullableDatum}
use cppgres.Datum.Types
use cppgres.Datum.Types.{Oid, CppType, is, int4_oid, bool_oid, record_oid, invalid_oid}
use cppgres.Function.{
  Answer, RecordRow, Backend, Call, SetApi, Func, valued, set_of, invoke, accepts_tuple,
  columns_fit, return_type_of, returns_set, argument_type,
}
use cppgres.Record.{TupleDescriptor}
use cppgres.Function.Keeping.{CallLaws}
use cppgres.Function.Calls.{Answers, invoke-Answers}
use cppgres.Function.Values.{Given, called_in, invoke_value, invoke_refused}
use cppgres.Function.Interrupts.{interrupted_call}

abbrev simple : Oid → Bool
simple o = false

abbrev convert : CppType → NullableDatum → Oid → Result ℕ
convert t d o = if d.isnull then err invalid_type else ok d.value

abbrev done : Cpp (Backend (Unit {0})) (Unit {0})
done = pure tt

-- A tuple store that takes everything, with and without an interrupt that is pending.
abbrev calm : SetApi (Unit {0})
calm = record {
  tuplestore_begin_heap = done;
  check_for_interrupts = done;
  tuplestore_putvalues = λ vs ns. done;
  tuplestore_puttuple = λ t. done;
}

abbrev cancelled : SetApi (Unit {0})
cancelled = record {
  tuplestore_begin_heap = done;
  check_for_interrupts = λ w. raises w;
  tuplestore_putvalues = λ vs ns. done;
  tuplestore_puttuple = λ t. done;
}

calm-CallLaws : CallLaws plain_errors calm
calm-CallLaws = record {
  begins = λ w. refl;
  puts = λ vs ns w. refl;
  puts_tuple = λ t w. refl;
  no_interrupt = λ w. refl;
  context_neutral = λ c p. refl;
  flush_neutral = λ p. refl;
  callback_neutral = λ c p. refl;
  rethrow_neutral = λ d p. refl;
  report_neutral = λ x p. refl;
}

abbrev start : World (Backend (Unit {0}))
start = backend (record { calls = 3 ∷ []; server = tt })

abbrev five : NullableDatum
five = record { value = 5; isnull = false }

-- A call of a function of an int4 that is declared to return an int4.
abbrev one_int : Call
one_int = record {
  fcinfo = 8;
  rettype = int4_oid;
  retset = false;
  argtypes = int4_oid ∷ [];
  prorettype = int4_oid;
  proretset = false;
  proargtypes = int4_oid ∷ [];
  args = five ∷ [];
  isnull = false;
  has_resultinfo = false;
  expected_desc = none;
  expected = [];
  per_query_memory = 6;
}

-- The same with a bool for an argument, and one for a set of records of an int4.
abbrev one_bool : Call
one_bool = record one_int { argtypes = bool_oid ∷ [] }

abbrev int_set : Call
int_set = record one_int {
  rettype = record_oid;
  retset = true;
  has_resultinfo = true;
  expected_desc = none;
  expected = int4_oid ∷ [];
}

abbrev first_or : List ℕ → NullableDatum
first_or [] = record { value = 0; isnull = true }
first_or (a ∷ rest) = record { value = a; isnull = false }

abbrev same_back : List ℕ → Cpp (Backend (Unit {0})) NullableDatum
same_back args = pure (first_or args)

abbrev int_to_int : Func (Unit {0}) ℕ
int_to_int = valued Types.int32 same_back

invoke-Answers_example :
    Answers simple plain_errors calm calm-CallLaws convert start
      (invoke simple plain_errors calm convert int_to_int (Types.int32 ∷ []) one_int start)
invoke-Answers_example =
    invoke-Answers simple plain_errors calm calm-CallLaws convert int_to_int (Types.int32 ∷ [])
      one_int start (λ args w. refl)

-- A function that gives a null.
abbrev null_back : List ℕ → Cpp (Backend (Unit {0})) NullableDatum
null_back args = pure (record { value = 7; isnull = true })

invoke_value_example :
    (a : Answer) × (invoke simple plain_errors calm convert
        (valued Types.int32 null_back)
        (Types.int32 ∷ [])
        one_int
        start
      ≡ returns a start)
    × Given simple plain_errors calm convert one_int (record { value = 7; isnull = true }) a
unfolding is return_type_of returns_set argument_type
invoke_value_example =
    invoke_value simple plain_errors calm convert Types.int32 null_back (Types.int32 ∷ []) one_int
      (5 ∷ []) (record { value = 7; isnull = true }) start
      (called_in simple plain_errors calm convert 8 start) refl refl (omega arith) refl refl refl

invoke_refused_case :
    invoke simple plain_errors calm convert int_to_int (Types.int32 ∷ []) one_bool start
    ≡ invoke simple plain_errors calm convert
        (valued Types.int32 (λ args. throw (std_exception out_of_range)))
        (Types.int32 ∷ [])
        one_bool
        start
unfolding is argument_type
invoke_refused_case =
    invoke_refused simple plain_errors calm convert Types.int32 same_back
      (λ args. throw (std_exception out_of_range)) (Types.int32 ∷ []) one_bool start refl

abbrev row : Cpp (Backend (Unit {0})) (List NullableDatum)
row = pure (five ∷ [])

abbrev rows :
    List ℕ → Cpp (Backend (Unit {0})) (List (Cpp (Backend (Unit {0})) (List NullableDatum)))
rows args = pure (row ∷ [])

interrupted_call_example :
    (v : World (Backend (Unit {0}))) × (invoke simple plain_errors cancelled convert
        (set_of (Types.int32 ∷ []) rows)
        (Types.int32 ∷ [])
        int_set
        start
      ≡ raises v)
    × (v.pg.calls ≡ 8 ∷ 3 ∷ [])
unfolding is return_type_of returns_set argument_type accepts_tuple columns_fit
interrupted_call_example =
    interrupted_call simple plain_errors cancelled convert (Types.int32 ∷ []) rows row [] (5 ∷ [])
      (λ x. (x, refl, refl)) (λ x. (x, refl, refl)) (λ x. (five ∷ [], x, refl, refl))
      (λ x. (x, refl, refl)) (Types.int32 ∷ []) int_set start refl refl refl (omega arith) refl refl
      refl

-- A tuple store that keeps the tuples, as all that Postgres keeps.
abbrev keeping : SetApi (List ℕ)
keeping = record {
  tuplestore_begin_heap = λ w. returns tt (record w { pg = record w.pg { server = [] } });
  check_for_interrupts = pure tt;
  tuplestore_putvalues = λ vs ns. pure tt;
  tuplestore_puttuple =
      λ t w. returns tt (record w { pg = record w.pg { server = w.pg.server ++ (t ∷ []) } });
}

abbrev of_types : ℕ → TupleDescriptor
of_types t = record { attrs = []; tdtypeid = t; blessed = true }

abbrev one_number : List ℕ
one_number = 5 ∷ []

abbrev two_records : List RecordRow
two_records =
    record { descriptor = of_types 1; tuple = 10 }
    ∷ record { descriptor = of_types 2; tuple = 20 }
    ∷ []
