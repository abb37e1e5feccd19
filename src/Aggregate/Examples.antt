-- ===== src/Aggregate/Examples.antt =====
-- Tests of the aggregates, and concrete cases of the theorems about them.
use cppgres.Common.{
  ℕ, ◌+◌, ◌≡◌, refl, Bool, true, false, Option, none, some, [], ◌∷◌, ◌==◌, if◌then◌else◌, arith,
}
use cppgres.World.{World, returns, Cpp, ◌>>=◌}
use cppgres.Samples.{backend, plain_errors}
use cppgres.Guard.Outcomes.{Ends}
use cppgres.Datum.Nullable.{null_value, of_datum, ok}
use cppgres.Memory.Contexts.{MemoryApi}
use cppgres.Aggregate.{Class, aggregate_sfunc, aggregate_ffunc}
use cppgres.Aggregate.Meaning.{Failing, Meaning, LeavesObjects, Computes, aggregated}
use cppgres.Aggregate.Folds.{aggregated-Refines}
use cppgres.Aggregate.Values.{final_of_value}

-- A Postgres that keeps the objects and the next free address.
record Heap : Type 0 where
  objects : ℕ → Option ℕ
  next : ℕ

abbrev put : ℕ → ℕ → Heap → Heap
put x a p = record p { objects = λ y. if y == x then some a else p.objects y }

abbrev bump : Cpp Heap ℕ
bump w = returns w.pg.next (record w { pg = record w.pg { next = w.pg.next + 8 } })

abbrev api : MemoryApi Heap
api = record {
  alloc = λ ctx n. bump;
  alloc_aligned = λ ctx n a. bump;
  pfree = λ p w. returns tt w;
  reset = λ c w. returns tt w;
  delete = λ c w. returns tt w;
  register_reset_callback = λ ctx cb w. returns tt w;
  chunk_context = λ p w. returns 7 w;
  create = λ parent w. returns 9 w;
  write_callback = λ cb c p. p;
  maximum_alignof = 8;
}

abbrev in_aggregate : Cpp Heap (Option ℕ)
in_aggregate w = returns (some 6) w

abbrev or_zero : Option ℕ → ℕ
or_zero none = 0
or_zero (some a) = a

-- The sum of the rows, as an object or as a value.
abbrev sum : Bool → Class Heap ℕ ℕ
sum as_value = record {
  convertible = as_value;
  finalizable = true;
  serializable = false;
  combinable = true;
  layout = record { size = 8; align = 8; trivially_destructible = true; destroyer = 0 };
  make = λ x w. returns tt (record w { pg = put x 0 w.pg });
  make_from = λ ba x w. returns tt w;
  make_combined = λ x y z w.
      returns tt
        (record w { pg = put z (or_zero (w.pg.objects x) + or_zero (w.pg.objects y)) w.pg });
  update = λ x row w. returns tt (record w { pg = put x (or_zero (w.pg.objects x) + row) w.pg });
  finalize = λ x w. returns (record { value = or_zero (w.pg.objects x); isnull = false }) w;
  serialize = λ x w. returns x w;
  conversion = record { from_datum = ok; into_datum = λ a. a };
  update_value = λ a row w. returns (a + row) w;
  combine_values = λ a b w. returns (a + b) w;
}

abbrev adds : Meaning ℕ ℕ
adds = record {
  init = 0;
  step = λ a row. a + row;
  final = λ a. record { value = a; isnull = false };
}

abbrev start : World Heap
start = backend (record { objects = λ x. none; next = 800 })

object_at : Heap → ℕ → Option ℕ
object_at p x = p.objects x

-- No call fails here.
leaves : LeavesObjects (λ p. p.objects) ⊥ api in_aggregate
leaves = record {
  allocs = λ ctx n w x. refl;
  allocs_aligned = λ ctx n a w x. refl;
  registers = λ ctx cb w x. refl;
  writes = λ cb c p x. refl;
  checks = λ w. ((6, refl), λ x. refl);
}

computes : Computes (λ p. p.objects) ⊥ (sum false) adds
computes = record {
  by_pointer = (refl, refl);
  makes = λ x w. ground arith;
  updates = λ x a row w h. ground arith;
  finalizes = λ x a w h. rw h refl;
}

-- 1 + 2 + 4, and it returns.
aggregated-Refines_example :
    Ends
      (λ d p. d ≡ record { value = 7; isnull = false })
      (Failing ⊥)
      (aggregated plain_errors api in_aggregate
        (sum false)
        (record { datum = null_value; oid = 2281 })
        (1 ∷ 2 ∷ 4 ∷ [])
        start)
aggregated-Refines_example =
    aggregated-Refines ⊥ (λ p. p.objects) plain_errors api in_aggregate (sum false) adds leaves
      computes (1 ∷ 2 ∷ 4 ∷ []) 2281 start

final_of_value_case :
    (do
      d ←
          aggregate_sfunc plain_errors api in_aggregate
            (sum true)
            (record { datum = record { value = 5; isnull = false }; oid = 23 })
            4
      aggregate_ffunc plain_errors api in_aggregate
          (sum true)
          (record { datum = of_datum d; oid = 23 }))
      start
    ≡ returns (record { value = 0; isnull = false }) start
final_of_value_case =
    final_of_value plain_errors api in_aggregate (sum true) 5 23 6 4 5 9 start _ start (refl, refl)
      refl refl refl
