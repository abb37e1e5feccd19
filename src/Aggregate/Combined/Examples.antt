-- ===== src/Aggregate/Combined/Examples.antt =====
-- Two partial sums, one of them over no rows, as a concrete case of the combination.
use cppgres.Common.{
  ℕ, suc, ◌+◌, ◌≡◌, refl, sym, ap, ◌∙◌, Bool, true, false, Option, none, some, List, [], ◌∷◌, ◌++◌,
  ◌==◌, ltb, if◌then◌else◌, arith, ==_self, ==-eq_false,
}
use cppgres.World.{returns, Cpp}
use cppgres.Samples.{backend, plain_errors}
use cppgres.Guard.Outcomes.{Ends}
use cppgres.Datum.Nullable.{null_value, ok}
use cppgres.Memory.Contexts.{MemoryApi}
use cppgres.Aggregate.{Class, aggregate_combine}
use cppgres.Aggregate.Meaning.{Failing, Meaning, fold_rows, LeavesObjects, Computes}
use cppgres.Aggregate.Combined.{Apart, aggregate_combine-Refines}

-- Objects stand below the next free address only.
record Heap : Type 0 where
  objects : ℕ → Option ℕ
  next : ℕ

abbrev object : Heap → ℕ → Option ℕ
object p x = if ltb x p.next then p.objects x else none

abbrev put : ℕ → ℕ → Heap → Heap
put x a p = record { objects = λ y. if y == x then some a else p.objects y; next = p.next + suc x }

put_here : (x a : ℕ) (p : Heap) → object (put x a p) x ≡ some a
put_here x a p = rw (below p.next x, ==_self x) refl
  where
    below : (n m : ℕ) → ltb m (n + suc m) ≡ true
    below n m = ground arith

put_there :
    (x y a b : ℕ) (p : Heap) → ¬ (y ≡ x) → object p y ≡ some b → object (put x a p) y ≡ some b
put_there x y a b p n h = kept (ltb y p.next) refl h
  where
    wider : (m k l : ℕ) → ltb m k ≡ true → ltb m (k + suc l) ≡ true
    wider m k l e = ground arith

    kept :
        (c : Bool)
        → ltb y p.next ≡ c
        → (if c then p.objects y else none) ≡ some b
        → object (put x a p) y ≡ some b
    kept true e g = rw (wider y p.next x e, ==-eq_false y x n) g
    kept false e g = absurd (clash g)
      where
        clash : none ≡ some b → ⊥
        clash g = cc

abbrev api : MemoryApi Heap
api = record {
  alloc = λ ctx n w. returns w.pg.next w;
  alloc_aligned = λ ctx n a w. returns w.pg.next w;
  pfree = λ p w. returns tt w;
  reset = λ c w. returns tt w;
  delete = λ c w. returns tt w;
  register_reset_callback = λ ctx cb w. returns tt w;
  chunk_context = λ p w. returns 7 w;
  create = λ parent w. returns 9 w;
  write_callback = λ cb c p. p;
  maximum_alignof = 8;
}

abbrev in_aggregate : Cpp Heap (Option ℕ)
in_aggregate w = returns (some 6) w

abbrev or_zero : Option ℕ → ℕ
or_zero none = 0
or_zero (some a) = a

abbrev sum : Class Heap ℕ ℕ
sum = record {
  convertible = false;
  finalizable = true;
  serializable = false;
  combinable = true;
  layout = record { size = 8; align = 8; trivially_destructible = true; destroyer = 0 };
  make = λ x w. returns tt (record w { pg = put x 0 w.pg });
  make_from = λ ba x w. returns tt w;
  make_combined = λ x y z w.
      returns tt (record w { pg = put z (or_zero (object w.pg x) + or_zero (object w.pg y)) w.pg });
  update = λ x row w. returns tt (record w { pg = put x (or_zero (object w.pg x) + row) w.pg });
  finalize = λ x w. returns (record { value = or_zero (object w.pg x); isnull = false }) w;
  serialize = λ x w. returns x w;
  conversion = record { from_datum = ok; into_datum = λ a. a };
  update_value = λ a row w. returns (a + row) w;
  combine_values = λ a b w. returns (a + b) w;
}

abbrev adds : Meaning ℕ ℕ
adds = record {
  init = 0;
  step = λ a row. a + row;
  final = λ a. record { value = a; isnull = false };
}

leaves : LeavesObjects object ⊥ api in_aggregate
leaves = record {
  allocs = λ ctx n w x. refl;
  allocs_aligned = λ ctx n a w x. refl;
  registers = λ ctx cb w x. refl;
  writes = λ cb c p x. refl;
  checks = λ w. ((6, refl), λ x. refl);
}

computes : Computes object ⊥ sum adds
computes = record {
  by_pointer = (refl, refl);
  makes = λ x w. put_here x 0 w.pg;
  updates = λ x a row w h. rw h (put_here x (a + row) w.pg);
  finalizes = λ x a w h. rw h refl;
}

empty_at : (p : Heap) → object p p.next ≡ none
empty_at p = rw (not_below p.next) refl
  where
    not_below : (n : ℕ) → ltb n n ≡ false
    not_below n = ground arith

apart : Apart ⊥ object api sum adds
apart = record {
  allocs = λ ctx n w. (empty_at w.pg, λ x. refl);
  allocs_aligned = λ ctx n a w. (empty_at w.pg, λ x. refl);
  makes = λ x y b w n h. (put_here x 0 w.pg, put_there x y 0 b w.pg n h);
}

total : ℕ → List ℕ → ℕ
total a rows = fold_rows (λ a row. a + row) a rows

total-add : (a b : ℕ) (rows : List ℕ) → total (a + b) rows ≡ a + total b rows
unfolding total
total-add a b [] = refl
total-add a b (row ∷ rows) = ap (λ x. total x rows) (omega arith) ∙ total-add a (b + row) rows

total-append : (a : ℕ) (rows more : List ℕ) → total a (rows ++ more) ≡ total a rows + total 0 more
unfolding total
total-append a [] more = ap (λ x. total x more) (omega arith) ∙ total-add a 0 more
total-append a (row ∷ rows) more = total-append (a + row) rows more

-- A partial sum of 4 at 808, and one over no rows.
abbrev half : Heap
half = record { objects = λ x. if x == 808 then some 4 else none; next = 816 }

combined :
    (rows more : List ℕ) (x y z : ℕ) (p : Heap)
    → object p x ≡ some (total 0 rows)
    → object p y ≡ some (total 0 more)
    → object (put z (or_zero (object p x) + or_zero (object p y)) p) z
      ≡ some (total 0 (rows ++ more))
combined rows more x y z p h k =
    rw (h, k)
      (put_here z (total 0 rows + total 0 more) p ∙ ap some (sym (total-append 0 rows more)))

aggregate_combine-Refines_example :
    Ends
      (λ x p. object p x ≡ some 4)
      (Failing ⊥)
      (aggregate_combine plain_errors api in_aggregate sum
        (record { datum = null_value; oid = 2281 })
        (record { datum = record { value = 808; isnull = false }; oid = 2281 })
        (backend half))
unfolding total null_value
aggregate_combine-Refines_example =
    aggregate_combine-Refines ⊥ object plain_errors api in_aggregate sum adds leaves computes apart
      [] (4 ∷ []) (record { datum = null_value; oid = 2281 })
      (record { datum = record { value = 808; isnull = false }; oid = 2281 }) (backend half)
      (λ rows more x y z w h k. combined rows more x y z w.pg h k) refl refl refl
