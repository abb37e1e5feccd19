-- ===== src/Function/Interrupts.antt =====
-- The loop of `postgres_function` (function.hpp) over a set: CHECK_FOR_INTERRUPTS stands outside of any guard.
use cppgres.Common.{
  ℕ, ◌≡◌, refl, ◌∙◌, ap, Bool, true, some, List, ◌∷◌, length, leb, ◌≤◌, arith, ==_self,
}
use cppgres.World.{World, returns, raises, Cpp, after, ◌>>=◌, modify, at_scope_end}
use cppgres.Guard.{ErrorApi, restored, exception_guard}
use cppgres.Guard.Restore.{armed}
use cppgres.Guard.Border.{ffi_guard_returns}
use cppgres.Datum.Nullable.{Result, NullableDatum}
use cppgres.Datum.Types.{Oid, CppType}
use cppgres.Function.{
  Backend, Call, Answer, SetApi, set_of, check, check_type, check_expects_set, check_return,
  convert_arguments, accepts_tuple, columns_fit, check_columns, in_context, store_rows, materialize,
  with_call, run_body, checked_arguments, invoke, push, pop, returns_set, return_type_of,
}
use cppgres.Function.Arguments.{converted, arguments_returned}
use cppgres.Function.Values.{guard_cong}

module _ {P : Type 0} (is_composite : Oid → Bool) (errors : ErrorApi (Backend P)) (api : SetApi P)
    {A : Type 0} (convert : CppType → NullableDatum → Oid → Result A) where
  checked_set :
      (cols : List CppType)
      (f : List A → Cpp (Backend P) (List (Cpp (Backend P) (List NullableDatum))))
      (ts : List CppType) (c : Call) (w : World (Backend P))
      → c.has_resultinfo ≡ true
      → returns_set c ≡ true
      → accepts_tuple is_composite cols (return_type_of c) ≡ true
      → length ts ≤ length c.args
      → checked_arguments is_composite errors api convert (set_of cols f) ts c w
        ≡ convert_arguments is_composite errors convert ts c 0 w
  unfolding checked_arguments check_expects_set check_return check_type check
  checked_set cols f ts c w i s r l =
      simp (checked_arguments, i, s, r, leb_true (length ts) (length c.args) l)
    where
      leb_true : (a b : ℕ) → a ≤ b → leb a b ≡ true
      leb_true a b h = ground arith

  module _ (cols : List CppType)
      (f : List A → Cpp (Backend P) (List (Cpp (Backend P) (List NullableDatum))))
      (next : Cpp (Backend P) (List NullableDatum))
      (rest : List (Cpp (Backend P) (List NullableDatum))) (args : List A)
      (begins : (x : World (Backend P))
        → (y : World (Backend P)) × (api.tuplestore_begin_heap x ≡ returns tt y)
          × (y.pg.calls ≡ x.pg.calls))
      (makes : (x : World (Backend P))
        → (y : World (Backend P)) × (f args x ≡ returns (next ∷ rest) y)
          × (y.pg.calls ≡ x.pg.calls))
      (steps : (x : World (Backend P))
        → (row : List NullableDatum) × (y : World (Backend P)) × (next x ≡ returns row y)
          × (y.pg.calls ≡ x.pg.calls))
      (interrupts : (x : World (Backend P))
        → (y : World (Backend P)) × (api.check_for_interrupts x ≡ raises y)
          × (y.pg.calls ≡ x.pg.calls)) where
    body_raises :
        (c : Call) (x : World (Backend P))
        → length cols ≡ length c.expected
        → columns_fit is_composite cols c.expected 0 ≡ true
        → (v : World (Backend P)) × (run_body is_composite errors api (set_of cols f) args c x
            ≡ raises v)
          × (v.pg.calls ≡ x.pg.calls)
    unfolding run_body materialize check_columns in_context store_rows
    body_raises c x n fit =
        let inside = record x { current_memory_context = c.per_query_memory } in
        let (a, e, k) = begins (armed inside) in
        let (b, g, l) = makes (restored inside a) in
        let (row, d, h, m) = steps b in
        let (z, q, o) = interrupts d in
        (
          z,
          rw (n, ==_self (length c.expected), run_body)
              (rw fit (
                rw (ffi_guard_returns errors api.tuplestore_begin_heap inside a tt e)
                  (rw g (rw h (rw q refl))))),
          o ∙ m ∙ l ∙ k,
        )

    -- In a call for a set whose checks pass and whose function returns at least one row, an
    -- interrupt that is raised before the first row is stored leaves the call on the stack of
    -- running calls after the Postgres error has gone out.
    pub interrupted_call :
        (ts : List CppType) (c : Call) (w : World (Backend P))
        → c.has_resultinfo ≡ true
        → returns_set c ≡ true
        → accepts_tuple is_composite cols (return_type_of c) ≡ true
        → length ts ≤ length c.args
        → converted is_composite convert ts c 0 ≡ some args
        → length cols ≡ length c.expected
        → columns_fit is_composite cols c.expected 0 ≡ true
        → (v : World (Backend P)) × (invoke is_composite errors api convert (set_of cols f) ts c w
            ≡ raises v)
          × (v.pg.calls ≡ c.fcinfo ∷ w.pg.calls)
    unfolding invoke with_call exception_guard
    interrupted_call ts c w i s r l a n fit =
        let (v, e, k) = body_raises c (push c.fcinfo w) n fit in
        (
          v,
          guard_cong is_composite errors api convert
              (checked_arguments is_composite errors api convert (set_of cols f) ts c >>= call)
              (λ x. raises v) w
              (ap (after call) (
                  checked_set cols f ts c w i s r l
                  ∙ arguments_returned is_composite errors convert ts c 0 w args a)
                ∙ ap (λ o. at_scope_end o (modify pop)) e),
          k,
        )
      where
        call : List A → Cpp (Backend P) Answer
        call as' = with_call c.fcinfo (run_body is_composite errors api (set_of cols f) as' c)
