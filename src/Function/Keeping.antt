-- ===== src/Function/Keeping.antt =====
-- function.hpp: code that leaves the stack of running calls as it found it, up to the body of a call.
use cppgres.Common.{
  ℕ, ◌≡◌, refl, ap, ◌∙◌, Bool, true, false, not, if◌then◌else◌, Option, none, some, List, [], ◌∷◌,
  arith,
}
use cppgres.World.{
  What, World, Outcome, returns, throws, raises, terminates, Cpp, after, pure, modify, at_scope_end,
}
use cppgres.Guard.{ErrorApi, ffi_guard}
use cppgres.Guard.Restore.{armed}
use cppgres.Guard.Border.{ffi_guard_returns, ffi_guard_raises}
use cppgres.Record.{TupleDescriptor}
use cppgres.Datum.Nullable.{Result, ok, err, NullableDatum}
use cppgres.Datum.Types.{Oid, CppType}
use cppgres.Function.{
  Backend, Call, SetApi, Func, procedure, valued, set_of, records_of, RecordRow, check_record,
  store_records, materialize_records, lift, store_row, store_rows, check_columns, in_context, push,
  pop, rest_of, materialize, run_body, datums,
}

module _ {P : Type 0} where
  -- The stack of calls is as before. `R` says whether a Postgres error may leave.
  abbrev pub Kept : {T : Type 0} → Type 0 → World (Backend P) → Outcome (Backend P) T → Type 0
  Kept R w (returns a v) = v.pg.calls ≡ w.pg.calls
  Kept R w (throws e v) = v.pg.calls ≡ w.pg.calls
  Kept R w (raises v) = R × (v.pg.calls ≡ w.pg.calls)
  Kept R w terminates = ⊥

  -- Code that keeps the stack and raises no Postgres error past its guards.
  abbrev pub Keeps : {T : Type 0} → Cpp (Backend P) T → Type 0
  Keeps m = (w : World (Backend P)) → Kept ⊥ w (m w)

  -- A call of Postgres: it returns, or raises at the handler on top.
  abbrev pub IsServerCall : World (Backend P) → Outcome (Backend P) (Unit {0}) → Type 0
  IsServerCall w (returns a v) = v.pg.calls ≡ w.pg.calls
  IsServerCall w (throws e v) = ⊥
  IsServerCall w (raises v) = (v.pg.calls ≡ w.pg.calls) × (v.exception_stack ≡ w.exception_stack)
  IsServerCall w terminates = ⊥

  abbrev AllKeep : {T : Type 0} → List (Cpp (Backend P) T) → Type 0
  AllKeep [] = Unit
  AllKeep (m ∷ ms) = Keeps m × AllKeep ms

  -- What a call for a set gives: rows whose computation keeps the stack.
  abbrev pub RowsKept :
      {T : Type 0} → World (Backend P) → Outcome (Backend P) (List (Cpp (Backend P) T)) → Type 0
  RowsKept w (returns rows v) = (v.pg.calls ≡ w.pg.calls) × AllKeep rows
  RowsKept w (throws e v) = v.pg.calls ≡ w.pg.calls
  RowsKept w (raises v) = ⊥
  RowsKept w terminates = ⊥

  abbrev pub FuncKeeps : {A : Type 0} → Func P A → Type 0
  FuncKeeps (procedure f) = (args : List _) → Keeps (f args)
  FuncKeeps (valued t f) = (args : List _) → Keeps (f args)
  FuncKeeps (set_of ts f) = (args : List _) (w : World (Backend P)) → RowsKept w (f args w)
  FuncKeeps (records_of f) = (args : List _) (w : World (Backend P)) → RowsKept w (f args w)

-- What Postgres promises: its error functions and the calls for a tuple store leave the stack, which
-- is a variable of the library, alone; no interrupt is pending.
pub record CallLaws {P : Type 0} (errors : ErrorApi (Backend P)) (api : SetApi P) : Type 0 where
  pub begins : (w : World (Backend P)) → IsServerCall w (api.tuplestore_begin_heap w)
  pub puts :
      (vs : List ℕ) (ns : List Bool) (w : World (Backend P))
      → IsServerCall w (api.tuplestore_putvalues vs ns w)
  pub puts_tuple : (t : ℕ) (w : World (Backend P)) → IsServerCall w (api.tuplestore_puttuple t w)
  pub no_interrupt : (w : World (Backend P)) → Kept ⊥ w (api.check_for_interrupts w)
  pub context_neutral : (c : ℕ) (p : Backend P) → (errors.with_context c p).calls ≡ p.calls
  pub flush_neutral : (p : Backend P) → (errors.flush_error_state p).calls ≡ p.calls
  pub callback_neutral : (c : ℕ) (p : Backend P) → (errors.delete_after_error c p).calls ≡ p.calls
  pub rethrow_neutral : (d : ℕ) (p : Backend P) → (errors.rethrow_error d p).calls ≡ p.calls
  pub report_neutral : (x : What) (p : Backend P) → (errors.report_error x p).calls ≡ p.calls

module _ {P : Type 0} (is_composite : Oid → Bool) (errors : ErrorApi (Backend P)) (api : SetApi P)
    (law : CallLaws errors api) where
  Kept-from :
      (R : Type 0) {T : Type 0} (w v : World (Backend P)) (o : Outcome (Backend P) T)
      → v.pg.calls ≡ w.pg.calls
      → Kept R v o
      → Kept R w o
  Kept-from R w v (returns a x) e k = k ∙ e
  Kept-from R w v (throws y x) e k = k ∙ e
  Kept-from R w v (raises x) e k = (k.0, k.1 ∙ e)
  Kept-from R w v terminates e k = k

  pub Kept-after :
      (R : Type 0) {S T : Type 0} (w : World (Backend P)) (o : Outcome (Backend P) S)
      (f : S → Cpp (Backend P) T)
      → Kept R w o
      → ((a : S) (v : World (Backend P)) → Kept R v (f a v))
      → Kept R w (after f o)
  Kept-after R w (returns a v) f k h = Kept-from R w v (f a v) k (h a v)
  Kept-after R w (throws e v) f k h = k
  Kept-after R w (raises v) f k h = k
  Kept-after R w terminates f k h = k

  -- A raise is possible where none happens.
  pub Kept-wider :
      (R : Type 0) {T : Type 0} (w : World (Backend P)) (o : Outcome (Backend P) T)
      → Kept ⊥ w o
      → Kept R w o
  Kept-wider R w (returns a v) k = k
  Kept-wider R w (throws e v) k = k
  Kept-wider R w (raises v) k = absurd k.0
  Kept-wider R w terminates k = k

  guarded_call :
      (m : Cpp (Backend P) (Unit {0})) (w : World (Backend P)) (o : Outcome (Backend P) (Unit {0}))
      → m (armed w) ≡ o
      → IsServerCall (armed w) o
      → Kept ⊥ w (ffi_guard errors m w)
  guarded_call m w (returns a v) e h = rw (ffi_guard_returns errors m w v a e) h
  guarded_call m w (throws x v) e h = absurd h
  guarded_call m w (raises v) e h =
      rw (ffi_guard_raises errors m w v e h.1)
        (law.flush_neutral _ ∙ law.context_neutral _ v.pg ∙ h.0)
  guarded_call m w terminates e h = absurd h

  -- Both destructors of the call put back what they changed.
  context_put_back :
      {T : Type 0} (w : World (Backend P)) (ctx : ℕ) (o : Outcome (Backend P) T)
      → Kept ⊥ w o
      → Kept ⊥ w (at_scope_end o (modify (λ v. record v { current_memory_context = ctx })))
  context_put_back w ctx (returns a v) k = k
  context_put_back w ctx (throws e v) k = k
  context_put_back w ctx (raises v) k = k
  context_put_back w ctx terminates k = k

  pub call_popped :
      {T : Type 0} (fc : ℕ) (w : World (Backend P)) (o : Outcome (Backend P) T)
      → Kept ⊥ (push fc w) o
      → Kept ⊥ w (at_scope_end o (modify pop))
  call_popped fc w (returns a v) k = ap rest_of k
  call_popped fc w (throws e v) k = ap rest_of k
  call_popped fc w (raises v) k = absurd k.0
  call_popped fc w terminates k = k

  pub lift-Keeps : {T : Type 0} (r : Result T) → Keeps {P = P} (lift r)
  unfolding lift
  lift-Keeps (ok t) w = refl
  lift-Keeps (err x) w = refl

  store_row-Keeps : (row : List NullableDatum) → Keeps (store_row is_composite errors api row)
  unfolding store_row
  store_row-Keeps row w =
      Kept-after ⊥ w (lift (datums row) w) _ (lift-Keeps (datums row) w)
        (λ vs v. guarded_call _ v _ refl (law.puts _ _ _))

  store_rows_keep :
      (rows : List (Cpp (Backend P) (List NullableDatum)))
      → AllKeep rows
      → Keeps (store_rows is_composite errors api rows)
  unfolding store_rows
  store_rows_keep [] k w = refl
  store_rows_keep (next ∷ rest) k w = Kept-after ⊥ w (next w) _ (k.0 w) (λ row v.
      Kept-after ⊥ v (api.check_for_interrupts v) _ (law.no_interrupt v) (λ _ x.
        Kept-after ⊥ x (store_row is_composite errors api row x) _ (store_row-Keeps row x)
          (λ _ y. store_rows_keep rest k.1 y)))

  record_checked :
      (expected : Option TupleDescriptor) (r : RecordRow)
      → Keeps (check_record is_composite errors api expected r)
  unfolding check_record
  record_checked none r w = refl
  record_checked (some d) r w = ground arith

  checked_or_not :
      (checked : Bool) (expected : Option TupleDescriptor) (r : RecordRow)
      → Keeps (if not checked then check_record is_composite errors api expected r else pure tt)
  checked_or_not true expected r w = refl
  checked_or_not false expected r w = record_checked expected r w

  store_records_keep :
      (expected : Option TupleDescriptor) (checked : Bool) (rows : List (Cpp (Backend P) RecordRow))
      → AllKeep rows
      → Keeps (store_records is_composite errors api expected checked rows)
  unfolding store_records
  store_records_keep expected checked [] k w = refl
  store_records_keep expected checked (next ∷ rest) k w = Kept-after ⊥ w (next w) _ (k.0 w) (λ r v.
      Kept-after ⊥ v _ _ (checked_or_not checked expected r v) (λ _ x.
        Kept-after ⊥ x (ffi_guard errors (api.tuplestore_puttuple r.tuple) x) _
          (guarded_call (api.tuplestore_puttuple r.tuple) x _ refl
            (law.puts_tuple r.tuple (armed x)))
          (λ _ y. store_records_keep expected true rest k.1 y)))

  made_rows_keep :
      {T : Type 0} (store : List (Cpp (Backend P) T) → Cpp (Backend P) (Unit {0}))
      → ((rows : List (Cpp (Backend P) T)) → AllKeep rows → Keeps (store rows))
      → (w : World (Backend P)) (o : Outcome (Backend P) (List (Cpp (Backend P) T))) → RowsKept w o
      → Kept ⊥ w (after store o)
  made_rows_keep store keep w (returns rows v) k = Kept-from ⊥ w v _ k.0 (keep rows k.1 v)
  made_rows_keep store keep w (throws e v) k = k
  made_rows_keep store keep w (raises v) k = absurd k
  made_rows_keep store keep w terminates k = absurd k

  columns_keep :
      (ts : List CppType) (os : List Oid) → Keeps (check_columns is_composite errors api ts os)
  unfolding check_columns
  columns_keep ts os w = ground arith

  in_context-Keeps :
      {T : Type 0} (ctx : ℕ) (m : Cpp (Backend P) T) → Keeps m → Keeps (in_context ctx m)
  unfolding in_context
  in_context-Keeps ctx m k w =
      context_put_back w w.current_memory_context _ (k (record w { current_memory_context = ctx }))

  module _ {A : Type 0} where
    pub body-Keeps :
        (func : Func P A) (args : List A) (c : Call)
        → FuncKeeps func
        → Keeps (run_body is_composite errors api func args c)
    unfolding run_body materialize materialize_records
    body-Keeps (procedure f) args c k w = Kept-after ⊥ w (f args w) _ (k args w) (λ a v. refl)
    body-Keeps (valued t f) args c k w = Kept-after ⊥ w (f args w) _ (k args w) (λ a v. refl)
    body-Keeps (set_of ts f) args c k w =
        Kept-after ⊥ w (check_columns is_composite errors api ts c.expected w) _
          (columns_keep ts c.expected w)
          (λ _ x.
            Kept-after ⊥ x _ _
              (in_context-Keeps c.per_query_memory _
                (λ y.
                  Kept-after ⊥ y _ _
                    (guarded_call api.tuplestore_begin_heap y _ refl (law.begins (armed y)))
                    (λ _ z.
                      made_rows_keep (store_rows is_composite errors api) store_rows_keep z
                        (f args z) (k args z)))
                x)
              (λ _ z. refl))
    body-Keeps (records_of f) args c k w =
        Kept-after ⊥ w _ _
          (in_context-Keeps c.per_query_memory _
            (λ y.
              Kept-after ⊥ y _ _
                (guarded_call api.tuplestore_begin_heap y _ refl (law.begins (armed y)))
                (λ _ z.
                  made_rows_keep (store_records is_composite errors api c.expected_desc false)
                    (store_records_keep c.expected_desc false) z (f args z) (k args z)))
            w)
          (λ _ z. refl)
