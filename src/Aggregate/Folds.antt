-- ===== src/Aggregate/Folds.antt =====
-- aggregate.hpp: an aggregate over rows computes the fold of its class.
use cppgres.Common.{ℕ, ◌≡◌, refl, ◌∙◌, Bool, true, false, Option, some, List, [], ◌∷◌}
use cppgres.World.{World, Cpp, pure}
use cppgres.Guard.{ErrorApi, ffi_guard}
use cppgres.Guard.Restore.{armed}
use cppgres.Guard.Outcomes.{Ends, Ends-then, guarded}
use cppgres.Datum.Nullable.{NullableDatum, null_value}
use cppgres.Memory.Contexts.{MemoryApi}
use cppgres.Aggregate.{
  Class, Value, aggregate_context, object_of, pointer_of, aggregate_sfunc, aggregate_ffunc,
}
use cppgres.Aggregate.Meaning.{
  aggregated, Failing, Meaning, fold_rows, SameObjects, LeavesObjects, StandsFor, Computes,
}
use cppgres.Aggregate.Objects.{construct-Makes}

module _ {P A In : Type 0} (F : Type 0) (object : P → ℕ → Option A) (errors : ErrorApi P)
    (api : MemoryApi P) (check_call_context : Cpp P (Option ℕ)) (agg : Class P A In)
    (meaning : Meaning A In) (leaves : LeavesObjects object F api check_call_context)
    (computes : Computes object F agg meaning) where
  open leaves use {checks}
  open computes use {by_pointer, makes, updates, finalizes}

  abbrev At : A → ℕ → P → Type 0
  At a x p = object p x ≡ some a

  -- The context of the aggregate is found, or an error is thrown.
  pub aggregate_context-Same :
      (w : World P)
      → Ends
          (λ c. SameObjects object w.pg)
          (Failing F)
          (aggregate_context errors api check_call_context agg w)
  unfolding aggregate_context
  aggregate_context-Same w =
      let Found : Option ℕ → P → Type 0 =
        λ found p. ((ctx : ℕ) × (found ≡ some ctx)) × SameObjects object w.pg p in
      Ends-then Found (λ c. SameObjects object w.pg) (Failing F) _
        (ffi_guard errors check_call_context) w
        (guarded Found (Failing F) errors (λ c p h. h) check_call_context w (checks (armed w)))
        (λ found v h. rw h.0.1 h.1)

  object_of_fields-At :
      (isnull : Bool) (value ctx : ℕ) (a : A) (w : World P)
      → StandsFor object meaning.init (record { value = value; isnull = isnull }) a w.pg
      → Ends (At a) (Failing F) (
          object_of errors api check_call_context agg ctx
            (record { value = value; isnull = isnull })
            w)
  unfolding object_of pointer_of
  object_of_fields-At true value ctx a w h =
      construct-Makes F object errors api check_call_context leaves a agg.make w
        (λ x v s. rw h (makes x v)) ctx agg.layout
  object_of_fields-At false value ctx a w h = h

  pub object_of-At :
      (ctx : ℕ) (state : NullableDatum) (a : A) (w : World P)
      → StandsFor object meaning.init state a w.pg
      → Ends (At a) (Failing F) (object_of errors api check_call_context agg ctx state w)
  object_of-At ctx state = object_of_fields-At state.isnull state.value ctx

  -- What holds of a state still holds when the objects are the same.
  pub stands_still :
      (isnull : Bool) (value : ℕ) (a : A) (p q : P)
      → SameObjects object p q
      → StandsFor object meaning.init (record { value = value; isnull = isnull }) a p
      → StandsFor object meaning.init (record { value = value; isnull = isnull }) a q
  stands_still true value a p q s h = h
  stands_still false value a p q s h = s value ∙ h

  sfunc-At :
      (state : Value) (row : In) (a : A) (w : World P)
      → StandsFor object meaning.init state.datum a w.pg
      → Ends
          (At (meaning.step a row))
          (Failing F)
          (aggregate_sfunc errors api check_call_context agg state row w)
  unfolding aggregate_sfunc
  sfunc-At state row a w h =
      Ends-then (λ c. SameObjects object w.pg) (At (meaning.step a row)) (Failing F) _
        (aggregate_context errors api check_call_context agg) w (aggregate_context-Same w)
        (λ ctx v s.
          simp (by_pointer.0, by_pointer.1)
            (Ends-then (At a) (At (meaning.step a row)) (Failing F) _
              (object_of errors api check_call_context agg ctx state.datum) v
              (object_of-At ctx state.datum a v
                (stands_still state.datum.isnull state.datum.value a w.pg v.pg s h))
              (λ x u g.
                Ends-then (λ b. At (meaning.step a row) x) (At (meaning.step a row)) (Failing F)
                  (λ b. pure x) (agg.update x row) u (updates x a row u g) (λ b y k. k))))

  ffunc-Final :
      (state : Value) (a : A) (w : World P)
      → StandsFor object meaning.init state.datum a w.pg
      → Ends
          (λ d p. d ≡ meaning.final a)
          (Failing F)
          (aggregate_ffunc errors api check_call_context agg state w)
  unfolding aggregate_ffunc
  ffunc-Final state a w h = simp by_pointer.1 (
      Ends-then (At a) (λ d p. d ≡ meaning.final a) (Failing F) agg.finalize
        (object_of errors api check_call_context agg w.current_memory_context state.datum) w
        (object_of-At w.current_memory_context state.datum a w h) (λ x v g. finalizes x a v g))

  aggregated-Fold :
      (rows : List In) (state : Value) (a : A) (w : World P)
      → StandsFor object meaning.init state.datum a w.pg
      → Ends
          (λ d p. d ≡ meaning.final (fold_rows meaning.step a rows))
          (Failing F)
          (aggregated errors api check_call_context agg state rows w)
  unfolding aggregated
  aggregated-Fold [] state a w h = ffunc-Final state a w h
  aggregated-Fold (row ∷ rows) state a w h =
      Ends-then (At (meaning.step a row))
        (λ d p. d ≡ meaning.final (fold_rows meaning.step (meaning.step a row) rows)) (Failing F) _
        (aggregate_sfunc errors api check_call_context agg state row) w (sfunc-At state row a w h)
        (λ x v g. aggregated-Fold rows _ (meaning.step a row) v g)

  -- An aggregate whose state is an object, called by Postgres for each row and then for the
  -- result, gives the result of the fold of its class over the rows in order, from null as the
  -- initial state; where no call of Postgres and no member of the class fails, it returns.
  pub aggregated-Refines :
      (rows : List In) (oid : ℕ) (w : World P)
      → Ends
          (λ d p. d ≡ meaning.final (fold_rows meaning.step meaning.init rows))
          (Failing F)
          (aggregated errors api check_call_context agg
            (record { datum = null_value; oid = oid })
            rows
            w)
  unfolding null_value
  aggregated-Refines rows oid w = aggregated-Fold rows _ meaning.init w refl
