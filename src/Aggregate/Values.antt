-- ===== src/Aggregate/Values.antt =====
-- aggregate.hpp: a class whose values convert into datums and that has a final function.
use cppgres.Common.{ℕ, ◌≡◌, refl, true, false, Option, some}
use cppgres.World.{World, returns, Cpp, ◌>>=◌}
use cppgres.Guard.{ErrorApi, restored}
use cppgres.Guard.Restore.{armed}
use cppgres.Guard.Border.{ffi_guard_returns}
use cppgres.Datum.Nullable.{ok, of_datum, from_nullable_datum}
use cppgres.Memory.Contexts.{MemoryApi}
use cppgres.Aggregate.{
  Class, aggregate_context, object_of, pointer_of, value_or_throw, aggregate_sfunc, aggregate_ffunc,
}

module _ {P A In : Type 0} (errors : ErrorApi P) (api : MemoryApi P)
    (check_call_context : Cpp P (Option ℕ)) (agg : Class P A In) where
  -- For a class whose values convert into datums and that has a final function, the final function
  -- takes the datum that the transition function made of the value for the address of an object.
  pub final_of_value :
      (value oid ctx : ℕ) (row : In) (a b : A) (w v u : World P)
      → (agg.convertible ≡ true) × (agg.finalizable ≡ true)
      → check_call_context (armed w) ≡ returns (some ctx) v
      → agg.conversion.from_datum value ≡ ok a
      → agg.update_value a row (restored w v) ≡ returns b u
      → (do
        d ←
            aggregate_sfunc errors api check_call_context agg
              (record { datum = record { value = value; isnull = false }; oid = oid })
              row
        aggregate_ffunc errors api check_call_context agg
            (record { datum = of_datum d; oid = oid }))
          w
        ≡ agg.finalize (agg.conversion.into_datum b) u
  unfolding aggregate_sfunc aggregate_ffunc aggregate_context object_of pointer_of value_or_throw
      from_nullable_datum of_datum
  final_of_value value oid ctx row a b w v u (c, f) checked converts updates =
      simp
        (
          c,
          f,
          ffi_guard_returns errors check_call_context w v (some ctx) checked,
          converts,
          updates,
        )
        refl
