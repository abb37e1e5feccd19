-- ===== src/Aggregate.antt =====
-- aggregate.hpp: the functions of an aggregate whose state is a C++ class.
pub mod Meaning
pub mod Objects
pub mod Folds
pub mod Combined
pub mod Values
mod Examples
use cppgres.Common.{ℕ, Bool, true, false, not, ◌&&◌, Option, none, some, ◌==◌, if◌then◌else◌}
use cppgres.World.{
  What, message, datum_is_null, World, Cpp, pure, ◌>>=◌, ◌>>◌, throw, std_exception,
}
use cppgres.Guard.{ErrorApi, ffi_guard, report}
use cppgres.Datum.Nullable.{NullableDatum, Conversion, Result, ok, err, from_nullable_datum}
use cppgres.Memory.Contexts.{MemoryApi, Layout, construct}

-- A class of aggregate states, over the type of its values and that of a row. The Booleans say which
-- of the concepts it has: convertible_into_datum, finalizable_aggregate, serializable_aggregate and
-- combinable_aggregate. A state that is an object works at its address; a convertible one is also
-- a value. `bytea` is a number, as a datum is.
pub record Class (P A In : Type 0) : Type 0 where
  pub convertible : Bool
  pub finalizable : Bool
  pub serializable : Bool
  pub combinable : Bool
  pub layout : Layout
  pub make : ℕ → Cpp P (Unit {0})
  pub make_from : ℕ → ℕ → Cpp P (Unit {0})
  pub make_combined : ℕ → ℕ → ℕ → Cpp P (Unit {0})
  pub update : ℕ → In → Cpp P (Unit {0})
  pub finalize : ℕ → Cpp P NullableDatum
  pub serialize : ℕ → Cpp P ℕ
  pub conversion : Conversion A
  pub update_value : A → In → Cpp P A
  pub combine_values : A → A → Cpp P A

-- A `value`: a nullable datum and its type.
pub record Value : Type 0 where
  pub datum : NullableDatum
  pub oid : ℕ

-- "not aggregate context", "not supported", "this aggregate does not support final function",
-- "this aggregate does not support serialize"
abbrev pub not_aggregate_context : What
not_aggregate_context = message 1

abbrev pub not_supported : What
not_supported = message 2

abbrev pub no_final_function : What
no_final_function = message 3

abbrev pub no_serialize : What
no_serialize = message 4

-- INTERNALOID
abbrev pub internal_oid : ℕ
internal_oid = 2281

module _ {P : Type 0} where
  -- a conversion throws what it fails with
  value_or_throw : {T : Type 0} → Result T → Cpp P T
  value_or_throw (ok t) = pure t
  value_or_throw (err e) = throw (std_exception e)

  -- from_nullable_datum<void *>
  pointer_of : NullableDatum → Cpp P ℕ
  pointer_of d = if d.isnull then throw (std_exception datum_is_null) else pure d.value

-- `check_call_context` is AggCheckCallContext for the current call: the memory context of the
-- aggregate, if there is one; `current` is the current memory context.
module _ {P A In : Type 0} (errors : ErrorApi P) (api : MemoryApi P)
    (check_call_context : Cpp P (Option ℕ)) (agg : Class P A In) where
  open agg use {
    convertible, finalizable, serializable, combinable, layout, make, make_from, make_combined,
    update, finalize, serialize, conversion, update_value, combine_values,
  }

  -- the test at the head of the functions that need the context
  pub aggregate_context : Cpp P ℕ
  unfolding report
  aggregate_context = do
    found ← ffi_guard errors check_call_context
    elim found [ none ↦ report errors not_aggregate_context | some aggctx ↦ pure aggctx ]

  -- the object that a state points to, or a new one for null
  pub object_of : ℕ → NullableDatum → Cpp P ℕ
  unfolding construct pointer_of
  object_of ctx state =
      if state.isnull then construct errors api ctx layout make else pointer_of state

  -- aggregate_sfunc<Agg, InTs...>(state, args...)
  unfoldable pub aggregate_sfunc : Value → In → Cpp P ℕ
  unfolding aggregate_context object_of value_or_throw report
  aggregate_sfunc state args = do
    aggctx ← aggregate_context
    (if not convertible && finalizable
        then (do state0 ← object_of aggctx state.datum; update state0 args; pure state0)
        else if convertible
        then (do
          state0 ← value_or_throw (from_nullable_datum conversion state.datum)
          updated ← update_value state0 args
          pure (conversion.into_datum updated))
        else report errors not_supported)

  -- aggregate_ffunc<Agg, InTs...>(state)
  unfoldable pub aggregate_ffunc : Value → Cpp P NullableDatum
  unfolding object_of report
  aggregate_ffunc state w =
      (if finalizable
          then (do state0 ← object_of w.current_memory_context state.datum; finalize state0)
          else report errors no_final_function)
        w

  -- aggregate_serial<Agg, InTs...>(state)
  unfoldable pub aggregate_serial : Value → Cpp P ℕ
  unfolding pointer_of report
  aggregate_serial state =
      if serializable && state.oid == internal_oid
      then (do state0 ← pointer_of state.datum; serialize state0)
      else report errors no_serialize

  -- aggregate_deserial<Agg, InTs...>(ba, _)
  unfoldable pub aggregate_deserial : ℕ → Cpp P ℕ
  unfolding aggregate_context construct report
  aggregate_deserial ba =
      if serializable
      then (do aggctx ← aggregate_context; construct errors api aggctx layout (make_from ba))
      else report errors no_serialize

  -- aggregate_combine<Agg, InTs...>(state, other)
  unfoldable pub aggregate_combine : Value → Value → Cpp P ℕ
  unfolding aggregate_context object_of value_or_throw construct report
  aggregate_combine state other = do
    aggctx ← aggregate_context
    (if combinable && (not convertible && finalizable)
        then (do
          state0 ← object_of aggctx state.datum
          state1 ← object_of aggctx other.datum
          construct errors api aggctx layout (make_combined state0 state1))
        else if combinable && convertible
        then (do
          state0 ← value_or_throw (from_nullable_datum conversion state.datum)
          state1 ← value_or_throw (from_nullable_datum conversion other.datum)
          combined ← combine_values state0 state1
          pure (conversion.into_datum combined))
        else report errors not_supported)
