-- ===== src/Guard/Border.antt =====
-- guard.hpp with exception_impl.hpp: how a Postgres error becomes a C++ exception in ffi_guard, and a C++ exception a Postgres error in exception_guard.
use cppgres.Common.{ℕ, suc, ◌≡◌, refl, ◌∙◌, arith}
use cppgres.World.{
  Exn, pg_exception, std_exception, foreign_exception, World, Outcome, returns, throws, raises,
  terminates, Cpp, PgException, try_catch, caught,
}
use cppgres.Guard.{
  ErrorApi, ffi_guard, restored, exception_guard, make_pg_exception, surface, rethrow, report,
}
use cppgres.Guard.Restore.{armed}

-- What the error functions of Postgres promise about the error that is being handled.
pub record Fidelity {P : Type 0} (api : ErrorApi P) : Type 0 where
  -- the error on top of the error stack, and the content of a copied record
  pub current_error : P → ℕ
  pub content : ℕ → P → ℕ
  pub context_neutral : (c : ℕ) (p : P) → current_error (api.with_context c p) ≡ current_error p
  pub copy_faithful :
      (c : ℕ) (p : P)
      → content (api.copy_error_data c p) (api.flush_error_state p) ≡ current_error p
  pub callback_neutral : (c d : ℕ) (p : P) → content d (api.delete_after_error c p) ≡ content d p
  pub rethrow_faithful : (d : ℕ) (p : P) → current_error (api.rethrow_error d p) ≡ content d p

-- Ways out that carry no C++ exception.
abbrev pub NoThrow : {P A : Type 0} → Outcome P A → Type 0
NoThrow (returns a v) = Unit
NoThrow (throws e v) = ⊥
NoThrow (raises v) = Unit
NoThrow terminates = Unit

module _ {P : Type 0} (api : ErrorApi P) where
  open api use {
    top_context, create_context, with_context, copy_error_data, flush_error_state,
    delete_after_error, rethrow_error, report_error,
  }

  -- The context that holds the copy of an error, and the state in which it is copied.
  abbrev pub error_context_of : World P → ℕ
  error_context_of v = create_context top_context v.pg

  abbrev pub pg_with_copy : World P → P
  pg_with_copy v = with_context (error_context_of v) v.pg

  abbrev pub exception_of : World P → World P → PgException
  exception_of w v = record {
    mcxt = w.current_memory_context;
    error_cxt = error_context_of v;
    error = copy_error_data (error_context_of v) (pg_with_copy v);
  }

  -- The state that the caller of the guard sees.
  abbrev pub surfaced_world : World P → World P → World P
  surfaced_world w v = record w {
    current_memory_context = w.current_memory_context;
    current_resource_owner = v.current_resource_owner;
    uncaught = suc v.uncaught;
    warnings = v.warnings;
    pg = flush_error_state (pg_with_copy v);
  }

  pub ffi_guard_raises :
      {A : Type 0} (func : Cpp P A) (w v : World P)
      → func (armed w) ≡ raises v
      → v.exception_stack ≡ w.frames
      → ffi_guard api func w ≡ throws (pg_exception (exception_of w v)) (surfaced_world w v)
  unfolding ffi_guard surface make_pg_exception
  ffi_guard_raises func w v e h = ground arith

  guarded_outcome :
      {A : Type 0} (func : Cpp P A) (w : World P) (o : Outcome P A)
      → func w ≡ o
      → NoThrow (exception_guard api func w)
  unfolding exception_guard rethrow report
  guarded_outcome func w (returns a v) e = ground arith
  guarded_outcome func w (throws (pg_exception x) v) e = ground arith
  guarded_outcome func w (throws (std_exception x) v) e = ground arith
  guarded_outcome func w (throws foreign_exception v) e = ground arith
  guarded_outcome func w (raises v) e = ground arith
  guarded_outcome func w terminates e = ground arith

  -- Whatever the wrapped function does, exception_guard returns, raises a Postgres error or ends
  -- the process; no C++ exception leaves it.
  pub exception_guard-NoThrow :
      {A : Type 0} (func : Cpp P A) (w : World P) → NoThrow (exception_guard api func w)
  exception_guard-NoThrow func w = guarded_outcome func w (func w) refl

  abbrev rethrown : World P → World P → World P
  rethrown w v = record (caught (surfaced_world w v)) {
    pg =
        rethrow_error (exception_of w v).error
          (delete_after_error (error_context_of v) (flush_error_state (pg_with_copy v)));
  }

  -- If the code under ffi_guard raises a Postgres error at the handler that the guard set up, and
  -- the error functions of Postgres keep the content of an error record, then exception_guard
  -- around ffi_guard raises again: the error being handled is the one that was raised, the handler
  -- stack and the memory context are those of the caller, and no C++ exception is left in flight.
  pub error_round_trip :
      {A : Type 0} (law : Fidelity api) (func : Cpp P A) (w v : World P)
      → func (armed w) ≡ raises v
      → v.exception_stack ≡ w.frames
      → (u : World P) × (exception_guard api (ffi_guard api func) w ≡ raises u)
        × (law.current_error u.pg ≡ law.current_error v.pg)
        × (u.exception_stack ≡ w.exception_stack)
        × (u.current_memory_context ≡ w.current_memory_context)
        × (u.uncaught ≡ v.uncaught)
  unfolding exception_guard rethrow
  error_round_trip law func w v e h = (
    rethrown w v,
    rw (ffi_guard_raises func w v e h, exception_guard, try_catch) refl,
    law.rethrow_faithful _ _
        ∙ law.callback_neutral _ _ _
        ∙ law.copy_faithful _ _
        ∙ law.context_neutral _ v.pg,
    refl,
    refl,
    omega arith,
  )

module _ {P A : Type 0} (api : ErrorApi P) (func : Cpp P A) (w v : World P) where
  pub ffi_guard_returns :
      (a : A) → func (armed w) ≡ returns a v → ffi_guard api func w ≡ returns a (restored w v)
  unfolding ffi_guard
  ffi_guard_returns a e = ground arith

  pub ffi_guard_throws :
      (x : Exn) → func (armed w) ≡ throws x v → ffi_guard api func w ≡ throws x (restored w v)
  unfolding ffi_guard
  ffi_guard_throws x e = ground arith
