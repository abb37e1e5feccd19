-- ===== src/Guard.antt =====
-- guard.hpp, exception.hpp, exception_impl.hpp and `report` of error.hpp: the two borders between Postgres errors (longjmp) and C++ exceptions.
pub mod Restore
pub mod Border
pub mod Scopes
pub mod Outcomes
mod Examples
use cppgres.Common.{ℕ, suc, ltb, ◌==◌, if◌then◌else◌}
use cppgres.World.{
  What, PgException, Exn, pg_exception, std_exception, foreign_exception, World, Outcome, returns,
  throws, raises, terminates, Cpp, ◌>>=◌, modify, throw, warn, try_catch, noexcept, at_scope_end,
  some_exception,
}

-- What the guards call in Postgres, on the part of the state that Postgres keeps. None of these
-- fails: running out of memory while an error is being copied is outside the model.
pub record ErrorApi (P : Type 0) : Type 0 where
  -- TopMemoryContext, and AllocSetContextCreateInternal below a parent
  pub top_context : ℕ
  pub create_context : ℕ → P → ℕ
  pub with_context : ℕ → P → P
  -- CopyErrorData into a context, and FlushErrorState
  pub copy_error_data : ℕ → P → ℕ
  pub flush_error_state : P → P
  -- MemoryContextDelete
  pub delete_context : ℕ → P → P
  -- a callback on ErrorContext that deletes a context
  pub delete_after_error : ℕ → P → P
  -- the effect of ReThrowError, and of errstart/errmsg/errfinish, on the error stack
  pub rethrow_error : ℕ → P → P
  pub report_error : What → P → P

-- What the `defer` of ffi_guard puts back; `frames` is the C stack, which the return unwinds.
abbrev pub restored : {P : Type 0} → World P → World P → World P
restored w v = record v {
  exception_stack = w.exception_stack;
  error_context_stack = w.error_context_stack;
  frames = w.frames;
}

module _ {P : Type 0} (api : ErrorApi P) where
  open api use {
    top_context, create_context, with_context, copy_error_data, flush_error_state, delete_context,
    delete_after_error, rethrow_error, report_error,
  }

  -- pg_exception::pg_exception(mcxt)
  unfoldable pub make_pg_exception : ℕ → Cpp P PgException
  make_pg_exception mcxt w =
      let error_cxt = create_context top_context w.pg in
      let p = with_context error_cxt w.pg in
      returns (record { mcxt = mcxt; error_cxt = error_cxt; error = copy_error_data error_cxt p })
        (record w { current_memory_context = mcxt; pg = flush_error_state p })

  -- pg_exception::~pg_exception()
  unfoldable pub destroy_pg_exception : PgException → World P → World P
  destroy_pg_exception e w = record w { pg = delete_context e.error_cxt w.pg }

  -- pg_exception::rethrow()
  unfoldable pub rethrow : {A : Type 0} → PgException → Cpp P A
  rethrow e w =
      raises (record w { pg = rethrow_error e.error (delete_after_error e.error_cxt w.pg) })

  -- report(ERROR, …)
  unfoldable pub report : {A : Type 0} → What → Cpp P A
  report text w = raises (record w { pg = report_error text w.pg })

  -- the `defer` of ffi_guard::operator(), which runs on every way out
  on_exit : {A : Type 0} → World P → Outcome P A → Outcome P A
  on_exit w (returns a v) = returns a (restored w v)
  on_exit w (throws e v) = throws e (restored w v)
  on_exit w (raises v) = raises v
  on_exit w terminates = terminates

  -- `throw pg_exception(mcxt)`
  surface : {A : Type 0} → World P → Cpp P A
  unfolding make_pg_exception
  surface w = make_pg_exception w.current_memory_context >>= λ e. throw (pg_exception e)

  -- the two ways out of `sigsetjmp`: a jump reaches the buffer that is on the exception stack
  landed : {A : Type 0} → World P → Outcome P A → Outcome P A
  unfolding surface
  landed w (returns a v) = returns a v
  landed w (throws e v) = throws e v
  landed w (raises v) = if v.exception_stack == w.frames then surface w v else raises v
  landed w terminates = terminates

  -- ffi_guard::operator()
  unfoldable pub ffi_guard : {A : Type 0} → Cpp P A → Cpp P A
  unfolding on_exit landed
  ffi_guard func w =
      on_exit w (landed w (func (record w { exception_stack = w.frames; frames = suc w.frames })))

  -- the end of a `catch` block destroys the exception
  discard : Exn → World P → World P
  unfolding destroy_pg_exception
  discard (pg_exception e) w = destroy_pg_exception e w
  discard (std_exception e) w = w
  discard foreign_exception w = w

  -- ffi_guard_noexcept
  unfoldable pub ffi_guard_noexcept : Cpp P (Unit {0}) → ℕ → Cpp P (Unit {0})
  unfolding ffi_guard discard
  ffi_guard_noexcept func warning_message =
      noexcept (try_catch (ffi_guard func) (λ e. modify (λ w. discard e (warn warning_message w))))

  -- scope_fail: the destructor compares the exceptions in flight with those at construction; the
  -- `scope` is what follows the guard in its block
  unfoldable pub scope_fail : {A : Type 0} → Cpp P (Unit {0}) → ℕ → Cpp P A → Cpp P A
  unfolding ffi_guard_noexcept
  scope_fail func warning_message scope w = at_scope_end (scope w) (λ v.
      if ltb w.uncaught v.uncaught then ffi_guard_noexcept func warning_message v else returns tt v)

  -- scope_exit
  unfoldable pub scope_exit : {A : Type 0} → Cpp P (Unit {0}) → ℕ → Cpp P A → Cpp P A
  unfolding ffi_guard_noexcept
  scope_exit func warning_message scope w =
      at_scope_end (scope w) (ffi_guard_noexcept func warning_message)

  -- the handlers of exception_guard::operator()
  report_exception : {A : Type 0} → Exn → Cpp P A
  unfolding rethrow report
  report_exception (pg_exception e) = rethrow e
  report_exception (std_exception e) = report e
  report_exception foreign_exception = report some_exception

  -- exception_guard::operator()
  unfoldable pub exception_guard : {A : Type 0} → Cpp P A → Cpp P A
  unfolding report_exception
  exception_guard func = try_catch func report_exception
