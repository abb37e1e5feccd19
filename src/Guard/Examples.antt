-- ===== src/Guard/Examples.antt =====
-- Runs of the guards of guard.hpp over a Postgres whose whole state is the current error.
use cppgres.Common.{ℕ, ◌≡◌, refl, []}
use cppgres.World.{
  pg_exception, std_exception, World, returns, throws, raises, Cpp, out_of_range, throw,
}
use cppgres.Guard.{ErrorApi, ffi_guard, ffi_guard_noexcept, scope_fail, scope_exit, exception_guard}
use cppgres.Guard.Restore.{Restored, ffi_guard-Restored, Surfaced, ffi_guard-Surfaced, armed}
use cppgres.Guard.Border.{
  Fidelity, ffi_guard_raises, exception_of, surfaced_world, NoThrow, exception_guard-NoThrow,
  error_round_trip,
}
use cppgres.Guard.Scopes.{
  Settles, ffi_guard_noexcept-Settles, ExitEnds, scope_exit-ExitEnds, FailEnds, scope_fail-FailEnds,
}

abbrev toy_api : ErrorApi ℕ
toy_api = record {
  top_context = 1;
  create_context = λ parent p. 50;
  with_context = λ c p. p;
  copy_error_data = λ c p. p;
  flush_error_state = λ p. 0;
  delete_context = λ c p. p;
  delete_after_error = λ c p. p;
  rethrow_error = λ d p. d;
  report_error = λ text p. 7;
}

abbrev toy_fidelity : Fidelity toy_api
toy_fidelity = record {
  current_error = λ p. p;
  content = λ d p. d;
  context_neutral = λ c p. refl;
  copy_faithful = λ c p. refl;
  callback_neutral = λ c d p. refl;
  rethrow_faithful = λ d p. refl;
}

abbrev start : World ℕ
start = record {
  exception_stack = 1;
  error_context_stack = 9;
  current_memory_context = 4;
  current_resource_owner = 5;
  frames = 2;
  uncaught = 0;
  warnings = [];
  pg = 0;
}

-- A Postgres function that pushes an error context, switches the memory context and fails with 42.
abbrev failing : Cpp ℕ ℕ
failing w = raises (record w { error_context_stack = 10; current_memory_context = 6; pg = 42 })

abbrev failed : World ℕ
failed = record (armed start) { error_context_stack = 10; current_memory_context = 6; pg = 42 }

-- A cleanup that fails in the same way.
abbrev failing_cleanup : Cpp ℕ (Unit {0})
failing_cleanup w = raises (record w { pg = 43 })

abbrev throwing : Cpp ℕ ℕ
throwing = throw (std_exception out_of_range)

ffi_guard-Restored_example : Restored start (ffi_guard toy_api failing start)
ffi_guard-Restored_example = ffi_guard-Restored toy_api failing start

ffi_guard-Surfaced_case : Surfaced (ffi_guard toy_api failing start)
ffi_guard-Surfaced_case = ffi_guard-Surfaced toy_api failing start (refl, refl)

ffi_guard_raises_example :
    ffi_guard toy_api failing start
    ≡ throws
        (pg_exception (exception_of toy_api start failed))
        (surfaced_world toy_api start failed)
ffi_guard_raises_example = ffi_guard_raises toy_api failing start failed refl refl

exception_guard-NoThrow_example : NoThrow (exception_guard toy_api throwing start)
exception_guard-NoThrow_example = exception_guard-NoThrow toy_api throwing start

error_round_trip_example :
    (u : World ℕ) × (exception_guard toy_api (ffi_guard toy_api failing) start ≡ raises u)
    × (u.pg ≡ 42)
    × (u.exception_stack ≡ 1)
    × (u.current_memory_context ≡ 4)
    × (u.uncaught ≡ 0)
error_round_trip_example = error_round_trip toy_api toy_fidelity failing start failed refl refl

ffi_guard_noexcept-Settles_case :
    (u : World ℕ) × (ffi_guard_noexcept toy_api failing_cleanup 3 start ≡ returns tt u)
    × Settles 3 start (failing_cleanup (armed start)) u
ffi_guard_noexcept-Settles_case = ffi_guard_noexcept-Settles toy_api failing_cleanup 3 start refl

scope_exit-ExitEnds_case :
    ExitEnds failing_cleanup 3
      (throwing start)
      (scope_exit toy_api failing_cleanup 3 throwing start)
scope_exit-ExitEnds_case = scope_exit-ExitEnds toy_api failing_cleanup 3 throwing start (λ v. refl)

scope_fail-FailEnds_example :
    FailEnds failing_cleanup 3
      (throwing start)
      (scope_fail toy_api failing_cleanup 3 throwing start)
scope_fail-FailEnds_example =
    scope_fail-FailEnds toy_api failing_cleanup 3 throwing start refl (λ v. refl)
