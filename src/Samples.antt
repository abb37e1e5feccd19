-- ===== src/Samples.antt =====
-- Concrete values for the tests: a backend, and the error functions of a Postgres that keeps nothing of an error.
use cppgres.Common.{[]}
use cppgres.World.{World}
use cppgres.Guard.{ErrorApi}

abbrev pub backend : {P : Type 0} → P → World P
backend p = record {
  exception_stack = 1;
  error_context_stack = 9;
  current_memory_context = 4;
  current_resource_owner = 5;
  frames = 2;
  uncaught = 0;
  warnings = [];
  pg = p;
}

abbrev pub plain_errors : {P : Type 0} → ErrorApi P
plain_errors = record {
  top_context = 1;
  create_context = λ parent p. 50;
  with_context = λ c p. p;
  copy_error_data = λ c p. 60;
  flush_error_state = λ p. p;
  delete_context = λ c p. p;
  delete_after_error = λ c p. p;
  rethrow_error = λ d p. p;
  report_error = λ text p. p;
}
