-- ===== src/World.antt =====
-- The process that the library runs in: the globals of a Postgres backend that the C++ code saves and restores, and the ways in which a call can leave (return, C++ exception, Postgres error, std::terminate).
use cppgres.Common.{ℕ, suc, ◌-◌, List, ◌∷◌, ◌≡◌, arith}

-- What a C++ exception or a report says.
pub data What : Type 0 where
  invalid_pointer null_datum datum_is_null pointer_gone bad_alloc out_of_range : What
  unknown_node_tag not_main_thread : What
  no_executor not_current_executor spi_error spi_error_in_plan non_atomic_required : What
  wrong_number_of_values already_blessed not_composite invalid_type invalid_tuple : What
  no_handle worker_stopped worker_not_started postmaster_died static_in_child : What
  not_bg_worker some_exception : What
  caller_expects_no_set unexpected_set_type set_expected unexpected_return_type : What
  too_few_arguments unexpected_argument_type records_differ wrong_composite not_expanded : What
  message : ℕ → What

-- exception.hpp, `class pg_exception`: the saved context, the context that holds the copy of the
-- error, and that copy.
pub record PgException : Type 0 where
  pub mcxt : ℕ
  pub error_cxt : ℕ
  pub error : ℕ

-- The three kinds of exception that `exception_guard` tells apart.
pub data Exn : Type 0 where
  pg_exception : PgException → Exn
  std_exception : What → Exn
  foreign_exception : Exn

-- `pg` is what Postgres itself keeps; the other fields are globals that the C++ code touches.
-- `frames` numbers the `sigjmp_buf`s on the C stack, `uncaught` is std::uncaught_exceptions().
pub record World (P : Type 0) : Type 0 where
  pub exception_stack : ℕ
  pub error_context_stack : ℕ
  pub current_memory_context : ℕ
  pub current_resource_owner : ℕ
  pub frames : ℕ
  pub uncaught : ℕ
  pub warnings : List ℕ
  pub pg : P

-- `raises` is a siglongjmp to `exception_stack`: it runs no destructor on its way.
pub data Outcome (P A : Type 0) : Type 0 where
  returns : A → World P → Outcome P A
  throws : Exn → World P → Outcome P A
  raises : World P → Outcome P A
  terminates : Outcome P A

abbrev pub Cpp : Type 0 → Type 0 → Type 0
Cpp P A = World P → Outcome P A

module _ {P : Type 0} where
  abbrev pub pure : {A : Type 0} → A → Cpp P A
  pure a w = returns a w

  abbrev pub after : {A B : Type 0} → (A → Cpp P B) → Outcome P A → Outcome P B
  after f (returns a w) = f a w
  after f (throws e w) = throws e w
  after f (raises w) = raises w
  after f terminates = terminates

  infixl 5 ◌>>=◌ ◌>>◌
  abbrev pub ◌>>=◌ : {A B : Type 0} → Cpp P A → (A → Cpp P B) → Cpp P B
  ◌>>=◌ m f w = after f (m w)

  abbrev pub ◌>>◌ : {B : Type 0} → Cpp P (Unit {0}) → Cpp P B → Cpp P B
  m >> k = m >>= λ _. k

  abbrev pub modify : (World P → World P) → Cpp P (Unit {0})
  modify f w = returns tt (f w)

  -- A `throw` expression.
  abbrev pub throw : {A : Type 0} → Exn → Cpp P A
  throw e w = throws e (record w { uncaught = suc w.uncaught })

  -- elog(WARNING, …)
  abbrev pub warn : ℕ → World P → World P
  warn msg w = record w { warnings = msg ∷ w.warnings }

  -- Entering a handler ends the propagation.
  abbrev pub caught : World P → World P
  caught w = record w { uncaught = w.uncaught - 1 }

  abbrev pub try_catch : {A : Type 0} → Cpp P A → (Exn → Cpp P A) → Cpp P A
  try_catch m handler w = elim (m w) [
    | returns a v ↦ returns a v
    | throws e v ↦ handler e (caught v)
    | raises v ↦ raises v
    | terminates ↦ terminates
  ]

  -- A function marked noexcept.
  abbrev pub noexcept : {A : Type 0} → Cpp P A → Cpp P A
  noexcept m w = elim (m w) [
    | returns a v ↦ returns a v
    | throws e v ↦ terminates
    | raises v ↦ raises v
    | terminates ↦ terminates
  ]

  -- A destructor at the end of a scope: it runs on a return and during unwinding, and is noexcept.
  abbrev pub at_scope_end : {A : Type 0} → Outcome P A → Cpp P (Unit {0}) → Outcome P A
  at_scope_end (returns a v) d = (noexcept d >>= λ _. pure a) v
  at_scope_end (throws e v) d = (noexcept d >>= λ _ u. throws e u) v
  at_scope_end (raises v) d = raises v
  at_scope_end terminates d = terminates

module _ {P A : Type 0} (d : Cpp P (Unit {0})) (v u : World P) (done : d v ≡ returns tt u) where
  pub at_scope_end_returns : (a : A) → at_scope_end (returns a v) d ≡ returns a u
  at_scope_end_returns a = ground arith

  pub at_scope_end_throws : (e : Exn) → at_scope_end {A = A} (throws e v) d ≡ throws e u
  at_scope_end_throws e = ground arith

-- A destructor that throws ends the process.
module _ {P A : Type 0} (d : Cpp P (Unit {0})) (v : World P) (x : Exn) (u : World P)
    (failed : d v ≡ throws x u) where
  pub at_scope_end_returns_fails : (a : A) → at_scope_end (returns a v) d ≡ terminates
  at_scope_end_returns_fails a = ground arith

  pub at_scope_end_throws_fails : (e : Exn) → at_scope_end {A = A} (throws e v) d ≡ terminates
  at_scope_end_throws_fails e = ground arith
