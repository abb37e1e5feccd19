-- ===== src/Spi/Executor.antt =====
-- `spi_executor` and `spi_nonatomic_executor` of executor.hpp: construction and destruction, with the static stack of live executors.
use cppgres.Common.{ℕ, Bool, true, Option, some, List, [], ◌∷◌, ℤ}
use cppgres.World.{
  World, Outcome, returns, throws, raises, terminates, Cpp, pure, ◌>>=◌, ◌>>◌, modify, throw,
  at_scope_end, std_exception, no_executor, non_atomic_required,
}
use cppgres.Guard.{ErrorApi, ffi_guard}
use cppgres.Spi.Arguments.{NullFlag}

-- `executors` is the static member, its top first; `server` is what Postgres keeps.
pub record Spi (P : Type 0) : Type 0 where
  pub executors : List ℕ
  pub server : P

-- The return codes of SPI that the code names.
pub record SpiCodes : Type 0 where
  pub ok_select : ℤ
  pub ok_utility : ℤ
  pub ok_insert_returning : ℤ
  pub ok_update_returning : ℤ
  pub ok_delete_returning : ℤ
  pub ok_merge_returning : ℤ

-- The functions of SPI. A query, a plan, a type and a table of tuples are numbers here.
pub record SpiApi (P : Type 0) : Type 0 where
  pub connect_ext : ℕ → Cpp (Spi P) (Unit {0})
  pub finish : Cpp (Spi P) (Unit {0})
  pub execute_with_args : ℕ → List ℕ → List ℕ → List NullFlag → Bool → ℤ → Cpp (Spi P) ℤ
  pub execute_plan : ℕ → List ℕ → List NullFlag → Bool → ℤ → Cpp (Spi P) ℤ
  pub prepare : ℕ → List ℕ → Cpp (Spi P) ℕ
  pub commit : Cpp (Spi P) (Unit {0})
  pub commit_and_chain : Cpp (Spi P) (Unit {0})
  pub rollback : Cpp (Spi P) (Unit {0})
  pub rollback_and_chain : Cpp (Spi P) (Unit {0})
  pub processed : P → ℕ
  pub tuptable : P → Option ℕ
  pub codes : SpiCodes

-- SPI_OPT_NONATOMIC
abbrev pub opt_nonatomic : ℕ
opt_nonatomic = 1

pub record Executor : Type 0 where
  pub this : ℕ
  pub before_spi : ℕ
  pub spi : ℕ

abbrev pub tail : List ℕ → List ℕ
tail [] = []
tail (x ∷ xs) = xs

module _ {P : Type 0} (errors : ErrorApi (Spi P)) (api : SpiApi P) where
  -- executors.push(this), executors.pop()
  abbrev pub push : ℕ → World (Spi P) → World (Spi P)
  push this w = record w { pg = record { executors = this ∷ w.pg.executors; server = w.pg.server } }

  abbrev pub pop : World (Spi P) → World (Spi P)
  pop w = record w { pg = record { executors = tail w.pg.executors; server = w.pg.server } }

  unfoldable pub entered : ℕ → ℕ → Cpp (Spi P) Executor
  entered this before w =
      returns (record { this = this; before_spi = before; spi = w.current_memory_context })
        (push this (record w { current_memory_context = before }))

  -- spi_executor(int flags)
  unfoldable pub construct : ℕ → ℕ → Cpp (Spi P) Executor
  unfolding entered
  construct this flags w =
      (ffi_guard errors (api.connect_ext flags) >>= λ _. entered this w.current_memory_context) w

  -- ~spi_executor()
  unfoldable pub destroy : Executor → Cpp (Spi P) (Unit {0})
  destroy e = ffi_guard errors api.finish >> modify pop

  -- A block that declares an executor.
  unfoldable pub with_executor : {A : Type 0} → ℕ → ℕ → (Executor → Cpp (Spi P) A) → Cpp (Spi P) A
  unfolding construct destroy
  with_executor this flags block =
      construct this flags >>= λ e w. at_scope_end (block e w) (destroy e)

  -- spi_nonatomic_executor(): `atomic` is current_postgres_function::atomic(); a throw in the body
  -- of the constructor destroys the base
  unfoldable pub require_nonatomic : Option Bool → Executor → Cpp (Spi P) Executor
  require_nonatomic (some true) e = throw (std_exception non_atomic_required)
  require_nonatomic _ e = pure e

  unfoldable pub destroy_base : Executor → Outcome (Spi P) Executor → Outcome (Spi P) Executor
  unfolding destroy
  destroy_base e (returns a v) = returns a v
  destroy_base e (throws x v) = at_scope_end (throws x v) (destroy e)
  destroy_base e (raises v) = raises v
  destroy_base e terminates = terminates

  unfoldable pub construct_nonatomic : ℕ → Option Bool → Cpp (Spi P) Executor
  unfolding construct require_nonatomic destroy_base
  construct_nonatomic this atomic =
      construct this opt_nonatomic >>= λ e w. destroy_base e (require_nonatomic atomic e w)

-- spi_executor::current()
current_of : {P : Type 0} → List ℕ → Cpp (Spi P) ℕ
current_of [] = throw (std_exception no_executor)
current_of (top ∷ rest) = pure top

unfoldable pub current : {P : Type 0} → Cpp (Spi P) ℕ
unfolding current_of
current w = current_of w.pg.executors w
