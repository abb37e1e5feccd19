-- ===== src/Spi/Operations.antt =====
-- The members of `spi_executor` and `spi_nonatomic_executor` in executor.hpp that talk to SPI.
use cppgres.Common.{
  ℕ, Bool, true, false, not, ◌&&◌, ◌||◌, Option, none, some, List, [], ◌∷◌, ℤ, pos, negsuc, ◌==◌,
  leb, if◌then◌else◌,
}
use cppgres.World.{
  returns, Cpp, ◌>>=◌, ◌>>◌, throw, std_exception, not_current_executor, spi_error,
  spi_error_in_plan,
}
use cppgres.Guard.{ErrorApi, ffi_guard}
use cppgres.Datum.Nullable.{NullableDatum}
use cppgres.Spi.Arguments.{make_datums, make_nulls}
use cppgres.Spi.Executor.{Spi, SpiApi, SpiCodes, Executor}

-- Comparisons of return codes.
abbrev pub same_code : ℤ → ℤ → Bool
same_code (pos a) (pos b) = a == b
same_code (negsuc a) (negsuc b) = a == b
same_code _ _ = false

abbrev pub is_positive : ℤ → Bool
is_positive (pos a) = not (a == 0)
is_positive (negsuc a) = false

abbrev pub is_nonnegative : ℤ → Bool
is_nonnegative (pos a) = true
is_nonnegative (negsuc a) = false

abbrev pub is_present : Option ℕ → Bool
is_present none = false
is_present (some t) = true

-- the test on `rc` in query()
unfoldable pub has_rows : ℕ → SpiCodes → ℤ → Option ℕ → Bool
has_rows version c rc tuptable =
    same_code rc c.ok_select
    || (same_code rc c.ok_insert_returning
        || (same_code rc c.ok_update_returning
            || (same_code rc c.ok_delete_returning
                || ((same_code rc c.ok_utility && is_present tuptable)
                    || (leb 17 version && same_code rc c.ok_merge_returning)))))

-- spi_executor::options
pub record Options : Type 0 where
  pub read_only : Bool
  pub count : ℤ

abbrev pub default_options : Options
default_options = record { read_only = false; count = pos 0 }

-- A query by text, with the types and values of its arguments.
pub record Query : Type 0 where
  pub text : ℕ
  pub types : List ℕ
  pub args : List NullableDatum

module _ {P : Type 0} (version : ℕ) (errors : ErrorApi (Spi P)) (api : SpiApi P) where
  abbrev pub top_is : ℕ → List ℕ → Bool
  top_is this [] = false
  top_is this (top ∷ rest) = top == this

  -- `if (executors.top() != this) throw`
  unfoldable pub check_current : Executor → Cpp (Spi P) (Unit {0})
  check_current e w =
      if top_is e.this w.pg.executors
      then returns tt w
      else throw (std_exception not_current_executor) w

  rows_or_error : ℤ → Cpp (Spi P) (Option ℕ)
  unfolding has_rows
  rows_or_error rc w =
      if has_rows version api.codes rc (api.tuptable w.pg.server)
      then returns (api.tuptable w.pg.server) w
      else throw (std_exception spi_error) w

  -- query<Ret>(query, options, args...): the table that `results` is made of
  unfoldable pub query : Executor → Query → Options → Cpp (Spi P) (Option ℕ)
  unfolding check_current rows_or_error
  query e q opts = do
    check_current e
    rc ← ffi_guard errors (
        api.execute_with_args q.text q.types (make_datums q.args) (make_nulls q.args) opts.read_only
          opts.count)
    rows_or_error rc

  -- plan(query)
  unfoldable pub plan : Executor → ℕ → List ℕ → Cpp (Spi P) ℕ
  unfolding check_current
  plan e text types = do check_current e; ffi_guard errors (api.prepare text types)

  plan_rows_or_error : ℤ → Cpp (Spi P) (Option ℕ)
  plan_rows_or_error rc w =
      if is_positive rc
      then returns (api.tuptable w.pg.server) w
      else throw (std_exception spi_error_in_plan) w

  -- query<Ret>(plan, options, args...); `plan` is what the spi_plan converts to
  unfoldable pub query_plan :
      Executor → Cpp (Spi P) ℕ → List NullableDatum → Options → Cpp (Spi P) (Option ℕ)
  unfolding check_current plan_rows_or_error
  query_plan e to_plan args opts = do
    check_current e
    p ← to_plan
    rc ←
        ffi_guard errors
          (api.execute_plan p (make_datums args) (make_nulls args) opts.read_only opts.count)
    plan_rows_or_error rc

  processed_or_error : ℤ → Cpp (Spi P) ℕ
  processed_or_error rc w =
      if is_nonnegative rc
      then returns (api.processed w.pg.server) w
      else throw (std_exception spi_error) w

  -- execute(query, options, args...)
  unfoldable pub execute : Executor → Query → Options → Cpp (Spi P) ℕ
  unfolding check_current processed_or_error
  execute e q opts = do
    check_current e
    rc ← ffi_guard errors (
        api.execute_with_args q.text q.types (make_datums q.args) (make_nulls q.args) opts.read_only
          opts.count)
    processed_or_error rc

  -- spi_nonatomic_executor::commit(chain) and rollback(chain)
  unfoldable pub commit : Executor → Bool → Cpp (Spi P) (Unit {0})
  unfolding check_current
  commit e chain = do
    check_current e
    ffi_guard errors (if chain then api.commit_and_chain else api.commit)

  unfoldable pub rollback : Executor → Bool → Cpp (Spi P) (Unit {0})
  unfolding check_current
  rollback e chain = do
    check_current e
    ffi_guard errors (if chain then api.rollback_and_chain else api.rollback)
