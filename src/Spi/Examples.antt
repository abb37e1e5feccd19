-- ===== src/Spi/Examples.antt =====
-- The executors, plans and results of executor.hpp at concrete values.
use cppgres.Common.{ℕ, ◌≡◌, ◌≢◌, refl, true, false, none, some, [], ◌∷◌, pos, if◌then◌else◌, arith}
use cppgres.World.{
  World, throws, Cpp, pure, terminates, std_exception, not_current_executor, invalid_type,
}
use cppgres.Samples.{backend, plain_errors}
use cppgres.Datum.Nullable.{Result, ok, err, NullableDatum}
use cppgres.Spi.Arguments.{make_datums, make_nulls, read_arguments, normal_all, arguments_faithful}
use cppgres.Spi.Executor.{Spi, SpiApi, SpiCodes, Executor, with_executor, construct_nonatomic}
use cppgres.Spi.Plan
use cppgres.Spi.Plan.{PlanApi, SpiPlan, to_plan, to_plan_safe, destroy_after_reset}
use cppgres.Spi.Rows.{TupleTable, scalar, begin, get, collect}
use cppgres.Spi.Stack.{
  StackLaws, KeepsStack, with_executor-KeepsStack, construct_nonatomic-Refused, Refused,
}
use cppgres.Spi.Current.{commits, perform, perform_not_current}
use cppgres.Spi.Iteration.{get-Reads, Reads, collect-begin, decode_rows, fresh-Coherent}

abbrev done : Cpp (Spi (Unit {0})) (Unit {0})
done = pure tt

abbrev codes : SpiCodes
codes = record {
  ok_select = pos 5;
  ok_utility = pos 4;
  ok_insert_returning = pos 11;
  ok_update_returning = pos 13;
  ok_delete_returning = pos 12;
  ok_merge_returning = pos 18;
}

-- An SPI that always succeeds.
abbrev calm : SpiApi (Unit {0})
calm = record {
  connect_ext = λ flags. done;
  finish = done;
  execute_with_args = λ text types ds ns r c. pure (pos 5);
  execute_plan = λ p ds ns r c. pure (pos 5);
  prepare = λ text types. pure 7;
  commit = done;
  commit_and_chain = done;
  rollback = done;
  rollback_and_chain = done;
  processed = λ s. 0;
  tuptable = λ s. none;
  codes = codes;
}

calm-StackLaws : StackLaws plain_errors calm
calm-StackLaws = record {
  connects = λ flags w. refl;
  finishes = λ w. refl;
  context_neutral = λ c p. refl;
  flush_neutral = λ p. refl;
}

abbrev start : World (Spi (Unit {0}))
start = backend (record { executors = 3 ∷ []; server = tt })

with_executor-KeepsStack_example :
    KeepsStack start (with_executor plain_errors calm 8 0 (λ e. pure e.this) start)
with_executor-KeepsStack_example =
    with_executor-KeepsStack plain_errors calm calm-StackLaws 8 0 (λ e. pure e.this) start
      (λ e v. refl)

construct_nonatomic-Refused_case :
    Refused plain_errors calm calm-StackLaws start
      (construct_nonatomic plain_errors calm 8 (some true) start)
construct_nonatomic-Refused_case =
    construct_nonatomic-Refused plain_errors calm calm-StackLaws 8 start

abbrev outer : Executor
outer = record { this = 2; before_spi = 4; spi = 6 }

three_is_not_two : ◌≢◌ {A = ℕ} 3 2
three_is_not_two = λ e. absurd (omega arith)

perform_not_current_example :
    perform 17 plain_errors calm outer (commits true) start
    ≡ throws (std_exception not_current_executor) (record start { uncaught = 1 })
perform_not_current_example =
    perform_not_current 17 plain_errors calm outer (commits true) start 3 [] refl three_is_not_two

abbrev five : NullableDatum
five = record { value = 5; isnull = false }

abbrev missing : NullableDatum
missing = record { value = 9; isnull = true }

arguments_faithful_case :
    read_arguments (make_datums (five ∷ missing ∷ [])) (make_nulls (five ∷ missing ∷ []))
    ≡ normal_all (five ∷ missing ∷ [])
arguments_faithful_case = arguments_faithful (five ∷ missing ∷ [])

abbrev plan_api : PlanApi ℕ
plan_api = record { keepplan = λ p. pure tt; freeplan = λ p. pure tt }

abbrev resets_seen : ℕ → World ℕ
resets_seen n = backend n

abbrev kept_plan : SpiPlan
kept_plan = record { kept = true; plan = 12; tracked = true }

destroy_after_reset_case :
    Plan.destroy plain_errors plan_api (λ p. p) kept_plan (resets_seen 1) ≡ terminates
destroy_after_reset_case =
    destroy_after_reset plain_errors plan_api (λ p. p) kept_plan (resets_seen 1) refl refl
      (omega arith)

-- A conversion that takes the value, and refuses a null.
abbrev convert : ℕ → NullableDatum → ℕ → Result ℕ
convert t d o = if d.isnull then err invalid_type else ok d.value

abbrev people : TupleTable
people = record { types = 23 ∷ []; vals = (five ∷ []) ∷ (missing ∷ []) ∷ [] }

get-Reads_case :
    Reads convert
      (scalar 23)
      people
      (begin convert (scalar 23) people)
      (five ∷ [])
      (get convert (scalar 23) people (begin convert (scalar 23) people) 0)
unfolding begin
get-Reads_case =
    get-Reads convert (scalar 23) people (begin convert (scalar 23) people) 0 (five ∷ [])
      (fresh-Coherent convert (scalar 23) people people.vals) refl

collect-begin_example :
    collect convert (scalar 23) people 3 (begin convert (scalar 23) people)
    ≡ some (decode_rows convert (scalar 23) people people.vals)
collect-begin_example = collect-begin convert (scalar 23) people (omega arith)
