-- ===== src/Spi/Current.antt =====
-- executor.hpp: the operations of an executor that is not the innermost one.
use cppgres.Common.{ℕ, suc, ◌≡◌, ◌≢◌, Bool, List, ◌∷◌, ==-eq_false}
use cppgres.World.{World, throws, Cpp, pure, ◌>>=◌, std_exception, not_current_executor}
use cppgres.Guard.{ErrorApi}
use cppgres.Datum.Nullable.{NullableDatum}
use cppgres.Spi.Executor.{Spi, SpiApi, Executor}
use cppgres.Spi.Operations.{Query, Options, query, plan, query_plan, execute, commit, rollback}

-- The members that a program calls on an executor.
pub data Operation (P : Type 0) : Type 0 where
  queries executes : Query → Options → Operation P
  plans : ℕ → List ℕ → Operation P
  queries_plan : Cpp (Spi P) ℕ → List NullableDatum → Options → Operation P
  commits rollbacks : Bool → Operation P

module _ {P : Type 0} (version : ℕ) (errors : ErrorApi (Spi P)) (api : SpiApi P) where
  abbrev ignore : {A : Type 0} → Cpp (Spi P) A → Cpp (Spi P) (Unit {0})
  ignore m = m >>= λ _. pure tt

  unfoldable pub perform : Executor → Operation P → Cpp (Spi P) (Unit {0})
  unfolding query plan query_plan execute commit rollback
  perform e (queries q o) = ignore (query version errors api e q o)
  perform e (executes q o) = ignore (execute version errors api e q o)
  perform e (plans text types) = ignore (plan version errors api e text types)
  perform e (queries_plan p args o) = ignore (query_plan version errors api e p args o)
  perform e (commits chain) = commit version errors api e chain
  perform e (rollbacks chain) = rollback version errors api e chain

  -- While another executor is the innermost one, an executor refuses each of its operations
  -- (query, execute, plan, query of a plan, commit, rollback) with the same exception and leaves
  -- the state of Postgres as it is.
  pub perform_not_current :
      (e : Executor) (op : Operation P) (w : World (Spi P)) (other : ℕ) (rest : List ℕ)
      → w.pg.executors ≡ other ∷ rest
      → other ≢ e.this
      → perform e op w
        ≡ throws (std_exception not_current_executor) (record w { uncaught = suc w.uncaught })
  unfolding perform
  perform_not_current e (queries q o) w other rest s ne = simp (s, ==-eq_false other e.this ne)
  perform_not_current e (executes q o) w other rest s ne = simp (s, ==-eq_false other e.this ne)
  perform_not_current e (plans text types) w other rest s ne = simp (s, ==-eq_false other e.this ne)
  perform_not_current e (queries_plan p args o) w other rest s ne =
      simp (s, ==-eq_false other e.this ne)
  perform_not_current e (commits chain) w other rest s ne = simp (s, ==-eq_false other e.this ne)
  perform_not_current e (rollbacks chain) w other rest s ne = simp (s, ==-eq_false other e.this ne)
