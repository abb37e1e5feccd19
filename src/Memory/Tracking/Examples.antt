-- ===== src/Memory/Tracking/Examples.antt =====
-- Runs of the trackers of memory.hpp: two objects that share a state, and two with a state each.
use cppgres.Common.{ℕ, ◌≡◌, ◌≢◌, refl, true, some, [], ◌∷◌, arith, Option, List}
use cppgres.Memory.Tracking.{
  Store, Step, run, dangling, use_count, constructs, copy_constructs, move_constructs, destroys,
  copy_assigns, resets,
}
use cppgres.Memory.Tracking.Safety.{vacant, run-NoDangling}
use cppgres.Memory.Tracking.Assignment.{assignment_dangles}

abbrev program : List Step
program =
    constructs 0
    ∷ copy_constructs 1 0
    ∷ destroys 0
    ∷ resets
    ∷ move_constructs 2 1
    ∷ destroys 2
    ∷ resets
    ∷ []

run-NoDangling_example : run (vacant 3) program ≢ dangling
run-NoDangling_example = run-NoDangling 3 program (tt, (tt, (tt, (tt, (tt, (tt, (tt, tt)))))))

abbrev two : Store
two = record {
  objects = some (some 0) ∷ some (some 1) ∷ [];
  counters = 0 ∷ 0 ∷ [];
  armed = true ∷ true ∷ [];
}

other_state : ◌≢◌ {A = Option ℕ} (some 1) (some 0)
other_state = λ e. cc

zero_is_not_one : ◌≢◌ {A = ℕ} 0 1
zero_is_not_one = λ e. absurd (omega (arith, e))

assignment_dangles_example : run two (copy_assigns 0 1 ∷ resets ∷ []) ≡ dangling
unfolding use_count
assignment_dangles_example =
    assignment_dangles two 0 1 0 (some 1) zero_is_not_one refl refl other_state refl refl
