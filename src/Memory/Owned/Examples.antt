-- ===== src/Memory/Owned/Examples.antt =====
-- A run of the objects of memory.hpp: two contexts, one moved over the other, one adopted.
use cppgres.Common.{◌+◌, ◌≡◌, refl, none, some, List, [], ◌∷◌, weight, occurrences}
use cppgres.Memory.Owned.{Owners, Step, constructs, move_assigns, adopts, destroys, run}
use cppgres.Memory.Owned.Conservation.{owns, created_by, vacant, run-conserves}

-- Context 7 is moved over context 8, which deletes 8; then 7 is adopted.
abbrev life : List Step
life = constructs 0 7 ∷ constructs 1 8 ∷ move_assigns 1 0 ∷ destroys 0 ∷ adopts 1 ∷ destroys 1 ∷ []

abbrev end : Owners
end = record { objects = none ∷ none ∷ []; deleted = 8 ∷ []; released = 7 ∷ [] }

life_runs : run (vacant 2) life ≡ some end
unfolding run
life_runs = refl

run-conserves_example :
    weight (owns 8) end.objects + occurrences 8 end.deleted + occurrences 8 end.released
    ≡ created_by 8 life
run-conserves_example = run-conserves 8 2 life end life_runs
