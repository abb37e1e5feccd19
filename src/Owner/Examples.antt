-- ===== src/Owner/Examples.antt =====
-- A run of the objects of resource_owner.hpp: one owner is moved over another and then released.
use cppgres.Common.{ℕ, ◌+◌, ◌==◌, ◌≡◌, refl, Bool, true, not, none, some, List, [], ◌∷◌, weight}
use cppgres.Owner.{Holders, Step, constructs, move_assigns, releases, destroys, run, owner_freed}
use cppgres.Owner.Freed.{holds, settled, created_by, vacant, handles_settled}

-- Deleting handle 8 fails.
abbrev frees : ℕ → Bool
frees h = owner_freed (λ _. true) (λ k. not (k == 8)) h

abbrev life : List Step
life =
    constructs 0 7 ∷ constructs 1 8 ∷ move_assigns 1 0 ∷ destroys 0 ∷ releases 1 ∷ destroys 1 ∷ []

abbrev end : Holders
end = record { objects = none ∷ none ∷ []; freed = []; warned = 8 ∷ []; handed_out = 7 ∷ [] }

life_runs : run frees (vacant 2) life ≡ some end
unfolding run owner_freed
life_runs = refl

handles_settled_example : weight (holds 8) end.objects + settled 8 end ≡ created_by 8 life
handles_settled_example = handles_settled frees 8 2 life end life_runs
