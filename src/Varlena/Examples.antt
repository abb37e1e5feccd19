-- ===== src/Varlena/Examples.antt =====
-- Values in memory at concrete places, as cases of the theorems about them.
use cppgres.Common.{arith, ◌∙◌, ◌≡◌, refl, false}
use cppgres.World.{World, returns, throws, std_exception, bad_alloc}
use cppgres.Samples.{plain_errors}
use cppgres.Guard.Restore.{armed}
use cppgres.Guard.Outcomes.{Ends}
use cppgres.Varlena.{VarlenaApi, gone, detoasted_ptr}
use cppgres.Varlena.Pointers.{
  Kept, Throws, LeavesObject, detoasted_ptr-Kept, untracked_after_failure,
}
use cppgres.Varlena.Sample.{Server, H, memory, api, a_value, start}

-- One in which the value is toasted, its copy stands at 900, and there is no memory for a state.
abbrev failing : VarlenaApi Server
failing = record api {
  make_state = λ w. throws (std_exception bad_alloc) w;
  detoast = λ source w. returns 900 w;
}

leaves_object : LeavesObject plain_errors memory api ⊥
leaves_object = record {
  memory_leaves = record {
    reflexive = λ p. refl;
    transitive = λ p q r h k. k ∙ h;
    allocs = λ ctx n w. refl;
    allocs_aligned = λ ctx n a w. refl;
    registers = λ ctx cb w. refl;
    writes = λ cb c p. refl;
  };
  makes = λ w. refl;
  detoasts = λ source w. refl;
}

detoasted_ptr-Kept_example :
    Ends
      (λ p h. (gone plain_errors memory api 20 start ≡ false) × Kept plain_errors memory api p h)
      (Throws plain_errors memory api ⊥ start)
      (detoasted_ptr plain_errors memory api start)
detoasted_ptr-Kept_example = detoasted_ptr-Kept plain_errors memory api ⊥ leaves_object start refl

abbrev failed : World H
failed = record start {
  pg = record { object = record a_value { detoasted = 900 }; server = start.pg.server };
}

-- The copy is given out in each later state, whatever was reset.
untracked_after_failure_case :
    (detoasted_ptr plain_errors memory failing start ≡ throws (std_exception bad_alloc) failed)
    × ((u : World H)
        → u.pg.object ≡ failed.pg.object
        → detoasted_ptr plain_errors memory failing u ≡ returns 900 u)
unfolding gone
untracked_after_failure_case =
    untracked_after_failure plain_errors memory failing start (armed start) failed 900
      (std_exception bad_alloc) refl refl refl (λ e. omega arith) (λ e. omega arith) refl refl refl
      refl
