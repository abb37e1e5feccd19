-- ===== src/Worker/Examples.antt =====
-- A run of the worker of threading.hpp: two tasks are posted, the first one is at work when terminate is called.
use cppgres.Common.{◌≡◌, refl, true, false, [], ◌∷◌, inr}
use cppgres.Worker.{
  Worker, construct, terminate, post, run, next_task, complete, posts, terminates, runs, takes,
  completes, Steps, rest, step, waiting, working, behind,
}
use cppgres.Worker.Order.{Ordered, reached-Ordered}
use cppgres.Worker.Drain.{Left, drains, leaves_when_done}

abbrev in_loop : Worker
in_loop = record {
  tasks = 5 ∷ 6 ∷ [];
  done = false;
  terminated = false;
  place = waiting;
  posted = 5 ∷ 6 ∷ [];
  started = [];
}

abbrev at_work : Worker
at_work = record in_loop { tasks = 6 ∷ []; place = working 5; started = 5 ∷ [] }

abbrev asked : Worker
asked = record at_work { done = true }

reached : Steps construct asked
unfolding construct post run next_task terminate
reached = step construct (post 5 construct) asked (posts 5 construct) (
    step (post 5 construct) (post 6 (post 5 construct)) asked (posts 6 (post 5 construct)) (
      step (post 6 (post 5 construct)) in_loop asked (runs _ in_loop refl refl) (
        step in_loop at_work asked (takes in_loop at_work refl refl)
          (step at_work asked asked (terminates at_work) (rest asked)))))

reached-Ordered_example : Ordered asked
reached-Ordered_example = reached-Ordered asked reached

drains_example : (v : Worker) × Steps asked v × Left (5 ∷ 6 ∷ []) asked v
drains_example = drains asked reached refl (inr (5, refl))

abbrev emptied : Worker
emptied = record asked { tasks = []; place = waiting; started = 5 ∷ 6 ∷ [] }

abbrev second : Worker
second = record emptied { place = working 6 }

emptied_reached : Steps construct emptied
unfolding construct post run next_task terminate complete
emptied_reached = step construct (post 5 construct) emptied (posts 5 construct) (
    step (post 5 construct) (post 6 (post 5 construct)) emptied (posts 6 (post 5 construct)) (
      step (post 6 (post 5 construct)) in_loop emptied (runs _ in_loop refl refl) (
        step in_loop at_work emptied (takes in_loop at_work refl refl) (
          step at_work asked emptied (terminates at_work) (
            step asked (complete asked) emptied (completes 5 asked refl) (
              step (complete asked) second emptied (takes (complete asked) second refl refl)
                (step second emptied emptied (completes 6 second refl) (rest emptied))))))))

leaves_when_done_case :
    (emptied.done ≡ true) × (emptied.tasks ≡ []) × (emptied.started ≡ emptied.posted)
unfolding next_task
leaves_when_done_case =
    leaves_when_done emptied (record emptied { place = behind }) emptied_reached refl refl
