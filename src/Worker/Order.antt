-- ===== src/Worker/Order.antt =====
-- `worker` of threading.hpp: the order in which posted tasks are started, over any interleaving.
use mathlib.Core.List.{append_assoc}
use mathlib.Core.Path.{subst}
use cppgres.Common.{
  ℕ, ◌≡◌, refl, ◌∙◌, ap, sym, Bool, true, false, none, some, List, [], ◌∷◌, ◌++◌, arith,
  if◌then◌else◌, ◌&&◌, ◌||◌, not,
}
use cppgres.Datum.Nullable.{ok}
use cppgres.Worker.{
  Worker, behind, working, construct, terminate, post, run, next_task, is_empty, take_front,
  complete, leave, Step, posts, terminates, runs, takes, completes, leaves, Steps, rest, step,
}

-- The tasks that were started and those in the queue are the tasks that were posted, in order.
abbrev pub Ordered : Worker → Type 0
Ordered w = w.started ++ w.tasks ≡ w.posted

some_inj : {a b : Worker} → some a ≡ some b → a ≡ b
some_inj e = cc

-- What the block under the lock does: it leaves the loop, or takes the front of the queue.
pub data Next (w v : Worker) : Type 0 where
  breaks : w.done ≡ true → w.tasks ≡ [] → v ≡ record w { place = behind } → Next w v
  takes_front :
      (t : ℕ) (ts : List ℕ)
      → w.tasks ≡ t ∷ ts
      → v ≡ record w { tasks = ts; place = working t; started = w.started ++ (t ∷ []) }
      → Next w v

pub next_task-Next : (w v : Worker) → next_task w ≡ some v → Next w v
unfolding next_task is_empty take_front
next_task-Next w v e = read w.tasks w.done refl refl e
  where
    read :
        (ts : List ℕ) (d : Bool)
        → w.tasks ≡ ts
        → w.done ≡ d
        → (if d || not (is_empty ts)
            then (if d && is_empty ts
                then some (record w { place = behind })
                else some (take_front ts w))
            else none)
          ≡ some v
        → Next w v
    read [] true t d e = breaks d t (sym (some_inj e))
    read [] false t d e = cc
    read (x ∷ ts) true t d e = takes_front x ts t (sym (some_inj e))
    read (x ∷ ts) false t d e = takes_front x ts t (sym (some_inj e))

step-Ordered : (w v : Worker) → Step w v → Ordered w → Ordered v
unfolding post terminate run complete leave
step-Ordered w _ (posts t _) o =
    sym (append_assoc w.started w.tasks (t ∷ [])) ∙ ap (λ ts. ts ++ (t ∷ [])) o
step-Ordered w _ (terminates _) o = ground (arith, o)
step-Ordered w v (runs _ _ p e) o = subst Ordered (ok_inj e) o
  where
    ok_inj : {a b : Worker} → ok a ≡ ok b → a ≡ b
    ok_inj e = cc
step-Ordered w v (takes _ _ p e) o = next_ordered (next_task-Next w v e)
  where
    next_ordered : Next w v → Ordered v
    next_ordered (breaks d t q) = subst Ordered (sym q) o
    next_ordered (takes_front x ts t q) =
        subst Ordered (sym q)
          (append_assoc w.started (x ∷ []) ts ∙ ap (λ l. w.started ++ l) (sym t) ∙ o)
step-Ordered w _ (completes t _ p) o = o
step-Ordered w _ (leaves _ p) o = o

pub started_tasks : (w v : Worker) → Steps w v → Ordered w → Ordered v
started_tasks w _ (rest _) o = o
started_tasks w v (step _ u _ s ss) o = started_tasks u v ss (step-Ordered w u s o)

-- In each state that a worker reaches by any interleaving of posts, terminations and steps of its
-- loop, the started tasks followed by the queued ones are the posted tasks in their order; so no
-- task is lost, started twice or overtaken.
pub reached-Ordered : (w : Worker) → Steps construct w → Ordered w
unfolding construct
reached-Ordered w ss = started_tasks construct w ss refl
