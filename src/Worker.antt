-- ===== src/Worker.antt =====
-- threading.hpp: `worker`, a queue that other threads fill and the main thread works off. What stands under the mutex is one step.
pub mod Order
pub mod Drain
mod Examples
use cppgres.Common.{
  ℕ, Bool, true, false, ◌&&◌, ◌||◌, not, Option, none, some, List, [], ◌∷◌, ◌++◌, ◌≡◌,
  if◌then◌else◌,
}
use cppgres.World.{What, not_main_thread}
use cppgres.Datum.Nullable.{Result, ok, err}

-- Where the main thread is: outside of run(), before the wait, in a task, or behind the loop.
pub data Place : Type 0 where
  outside waiting behind : Place
  working : ℕ → Place

-- The members of the class with the place; `posted` and `started` record the tasks of all calls of
-- post and those that the loop has begun, and are read by no operation.
pub record Worker : Type 0 where
  pub tasks : List ℕ
  pub done : Bool
  pub terminated : Bool
  pub place : Place
  pub posted : List ℕ
  pub started : List ℕ

-- worker()
unfoldable pub construct : Worker
construct = record {
  tasks = [];
  done = false;
  terminated = false;
  place = outside;
  posted = [];
  started = [];
}

-- terminate(), which the destructor calls
unfoldable pub terminate : Worker → Worker
terminate w = if w.terminated then w else record w { done = true }

-- post(f, args...): a task is a number
unfoldable pub post : ℕ → Worker → Worker
post t w = record w { tasks = w.tasks ++ (t ∷ []); posted = w.posted ++ (t ∷ []) }

-- run(), up to its loop
unfoldable pub run : Bool → Worker → Result Worker
run is_main_thread w =
    if is_main_thread then ok (record w { place = waiting }) else err not_main_thread

is_empty : List ℕ → Bool
is_empty [] = true
is_empty (t ∷ ts) = false

take_front : List ℕ → Worker → Worker
take_front [] w = w
take_front (t ∷ ts) w = record w { tasks = ts; place = working t; started = w.started ++ (t ∷ []) }

-- the block under the lock in the loop; `none` while the condition of the wait is false
unfoldable pub next_task : Worker → Option Worker
unfolding is_empty take_front
next_task w =
    if w.done || not (is_empty w.tasks)
    then (if w.done && is_empty w.tasks
        then some (record w { place = behind })
        else some (take_front w.tasks w))
    else none

-- the end of `task()`; a packaged_task keeps what its function throws
unfoldable pub complete : Worker → Worker
complete w = record w { place = waiting }

-- `terminated = true`, and the return of run()
unfoldable pub leave : Worker → Worker
leave w = record w { terminated = true; place = outside }

-- The steps of the threads. Only the main thread is in run(), so that there is one place.
pub data Step : Worker → Worker → Type 0 where
  posts : (t : ℕ) (w : Worker) → Step w (post t w)
  terminates : (w : Worker) → Step w (terminate w)
  runs : (w v : Worker) → w.place ≡ outside → run true w ≡ ok v → Step w v
  takes : (w v : Worker) → w.place ≡ waiting → next_task w ≡ some v → Step w v
  completes : (t : ℕ) (w : Worker) → w.place ≡ working t → Step w (complete w)
  leaves : (w : Worker) → w.place ≡ behind → Step w (leave w)

-- Any number of steps.
pub data Steps : Worker → Worker → Type 0 where
  rest : (w : Worker) → Steps w w
  step : (w v u : Worker) → Step w v → Steps v u → Steps w u
