-- ===== src/Worker/Drain.antt =====
-- `worker` of threading.hpp: how the loop of run() ends.
use mathlib.Core.List.{append-nil, append_assoc}
use cppgres.Common.{ℕ, ◌≡◌, refl, ◌∙◌, ap, sym, true, some, List, [], ◌∷◌, ◌++◌, ◌⊎◌, inl, inr}
use cppgres.Worker.{
  Worker, outside, waiting, behind, working, construct, next_task, is_empty, take_front, complete,
  leave, takes, completes, leaves, Steps, rest, step,
}
use cppgres.Worker.Order.{started_tasks, Next, breaks, takes_front, next_task-Next}

-- A worker leaves its loop only when terminate was called and the queue is empty, and every task
-- posted until then has been started.
pub leaves_when_done :
    (w v : Worker)
    → Steps construct w
    → next_task w ≡ some v
    → v.place ≡ behind
    → (w.done ≡ true) × (w.tasks ≡ []) × (v.started ≡ w.posted)
unfolding construct
leaves_when_done w v ss e b = read (next_task-Next w v e)
  where
    read : Next w v → (w.done ≡ true) × (w.tasks ≡ []) × (v.started ≡ w.posted)
    read (breaks d t q) = (
      d,
      t,
      ap (λ u. u.started) q
          ∙ sym (append-nil w.started)
          ∙ ap (λ ts. w.started ++ ts) (sym t)
          ∙ started_tasks construct w ss refl,
    )
    read (takes_front t ts h q) = absurd (not_behind (sym (ap (λ u. u.place) q) ∙ b))
      where
        not_behind : working t ≡ behind → ⊥
        not_behind x = cc

next_breaks :
    (w : Worker) → w.done ≡ true → w.tasks ≡ [] → next_task w ≡ some (record w { place = behind })
unfolding next_task is_empty
next_breaks w d t = simp (d, t)

next_takes :
    (w : Worker) (t : ℕ) (ts : List ℕ)
    → w.done ≡ true
    → w.tasks ≡ t ∷ ts
    → next_task w
      ≡ some (record w { tasks = ts; place = working t; started = w.started ++ (t ∷ []) })
unfolding next_task is_empty take_front
next_takes w t ts d h = simp (d, h)

-- The end of run(): the main thread is out of it, and has started the given tasks.
abbrev pub Left : List ℕ → Worker → Worker → Type 0
Left started w v =
    (v.place ≡ outside) × (v.terminated ≡ true) × (v.started ≡ started) × (v.posted ≡ w.posted)

drained :
    (ts : List ℕ) (w : Worker)
    → w.done ≡ true
    → w.place ≡ waiting
    → w.tasks ≡ ts
    → (v : Worker) × Steps w v × Left (w.started ++ ts) w v
unfolding leave complete
drained [] w d p t =
    let u = record w { place = behind } in
    (
      leave u,
      step w u (leave u) (takes w u p (next_breaks w d t))
          (step u (leave u) (leave u) (leaves u refl) (rest (leave u))),
      (refl, refl, sym (append-nil w.started), refl),
    )
drained (x ∷ ts) w d p t =
    let u = record w { tasks = ts; place = working x; started = w.started ++ (x ∷ []) } in
    let (v, ss, (o, e, s, q)) = drained ts (complete u) d refl refl in
    (
      v,
      step w u v (takes w u p (next_takes w x ts d t))
          (step u (complete u) v (completes x u refl) ss),
      (o, e, s ∙ append_assoc w.started (x ∷ []) ts, q),
    )

-- From each state that a worker can reach in which terminate was called and the main thread is in
-- its loop, waiting or in a task, there is a continuation without further posts that brings it out
-- of run() with all posted tasks started in the order of their posts, and the worker marked as
-- terminated.
pub drains :
    (w : Worker)
    → Steps construct w
    → w.done ≡ true
    → (w.place ≡ waiting) ⊎ ((t : ℕ) × (w.place ≡ working t))
    → (v : Worker) × Steps w v × Left w.posted w v
unfolding construct complete
drains w ss d (inl p) =
    let (v, ts, (o, e, s, q)) = drained w.tasks w d p refl in
    (v, ts, (o, e, s ∙ started_tasks construct w ss refl, q))
drains w ss d (inr (t, p)) =
    let (v, ts, (o, e, s, q)) = drained w.tasks (complete w) d refl refl in
    (
      v,
      step w (complete w) v (completes t w p) ts,
      (o, e, s ∙ started_tasks construct w ss refl, q),
    )
