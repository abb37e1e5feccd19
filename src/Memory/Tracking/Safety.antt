-- ===== src/Memory/Tracking/Safety.antt =====
-- `tracking_memory_context` of memory.hpp: which programs leave no reset callback with a pointer to a freed state.
use mathlib.Core.Path.{subst}
use cppgres.Common.{
  ℕ, ◌+◌, ◌<◌, ◌≡◌, ◌≢◌, sym, ◌∙◌, ap, true, false, Option, none, some, List, [], ◌∷◌, ◌==◌, length,
  get_elem?, set, replicate, get_elem?-set_ne, Option-cases, Bool-cases, inl, inr, All, arith,
  ==_iff,
}
use cppgres.Memory.Tracking.{
  Store, Outcome, reached, misused, dangling, use_count, construct, copy_construct, move_construct,
  disarm, destroy, reset, Step, constructs, destroys, copy_constructs, move_constructs,
  copy_assigns, move_assigns, resets, step, run,
}
use cppgres.Memory.Tracking.Counts.{
  placed, moved, armed_cases, none_armed, nothing_dangles, set-false, apart,
}

-- Each callback that would write has a state that is held.
Safe : Store → Type 0
unfolding use_count
Safe st = (s : ℕ) → get_elem? st.armed s ≡ some true → 0 < use_count s st.objects

-- The steps of a program that assigns no tracker.
abbrev pub NoAssignment : Step → Type 0
NoAssignment (copy_assigns i j) = ⊥
NoAssignment (move_assigns i j) = ⊥
NoAssignment _ = Unit

SafeOutcome : Outcome → Type 0
unfolding Safe
SafeOutcome (reached st) = Safe st
SafeOutcome misused = Unit
SafeOutcome dangling = ⊥

construct-Safe : (st : Store) (i : ℕ) → Safe st → SafeOutcome (construct st i)
unfolding construct SafeOutcome Safe
construct-Safe st i k = elim (Option-cases (get_elem? st.objects i)) [
  | inl n ↦ rw (n, construct) tt
  | inr (some o, h) ↦ rw (h, construct) tt
  | inr (none, h) ↦
      rw (h, construct)
        (λ s g.
          let new : Option (Option ℕ) = some (some (length st.armed)) in
          elim (armed_cases st.armed s g) [
            | inl e ↦ omega (arith, k s e, placed s i st.objects none new h)
            | inr e ↦ rw e (ground (arith, placed (length st.armed) i st.objects none new h))
          ])
]

copy_construct-Safe : (st : Store) (i j : ℕ) → Safe st → SafeOutcome (copy_construct st i j)
unfolding copy_construct SafeOutcome Safe
copy_construct-Safe st i j k = elim (Option-cases (get_elem? st.objects i)) [
  | inl n ↦ rw (n, copy_construct) tt
  | inr (some o, p) ↦ rw (p, copy_construct) tt
  | inr (none, p) ↦ elim (Option-cases (get_elem? st.objects j)) [
    | inl n ↦ rw (p, n, copy_construct) tt
    | inr (none, q) ↦ rw (p, q, copy_construct) tt
    | inr (some h, q) ↦
        rw (p, q, copy_construct)
          (λ s g. omega (arith, k s g, placed s i st.objects none (some h) p))
  ]
]

move_construct-Safe : (st : Store) (i j : ℕ) → Safe st → SafeOutcome (move_construct st i j)
unfolding move_construct SafeOutcome Safe
move_construct-Safe st i j k = elim (Option-cases (get_elem? st.objects i)) [
  | inl n ↦ rw (n, move_construct) tt
  | inr (some o, p) ↦ rw (p, move_construct) tt
  | inr (none, p) ↦ elim (Option-cases (get_elem? st.objects j)) [
    | inl n ↦ rw (p, n, move_construct) tt
    | inr (none, q) ↦ rw (p, q, move_construct) tt
    | inr (some h, q) ↦
        rw (p, q, move_construct) (λ s g. omega (arith, k s g, moved s i j st.objects h p q))
  ]
]

-- The destructor takes the last holder of a state away only with its callback.
disarmed :
    (st : Store) (i s t : ℕ)
    → get_elem? st.objects i ≡ some (some (some t))
    → Safe st
    → get_elem? (disarm (some t) st) s ≡ some true
    → 0 < use_count s (set st.objects i none)
unfolding disarm Safe
disarmed st i s t h k g =
    let counts = placed s i st.objects (some (some t)) none h in
    elim (Bool-cases (use_count t st.objects == 1)) [
      | inr c ↦ elim (Bool-cases (s == t)) [
        | inl e ↦
            let q : use_count s st.objects ≡ use_count t st.objects =
              ap (λ x. use_count x st.objects) ((==_iff s t).0 e) in
            ground (arith, rw e at counts, k s (rw (c, disarm) at g), q, c)
        | inr e ↦ omega (arith, rw e at counts, k s (rw (c, disarm) at g))
      ]
      | inl c ↦ elim (Bool-cases (s == t)) [
        | inl e ↦ absurd (set-false st.armed t (rw (c, (==_iff s t).0 e, disarm) at g))
        | inr e ↦ omega (
          arith,
          rw e at counts,
          k s (
              sym (get_elem?-set_ne st.armed t s false (λ q. apart s t e q))
              ∙ (rw (c, disarm) at g)),
        )
      ]
    ]

destroy-Safe : (st : Store) (i : ℕ) → Safe st → SafeOutcome (destroy st i)
unfolding destroy SafeOutcome Safe disarm
destroy-Safe st i k = elim (Option-cases (get_elem? st.objects i)) [
  | inl n ↦ rw (n, destroy) tt
  | inr (none, h) ↦ rw (h, destroy) tt
  | inr (some none, h) ↦
      rw (h, destroy) (λ s g. omega (arith, k s g, placed s i st.objects (some none) none h))
  | inr (some (some t), h) ↦ rw (h, destroy) (λ s g. disarmed st i s t h k g)
]

reset-Safe : (st : Store) → Safe st → SafeOutcome (reset st)
unfolding reset SafeOutcome Safe
reset-Safe st k =
    rw (nothing_dangles st.objects st.armed 0 (λ s t e g. rw (zero_add e) (k s g)))
      (λ s h. absurd (none_armed _ s h))
  where
    zero_add : {s t : ℕ} → t ≡ 0 + s → t ≡ s
    zero_add e = omega (arith, e)

step-Safe : (st : Store) (a : Step) → NoAssignment a → Safe st → SafeOutcome (step st a)
unfolding step
step-Safe st (constructs i) n k = construct-Safe st i k
step-Safe st (destroys i) n k = destroy-Safe st i k
step-Safe st (copy_constructs i j) n k = copy_construct-Safe st i j k
step-Safe st (move_constructs i j) n k = move_construct-Safe st i j k
step-Safe st (copy_assigns i j) n k = absurd n
step-Safe st (move_assigns i j) n k = absurd n
step-Safe st resets n k = reset-Safe st k

run-Safe :
    (steps : List Step) (st : Store) → All NoAssignment steps → Safe st → SafeOutcome (run st steps)
unfolding run SafeOutcome
run-Safe [] st n k = k
run-Safe (a ∷ rest) st n k =
    after_step (step st a) (step-Safe st a n.0 k) (λ t. run-Safe rest t n.1)
  where
    after_step :
        (o : Outcome)
        → SafeOutcome o
        → ((t : Store) → Safe t → SafeOutcome (run t rest))
        → SafeOutcome (elim o [ reached t ↦ run t rest | misused ↦ misused | dangling ↦ dangling ])
    after_step (reached t) k f = f t k
    after_step misused k f = tt
    after_step dangling k f = k

-- `n` places without an object.
abbrev pub vacant : ℕ → Store
vacant n = record { objects = replicate n none; counters = []; armed = [] }

-- No program that constructs, copies, moves and destroys trackers of a memory context and resets
-- the context, but assigns no tracker, makes a reset callback write to a state that has been
-- freed.
pub run-NoDangling :
    (n : ℕ) (steps : List Step) → All NoAssignment steps → run (vacant n) steps ≢ dangling
unfolding SafeOutcome Safe
run-NoDangling n steps a e = subst SafeOutcome e (run-Safe steps (vacant n) a (λ s g. cc))
