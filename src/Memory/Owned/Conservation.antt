-- ===== src/Memory/Owned/Conservation.antt =====
-- The objects and contexts of owned_memory_context (memory.hpp), counted over a run.
use cppgres.Common.{
  ℕ, zero, suc, ◌+◌, ◌≡◌, ◌≢◌, refl, sym, ◌∙◌, true, false, Option, none, some, List, [], ◌∷◌,
  if◌then◌else◌, get_elem?, set, replicate, weight, weight-set, same, occurrences, get_elem?-set_ne,
  Option-cases, inl, inr, arith,
}
use cppgres.Memory.Owned.{
  Owned, Owners, drop_context, construct, move_construct, move_assign, adopt, destroy, take_over,
  Step, constructs, move_constructs, move_assigns, adopts, destroys, step, run,
}

-- How many objects own the context.
abbrev pub owns : ℕ → Option Owned → ℕ
owns c none = 0
owns c (some o) = if o.moved then 0 else same c o.context

abbrev pub accounted : ℕ → Owners → ℕ
accounted c s = weight (owns c) s.objects + occurrences c s.deleted + occurrences c s.released

abbrev pub created : ℕ → Step → ℕ
created c (constructs i context) = same c context
created c _ = 0

occurrences-drop :
    (c : ℕ) (o : Owned) (xs : List ℕ)
    → occurrences c (drop_context o xs) ≡ owns c (some o) + occurrences c xs
unfolding drop_context
occurrences-drop c o xs = ground arith

weight-take_over :
    (c : ℕ) (s : Owners) (i j : ℕ) (o : Owned) (old : Option Owned)
    → get_elem? s.objects j ≡ some (some o)
    → get_elem? s.objects i ≡ some old
    → i ≢ j
    → weight (owns c) (take_over s i j o).objects + owns c old ≡ weight (owns c) s.objects
unfolding take_over
weight-take_over c s i j o old hj hi ne =
    let gone : Option Owned = some (record o { moved = true }) in
    let still : get_elem? (set s.objects j gone) i ≡ some old =
      get_elem?-set_ne s.objects j i gone (λ e. ne (sym e)) ∙ hi in
    omega (
      arith,
      weight-set (owns c) s.objects j (some o) gone hj,
      weight-set (owns c) (set s.objects j gone) i old (some o) still,
    )

construct-accounted :
    (c : ℕ) (s t : Owners) (i context : ℕ)
    → construct s i context ≡ some t
    → accounted c t ≡ accounted c s + same c context
unfolding construct
construct-accounted c s t i context e = ground (
  arith,
  weight-set (owns c) s.objects i none (some (record { context = context; moved = false })),
)

destroy-accounted :
    (c : ℕ) (s t : Owners) (i : ℕ) → destroy s i ≡ some t → accounted c t ≡ accounted c s
unfolding destroy
destroy-accounted c s t i e = elim (Option-cases (get_elem? s.objects i)) [
  | inl n ↦ ground arith
  | inr (none, h) ↦ ground arith
  | inr (some o, h) ↦ ground (arith, weight-set (owns c) s.objects i (some o) none h)
]

adopt-accounted :
    (c : ℕ) (s t : Owners) (j : ℕ) → adopt s j ≡ some t → accounted c t ≡ accounted c s
unfolding adopt
adopt-accounted c s t j e = elim (Option-cases (get_elem? s.objects j)) [
  | inl n ↦ ground arith
  | inr (none, h) ↦ ground arith
  | inr (some o, h) ↦
      ground (arith, weight-set (owns c) s.objects j (some o) (some (record o { moved = true })) h)
]

-- A free place is not the place of an object.
places_differ :
    (xs : List (Option Owned)) (i j : ℕ) (o : Owned)
    → get_elem? xs i ≡ some none
    → get_elem? xs j ≡ some (some o)
    → i ≢ j
places_differ xs i j o hi hj q = cc

move_construct-accounted :
    (c : ℕ) (s t : Owners) (i j : ℕ) → move_construct s i j ≡ some t → accounted c t ≡ accounted c s
unfolding move_construct
move_construct-accounted c s t i j e = elim (Option-cases (get_elem? s.objects i)) [
  | inl n ↦ ground arith
  | inr (some x, hi) ↦ ground arith
  | inr (none, hi) ↦ elim (Option-cases (get_elem? s.objects j)) [
    | inl n ↦ ground arith
    | inr (none, hj) ↦ ground arith
    | inr (some o, hj) ↦
        ground (arith, weight-take_over c s i j o none hj hi (places_differ s.objects i j o hi hj))
  ]
]

move_assign-accounted :
    (c : ℕ) (s t : Owners) (i j : ℕ) → move_assign s i j ≡ some t → accounted c t ≡ accounted c s
unfolding move_assign
move_assign-accounted c s t i j e = elim (Option-cases (get_elem? s.objects i)) [
  | inl n ↦ ground arith
  | inr (none, hi) ↦ ground arith
  | inr (some x, hi) ↦ elim (Option-cases (get_elem? s.objects j)) [
    | inl n ↦ ground arith
    | inr (none, hj) ↦ ground arith
    | inr (some o, hj) ↦ ground (
      arith,
      occurrences-drop c x s.deleted,
      weight-take_over c (record s { deleted = drop_context x s.deleted }) i j o (some x) hj hi,
    )
  ]
]

step-accounted :
    (c : ℕ) (s t : Owners) (a : Step)
    → step s a ≡ some t
    → accounted c t ≡ accounted c s + created c a
unfolding step
step-accounted c s t (constructs i context) e = construct-accounted c s t i context e
step-accounted c s t (move_constructs i j) e = omega (arith, move_construct-accounted c s t i j e)
step-accounted c s t (move_assigns i j) e = omega (arith, move_assign-accounted c s t i j e)
step-accounted c s t (adopts j) e = omega (arith, adopt-accounted c s t j e)
step-accounted c s t (destroys i) e = omega (arith, destroy-accounted c s t i e)

abbrev pub created_by : ℕ → List Step → ℕ
created_by c = weight (created c)

run-accounted :
    (c : ℕ) (s t : Owners) (steps : List Step)
    → run s steps ≡ some t
    → accounted c t ≡ accounted c s + created_by c steps
unfolding run
run-accounted c s t [] e = ground arith
run-accounted c s t (a ∷ rest) e = elim (Option-cases (step s a)) [
  | inl n ↦ ground arith
  | inr (u, h) ↦
      omega (arith, step-accounted c s u a h, run-accounted c u t rest (rw (h, run) at e))
]

-- `n` places, none of which holds an object.
abbrev pub vacant : ℕ → Owners
vacant n = record { objects = replicate n none; deleted = []; released = [] }

vacant-owns : (c n : ℕ) → weight (owns c) (replicate n none) ≡ 0
vacant-owns c zero = refl
vacant-owns c (suc n) = omega (arith, vacant-owns c n)

-- After any sequence of constructions, moves, assignments, adoptions and destructions of owned
-- memory contexts that starts without objects and runs through, each context is owned by live
-- objects, was deleted or was handed over exactly as often in total as an object was constructed
-- on it; so none is lost, and one constructed once is never deleted twice.
pub run-conserves :
    (c n : ℕ) (steps : List Step) (t : Owners)
    → run (vacant n) steps ≡ some t
    → weight (owns c) t.objects + occurrences c t.deleted + occurrences c t.released
      ≡ created_by c steps
run-conserves c n steps t e = omega (arith, run-accounted c (vacant n) t steps e, vacant-owns c n)
