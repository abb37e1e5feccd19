-- ===== src/Owner/Freed.antt =====
-- The objects and handles of resource_owner.hpp, counted over a run.
use cppgres.Common.{
  ℕ, zero, suc, ◌+◌, ◌≡◌, ◌≢◌, refl, sym, ◌∙◌, Bool, Option, none, some, List, [], ◌∷◌, get_elem?,
  set, replicate, weight, weight-set, same, occurrences, get_elem?-set_ne, Option-cases, inl, inr,
  arith, ap,
}
use cppgres.Owner.{
  Holders, dispose, construct, move_construct, move_assign, release, destroy, take_over, Step,
  constructs, move_constructs, move_assigns, releases, destroys, step, run,
}

abbrev pub holds : ℕ → Option (Option ℕ) → ℕ
holds c none = 0
holds c (some none) = 0
holds c (some (some h)) = same c h

-- The handles that no object holds any more.
abbrev pub settled : ℕ → Holders → ℕ
settled c s = occurrences c s.freed + occurrences c s.warned + occurrences c s.handed_out

abbrev pub accounted : ℕ → Holders → ℕ
accounted c s = weight (holds c) s.objects + settled c s

abbrev pub created : ℕ → Step → ℕ
created c (constructs i h) = same c h
created c _ = 0

abbrev pub created_by : ℕ → List Step → ℕ
created_by c = weight (created c)

abbrev pub vacant : ℕ → Holders
vacant n = record { objects = replicate n none; freed = []; warned = []; handed_out = [] }

module _ (frees : ℕ → Bool) (c : ℕ) where
  dispose-settled :
      (h : Option ℕ) (s : Holders) → settled c (dispose frees h s) ≡ settled c s + holds c (some h)
  unfolding dispose
  dispose-settled none s = omega arith
  dispose-settled (some h) s = ground arith

  dispose-objects : (h : Option ℕ) (s : Holders) → (dispose frees h s).objects ≡ s.objects
  unfolding dispose
  dispose-objects none s = refl
  dispose-objects (some h) s = ground arith

  weight-take_over :
      (s : Holders) (i j : ℕ) (h : Option ℕ) (old : Option (Option ℕ))
      → get_elem? s.objects j ≡ some (some h)
      → get_elem? s.objects i ≡ some old
      → i ≢ j
      → weight (holds c) (take_over frees s i j h).objects + holds c old
        ≡ weight (holds c) s.objects
  unfolding take_over
  weight-take_over s i j h old hj hi ne =
      let gone : Option (Option ℕ) = some none in
      let still : get_elem? (set s.objects j gone) i ≡ some old =
        get_elem?-set_ne s.objects j i gone (λ e. ne (sym e)) ∙ hi in
      omega (
        arith,
        weight-set (holds c) s.objects j (some h) gone hj,
        weight-set (holds c) (set s.objects j gone) i old (some h) still,
      )

  construct-accounted :
      (s t : Holders) (i h : ℕ)
      → construct frees s i h ≡ some t
      → accounted c t ≡ accounted c s + same c h
  unfolding construct
  construct-accounted s t i h e =
      ground (arith, weight-set (holds c) s.objects i none (some (some h)))

  release-accounted :
      (s t : Holders) (i : ℕ) → release frees s i ≡ some t → accounted c t ≡ accounted c s
  unfolding release
  release-accounted s t i e = elim (Option-cases (get_elem? s.objects i)) [
    | inl n ↦ ground arith
    | inr (none, q) ↦ ground arith
    | inr (some h, q) ↦ ground (arith, weight-set (holds c) s.objects i (some h) (some none) q)
  ]

  destroy-accounted :
      (s t : Holders) (i : ℕ) → destroy frees s i ≡ some t → accounted c t ≡ accounted c s
  unfolding destroy
  destroy-accounted s t i e = elim (Option-cases (get_elem? s.objects i)) [
    | inl n ↦ ground arith
    | inr (none, q) ↦ ground arith
    | inr (some h, q) ↦ ground (arith, weight-set (holds c) s.objects i (some h) none q)
  ]

  places_differ :
      (xs : List (Option (Option ℕ))) (i j : ℕ) (h : Option ℕ)
      → get_elem? xs i ≡ some none
      → get_elem? xs j ≡ some (some h)
      → i ≢ j
  places_differ xs i j h hi hj q = cc

  move_construct-accounted :
      (s t : Holders) (i j : ℕ)
      → move_construct frees s i j ≡ some t
      → accounted c t ≡ accounted c s
  unfolding move_construct
  move_construct-accounted s t i j e = elim (Option-cases (get_elem? s.objects i)) [
    | inl n ↦ ground arith
    | inr (some x, hi) ↦ ground arith
    | inr (none, hi) ↦ elim (Option-cases (get_elem? s.objects j)) [
      | inl n ↦ ground arith
      | inr (none, hj) ↦ ground arith
      | inr (some h, hj) ↦
          ground (arith, weight-take_over s i j h none hj hi (places_differ s.objects i j h hi hj))
    ]
  ]

  taken_over :
      (s : Holders) (i j : ℕ) (own other : Option ℕ)
      → get_elem? s.objects i ≡ some (some own)
      → get_elem? s.objects j ≡ some (some other)
      → i ≢ j
      → accounted c (take_over frees (dispose frees own s) i j other) ≡ accounted c s
  unfolding take_over
  taken_over s i j own other hi hj ne =
      let kept = dispose-objects own s in
      omega (
        arith,
        weight-take_over (dispose frees own s) i j other (some own) (rw kept hj) (rw kept hi) ne,
        ap (weight (holds c)) kept,
        dispose-settled own s,
      )

  move_assign-accounted :
      (s t : Holders) (i j : ℕ) → move_assign frees s i j ≡ some t → accounted c t ≡ accounted c s
  unfolding move_assign
  move_assign-accounted s t i j e = elim (Option-cases (get_elem? s.objects i)) [
    | inl n ↦ ground arith
    | inr (none, hi) ↦ ground arith
    | inr (some x, hi) ↦ elim (Option-cases (get_elem? s.objects j)) [
      | inl n ↦ ground arith
      | inr (none, hj) ↦ ground arith
      | inr (some o, hj) ↦ ground (arith, taken_over s i j x o hi hj)
    ]
  ]

  step-accounted :
      (s t : Holders) (a : Step)
      → step frees s a ≡ some t
      → accounted c t ≡ accounted c s + created c a
  unfolding step
  step-accounted s t (constructs i h) e = construct-accounted s t i h e
  step-accounted s t (move_constructs i j) e = omega (arith, move_construct-accounted s t i j e)
  step-accounted s t (move_assigns i j) e = omega (arith, move_assign-accounted s t i j e)
  step-accounted s t (releases j) e = omega (arith, release-accounted s t j e)
  step-accounted s t (destroys i) e = omega (arith, destroy-accounted s t i e)

  run-accounted :
      (s t : Holders) (steps : List Step)
      → run frees s steps ≡ some t
      → accounted c t ≡ accounted c s + created_by c steps
  unfolding run
  run-accounted s t [] e = ground arith
  run-accounted s t (a ∷ rest) e = elim (Option-cases (step frees s a)) [
    | inl n ↦ ground arith
    | inr (u, h) ↦ omega (arith, step-accounted s u a h, run-accounted u t rest (rw (h, run) at e))
  ]

  vacant-holds : (n : ℕ) → weight (holds c) (replicate n none) ≡ 0
  vacant-holds zero = refl
  vacant-holds (suc n) = omega (arith, vacant-holds n)

  -- After any sequence of operations on resource owners or executor states that starts without
  -- objects and runs through, each handle is held by live objects, was freed, was warned about or
  -- was handed out exactly as often in total as an object was constructed on it.
  pub handles_settled :
      (n : ℕ) (steps : List Step) (t : Holders)
      → run frees (vacant n) steps ≡ some t
      → weight (holds c) t.objects + settled c t ≡ created_by c steps
  handles_settled n steps t e = omega (arith, run-accounted (vacant n) t steps e, vacant-holds n)
