-- ===== src/Memory/Tracking/Counts.antt =====
-- The objects that hold a state of `tracking_memory_context` (memory.hpp), counted.
use cppgres.Common.{
  ℕ, zero, suc, ◌+◌, ◌<◌, ◌≡◌, ◌≢◌, refl, sym, ◌∙◌, ap, Bool, true, false, ◌&&◌, ◌||◌, Option, none,
  some, List, [], ◌∷◌, ◌++◌, ◌==◌, ==-eq_false, length, get_elem?, set, replicate, weight-set,
  get_elem?-set_ne, ◌⊎◌, inl, inr, arith,
}
use cppgres.Memory.Tracking.{holds, use_count, some_dangling}

-- The counts after an object took the place of another, and after a move.
pub placed :
    (s i : ℕ) (objects : List (Option (Option ℕ))) (old new : Option (Option ℕ))
    → get_elem? objects i ≡ some old
    → use_count s (set objects i new) + holds s old ≡ use_count s objects + holds s new
unfolding use_count
placed s i objects old new h = weight-set (holds s) objects i old new h

pub different :
    (objects : List (Option (Option ℕ))) (i j : ℕ) (h : Option ℕ)
    → get_elem? objects i ≡ some none
    → get_elem? objects j ≡ some (some h)
    → j ≢ i
different objects i j h p q e = absurd (clash (sym p ∙ ap (get_elem? objects) (sym e) ∙ q))
  where
    clash : ◌≡◌ {A = Option (Option (Option ℕ))} (some none) (some (some h)) → ⊥
    clash x = cc

pub moved :
    (s i j : ℕ) (objects : List (Option (Option ℕ))) (h : Option ℕ)
    → get_elem? objects i ≡ some none
    → get_elem? objects j ≡ some (some h)
    → use_count s (set (set objects j (some none)) i (some h)) ≡ use_count s objects
moved s i j objects h p q =
    let gone : Option (Option ℕ) = some none in
    omega (
      arith,
      placed s j objects (some h) gone q,
      placed s i (set objects j gone) none (some h)
          (get_elem?-set_ne objects j i gone (different objects i j h p q) ∙ p),
    )

-- A state that was just made is the only new one.
pub armed_cases :
    (bs : List Bool) (s : ℕ)
    → get_elem? (bs ++ (true ∷ [])) s ≡ some true
    → (get_elem? bs s ≡ some true) ⊎ (s ≡ length bs)
armed_cases [] zero h = inr refl
armed_cases [] (suc s) h = cc
armed_cases (b ∷ bs) zero h = inl h
armed_cases (b ∷ bs) (suc s) h = elim (armed_cases bs s h) [
  | inl e ↦ inl e
  | inr e ↦ inr (omega (arith, e))
]

pub none_armed : (n s : ℕ) → get_elem? (replicate n false) s ≡ some true → ⊥
none_armed zero s h = cc
none_armed (suc n) zero h = cc
none_armed (suc n) (suc s) h = none_armed n s h

pub nothing_dangles :
    (objects : List (Option (Option ℕ))) (bs : List Bool) (n : ℕ)
    → ((s t : ℕ) → t ≡ n + s → get_elem? bs s ≡ some true → 0 < use_count t objects)
    → some_dangling objects n bs ≡ false
unfolding some_dangling
nothing_dangles objects [] n h = refl
nothing_dangles objects (true ∷ bs) n h =
    let held : 0 < use_count n objects = h zero n (omega arith) refl in
    rw (==-eq_false (use_count n objects) 0 (λ e. absurd (omega (arith, held, e))))
      (nothing_dangles objects bs (suc n) (λ s t e g. h (suc s) t (omega (arith, e)) g))
nothing_dangles objects (false ∷ bs) n h =
    nothing_dangles objects bs (suc n) (λ s t e g. h (suc s) t (omega (arith, e)) g)

pub set-false : (bs : List Bool) (t : ℕ) → get_elem? (set bs t false) t ≡ some true → ⊥
set-false [] t h = cc
set-false (b ∷ bs) zero h = cc
set-false (b ∷ bs) (suc t) h = set-false bs t h

pub apart : (s t : ℕ) → (s == t) ≡ false → t ≢ s
apart s t e q = ground (arith, q, e)

pub dangles :
    (objects : List (Option (Option ℕ))) (bs : List Bool) (n s t : ℕ)
    → t ≡ n + s
    → get_elem? bs s ≡ some true
    → use_count t objects ≡ 0
    → some_dangling objects n bs ≡ true
unfolding some_dangling
dangles objects [] n s t q g u = cc
dangles objects (b ∷ bs) n zero t q g u =
    let here : n ≡ t = omega (arith, q) in
    rw (is_true g, ap (λ x. use_count x objects) here ∙ u) refl
  where
    is_true : some b ≡ some true → b ≡ true
    is_true e = cc
dangles objects (b ∷ bs) n (suc s) t q g u =
    rw (dangles objects bs (suc n) s t (omega (arith, q)) g u)
      (or_true (b && use_count n objects == 0))
  where
    or_true : (b : Bool) → (b || true) ≡ true
    or_true true = refl
    or_true false = refl
