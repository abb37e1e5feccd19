-- ===== src/Lists/Ranges.antt =====
-- list.hpp: a loop over a List gets each of its cells once and in order.
use cppgres.Common.{
  ℕ, zero, suc, ◌+◌, ◌-◌, ◌*◌, ◌/◌, ◌<◌, ◌≤◌, ◌≡◌, refl, sym, ap, ◌∙◌, none, some, List, [], ◌∷◌,
  map, ==_self, ==-eq_false, length, get_elem?, drop, drop-get_elem?, drop_all, arith, Bool-cases,
  inl, inr, ==_iff, ◌==◌, true, false, ℤ,
}
use cppgres.Lists.{
  Cells, cell_size, Range, Element, first_of, deref, next, begin, end, size, loop_step, loop,
}

-- The elements of a list, as the element type reads them.
abbrev pub elements_of : Element → Range → List ℤ
elements_of t none = []
elements_of t (some l) = map (first_of t) l.cells

length-map : (t : Element) (ws : List ℕ) → length (map (first_of t) ws) ≡ length ws
length-map t [] = refl
length-map t (w ∷ ws) = ap suc (length-map t ws)

module _ (t : Element) (l : Cells) where
  cell_at : ℕ → ℕ
  cell_at i = l.elements + cell_size * i

  deref_at :
      (i word : ℕ)
      → get_elem? l.cells i ≡ some word
      → deref t (some l) (cell_at i) ≡ some (first_of t word)
  unfolding deref cell_at
  deref_at i word e =
      let index : (l.elements + 8 * i - l.elements) / 8 ≡ i = omega arith in
      rw (deref, index, e) refl

  -- From a cell on, the loop gets the cells that are left.
  loop_from :
      (fuel i : ℕ)
      → i ≤ length l.cells
      → length l.cells - i < fuel
      → loop fuel t (some l) (cell_at i) ≡ some (map (first_of t) (drop i l.cells))
  unfolding loop cell_at next end loop_step
  loop_from zero i inside enough = absurd (omega (arith, enough))
  loop_from (suc fuel) i inside enough = elim (Bool-cases (i == length l.cells)) [
    | inl e ↦
        let here : i ≡ length l.cells = (==_iff i (length l.cells)).0 e in
        rw
          (
            here,
            ==_self (l.elements + 8 * length l.cells),
            drop_all l.cells (length l.cells) (omega arith),
          )
          refl
    | inr e ↦
        let apart : ¬ (i ≡ length l.cells) = λ h. clash (sym e ∙ (==_iff i (length l.cells)).1 h) in
        let more : suc i ≤ length l.cells = omega (arith, inside, apart) in
        let (word, at_i, left) = drop-get_elem? l.cells i more in
        let moved : l.elements + 8 * i + 8 ≡ l.elements + 8 * suc i = omega arith in
        let rest : loop fuel t (some l) (l.elements + 8 * suc i)
            ≡ some (map (first_of t) (drop (suc i) l.cells)) =
          loop_from fuel (suc i) more (omega (arith, enough, more)) in
        rw
          (
            ==-eq_false (l.elements + 8 * i) (l.elements + 8 * length l.cells)
                (λ h. apart (omega (arith, h))),
            deref_at i word at_i,
            moved,
            rest,
            left,
          )
          refl
  ]
    where
      clash : false ≡ true → ⊥
      clash x = cc

-- A range-for over a List of Postgres, NIL included, ends and gets each of its cells once and in
-- order, as the element type reads it, without a read outside of the array, on fuel of more steps
-- than it has cells; they are as many as size() says.
pub loop-Elements :
    (t : Element) (l : Range) (fuel : ℕ)
    → size l < fuel
    → (loop fuel t l (begin l) ≡ some (elements_of t l)) × (length (elements_of t l) ≡ size l)
unfolding size begin loop end cell_at
loop-Elements t none zero enough = absurd (omega (arith, enough))
loop-Elements t none (suc fuel) enough = (refl, refl)
loop-Elements t (some l) fuel enough = (
  ap (loop fuel t (some l)) (zeroth l.elements)
      ∙ loop_from t l fuel 0 (omega arith) (omega (arith, enough)),
  length-map t l.cells,
)
  where
    zeroth : (e : ℕ) → e ≡ e + 8 * 0
    zeroth e = omega arith
