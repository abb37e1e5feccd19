-- ===== src/Lists.antt =====
-- list.hpp: a List of Postgres as a range of its cells.
pub mod Ranges
mod Examples
use cppgres.Common.{
  ℕ, zero, suc, ◌+◌, ◌-◌, ◌*◌, ◌/◌, ◌%◌, ◌^◌, Bool, true, false, Option, none, some, List, [], ◌∷◌,
  ◌==◌, if◌then◌else◌, length, get_elem?, ℤ, pos, of_word,
}

-- A List of Postgres: the address of its array of cells, and the cells that are in use. A cell is a
-- union of 8 bytes.
pub record Cells : Type 0 where
  pub elements : ℕ
  pub cells : List ℕ

abbrev pub cell_size : ℕ
cell_size = 8

-- list_, where NIL is none
abbrev pub Range : Type 0
Range = Option Cells

-- The element types that operator* takes: a pointer, an Oid, or an int.
pub data Element : Type 0 where
  pointer object_id integer : Element

-- lfirst, lfirst_oid and lfirst_int of what a cell holds
unfoldable pub first_of : Element → ℕ → ℤ
first_of pointer word = pos (word % 2 ^ 64)
first_of object_id word = pos (word % 2 ^ 32)
first_of integer word = of_word 32 word

-- iterator::operator*, at the address of a cell: none outside of the array
unfoldable pub deref : Element → Range → ℕ → Option ℤ
unfolding first_of
deref t none cell = none
deref t (some l) cell = elim (get_elem? l.cells ((cell - l.elements) / cell_size)) [
  | none ↦ none
  | some word ↦ some (first_of t word)
]

-- iterator::operator++
unfoldable pub next : ℕ → ℕ
next cell = cell + cell_size

-- begin() and end()
unfoldable pub begin : Range → ℕ
begin none = 0
begin (some l) = l.elements

unfoldable pub end : Range → ℕ
end none = 0
end (some l) = l.elements + cell_size * length l.cells

-- size() and empty()
unfoldable pub size : Range → ℕ
size none = 0
size (some l) = length l.cells

unfoldable pub empty : Range → Bool
empty none = true
empty (some l) = false

-- A range-for over the list, whose body gets the elements one by one: the elements that it got, or
-- none where it reads outside of the array or the fuel does not do.
loop_step : Option ℤ → Option (List ℤ) → Option (List ℤ)
loop_step none rest = none
loop_step (some x) none = none
loop_step (some x) (some xs) = some (x ∷ xs)

unfoldable pub loop : ℕ → Element → Range → ℕ → Option (List ℤ)
unfolding deref next end loop_step
loop zero t l it = none
loop (suc fuel) t l it =
    let rest = loop fuel t l (next it) in
    if it == end l then some [] else loop_step (deref t l it) rest
