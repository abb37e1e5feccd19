-- ===== src/Record/Lookup.antt =====
-- `record` of record.hpp: reading attributes by their place and by their name.
use Prim.Native.String.{String}
use text.Mathlib.Text.{◌==◌ as str_eq}
use cppgres.Common.{
  ℕ, zero, suc, ◌+◌, ◌≤◌, ◌<◌, ◌≡◌, refl, ◌∙◌, ap, sym, true, false, List, some, length, get_elem?,
  pos, leb, arith, Bool-cases, ◌⊎◌, inl, inr, drop-get_elem?,
}
use cppgres.World.{out_of_range}
use cppgres.Datum.Nullable.{Result, ok, err, NullableDatum}
use cppgres.Record.{Attribute, Record, get, in_bounds, attribute_name, get_attribute, find, by_name}

abbrev pub attrs_of : Record → List Attribute
attrs_of r = r.tupdesc.attrs

-- No attribute in a range has the name.
abbrev pub Absent : Record → String → ℕ → ℕ → Type 0
Absent r name i j =
    (k : ℕ) (a : Attribute)
    → i ≤ k
    → k < j
    → get_elem? (attrs_of r) k ≡ some a
    → str_eq a.attname name ≡ false

-- The first attribute with the name from a place on, and what is read: its value, or an error.
pub data Finds (r : Record) (name : String) (i : ℕ) (o : Result NullableDatum) : Type 0 where
  first :
      (k : ℕ) (a : Attribute)
      → get_elem? (attrs_of r) k ≡ some a
      → str_eq a.attname name ≡ true
      → Absent r name i k
      → o ≡ get_attribute r (pos k)
      → Finds r name i o
  absent : Absent r name i (length (attrs_of r)) → o ≡ err out_of_range → Finds r name i o

name_at :
    (r : Record) (i : ℕ) (a : Attribute)
    → i < length (attrs_of r)
    → get_elem? (attrs_of r) i ≡ some a
    → attribute_name r (pos i) ≡ ok a.attname
unfolding attribute_name get in_bounds
name_at r i a l g = rw (leb_true (suc i) (length (attrs_of r)) l, g, attribute_name) refl
  where
    leb_true : (m n : ℕ) → m ≤ n → leb m n ≡ true
    leb_true m n h = ground arith

-- One more attribute in front, which does not have the name.
earlier-Absent :
    (r : Record) (name : String) (i j : ℕ) (a : Attribute)
    → get_elem? (attrs_of r) i ≡ some a
    → str_eq a.attname name ≡ false
    → Absent r name (suc i) j
    → Absent r name i j
earlier-Absent r name i j a g e h k b p q o = elim (split i k p) [
  | inl s ↦
      ap (λ x. str_eq x.attname name) (some_inj (sym o ∙ ap (get_elem? (attrs_of r)) s ∙ g)) ∙ e
  | inr s ↦ h k b s q o
]
  where
    split : (i k : ℕ) → i ≤ k → (k ≡ i) ⊎ (suc i ≤ k)
    split i k p = omega arith

    some_inj : some b ≡ some a → b ≡ a
    some_inj x = cc

earlier-Finds :
    (r : Record) (name : String) (i : ℕ) (a : Attribute) (o : Result NullableDatum)
    → get_elem? (attrs_of r) i ≡ some a
    → str_eq a.attname name ≡ false
    → Finds r name (suc i) o
    → Finds r name i o
earlier-Finds r name i a o g e (first k b p q h z) =
    first k b p q (earlier-Absent r name i k a g e h) z
earlier-Finds r name i a o g e (absent h z) =
    absent (earlier-Absent r name i (length (attrs_of r)) a g e h) z

find-Finds :
    (r : Record) (name : String) (left i : ℕ)
    → left + i ≡ length (attrs_of r)
    → Finds r name i (find r name left i)
unfolding find
find-Finds r name zero i l = absent (λ k a p q g. absurd (omega (arith, l, p, q))) refl
find-Finds r name (suc left) i l =
    let (a, g, _) = drop-get_elem? (attrs_of r) i (omega (arith, l)) in
    rw (find, name_at r i a (omega (arith, l)) g)
      (elim (Bool-cases (str_eq a.attname name)) [
        | inl e ↦ rw e (first i a g e (λ k b p q h. absurd (omega (arith, p, q))) refl)
        | inr e ↦
            rw e
              (earlier-Finds r name i a _ g e (find-Finds r name left (suc i) (omega (arith, l))))
      ])

-- Reading an attribute of a record by its name gives the attribute at the first place with that
-- name, as reading by the place does, and the error for an index out of range exactly when no
-- attribute has the name.
pub by_name-Finds : (r : Record) (name : String) → Finds r name 0 (by_name r name)
unfolding by_name
by_name-Finds r name = find-Finds r name (length (attrs_of r)) 0 (omega arith)
