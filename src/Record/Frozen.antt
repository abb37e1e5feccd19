-- ===== src/Record/Frozen.antt =====
-- `tuple_descriptor` of record.hpp: what may still change, before and after it is blessed.
use cppgres.Common.{
  ℕ, suc, ◌≡◌, refl, ◌∙◌, ap, true, List, [], ◌∷◌, length, set, ℤ, arith, Bool-cases, inl, inr,
  zero,
}
use cppgres.Datum.Nullable.{Result, ok, err}
use cppgres.Record.{
  Attribute, TupleDescriptor, get, write, set_type, set_name, bless, Edit, sets_type, sets_name,
  blesses, edit, edit_all, index, typed, kept_on_error,
}

edit_blessed :
    (registered : TupleDescriptor → ℕ) (d : TupleDescriptor) (e : Edit)
    → d.blessed ≡ true
    → edit registered d e ≡ d
unfolding edit set_type set_name bless
edit_blessed registered d (sets_type n typ) b = simp b
edit_blessed registered d (sets_name n name) b = simp b
edit_blessed registered d blesses b = simp b

blessed_by :
    (registered : TupleDescriptor → ℕ) (d : TupleDescriptor) → (bless registered d).blessed ≡ true
unfolding bless
blessed_by registered d = ground arith

frozen :
    (registered : TupleDescriptor → ℕ) (d : TupleDescriptor) (es : List Edit)
    → d.blessed ≡ true
    → edit_all registered d es ≡ d
unfolding edit_all
frozen registered d [] b = refl
frozen registered d (e ∷ es) b =
    ap (λ x. edit_all registered x es) (edit_blessed registered d e b) ∙ frozen registered d es b

length-set : {A : Type 0} (xs : List A) (i : ℕ) (v : A) → length (set xs i v) ≡ length xs
length-set [] i v = refl
length-set (x ∷ xs) zero v = refl
length-set (x ∷ xs) (suc i) v = ap suc (length-set xs i v)

written :
    (d : TupleDescriptor) (n : ℤ) (f : Attribute → Attribute)
    → length (kept_on_error d (write d n f)).attrs ≡ length d.attrs
unfolding write
written d n f = read (get d n)
  where
    read :
        (r : Result Attribute)
        → length
            (kept_on_error d (elim r [
              | ok a ↦ ok (record d { attrs = set d.attrs (index n) (f a) })
              | err e ↦ err e
            ])).attrs
          ≡ length d.attrs
    read (ok a) = length-set d.attrs (index n) (f a)
    read (err e) = refl

edit_size :
    (registered : TupleDescriptor → ℕ) (d : TupleDescriptor) (e : Edit)
    → length (edit registered d e).attrs ≡ length d.attrs
unfolding edit set_type set_name bless
edit_size registered d (sets_type n (ok t)) = elim (Bool-cases d.blessed) [
  | inl b ↦ simp b
  | inr b ↦ simp (b, written d n (typed t))
]
edit_size registered d (sets_type n (err x)) = ground arith
edit_size registered d (sets_name n name) = elim (Bool-cases d.blessed) [
  | inl b ↦ simp b
  | inr b ↦ simp (b, written d n (λ a. record a { attname = name }))
]
edit_size registered d blesses = ground arith

edit_all_size :
    (registered : TupleDescriptor → ℕ) (d : TupleDescriptor) (es : List Edit)
    → length (edit_all registered d es).attrs ≡ length d.attrs
unfolding edit_all
edit_all_size registered d [] = refl
edit_all_size registered d (e ∷ es) =
    edit_all_size registered (edit registered d e) es ∙ edit_size registered d e

-- Whatever attempts to set types or names, or to bless again, follow the blessing of a tuple
-- descriptor, and whatever they answer, the descriptor stays what it was when it was blessed;
-- attempts before the blessing keep the number of attributes.
pub edits_before_and_after :
    (registered : TupleDescriptor → ℕ) (d : TupleDescriptor) (before after : List Edit)
    → (edit_all registered (edit registered (edit_all registered d before) blesses) after
        ≡ bless registered (edit_all registered d before))
      × (length (edit_all registered d before).attrs ≡ length d.attrs)
unfolding edit
edits_before_and_after registered d before after = (
  frozen registered (bless registered (edit_all registered d before)) after
      (blessed_by registered (edit_all registered d before)),
  edit_all_size registered d before,
)
