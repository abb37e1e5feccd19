-- ===== src/Record.antt =====
-- record.hpp: `tuple_descriptor`, whose attributes may be changed until it is blessed, and the reading of a `record`.
pub mod Frozen
pub mod Lookup
pub mod Composite
pub mod Copies
mod Examples
use Prim.Native.String.{String}
use text.Mathlib.Text.{◌==◌ as str_eq}
use cppgres.Common.{
  ℕ, suc, Bool, true, false, not, ◌&&◌, Option, none, some, List, [], ◌∷◌, ◌==◌, leb, if◌then◌else◌,
  length, get_elem?, set, ℤ, pos, negsuc, zero,
}
use cppgres.World.{What, out_of_range, already_blessed}
use cppgres.Datum.Nullable.{Result, ok, err, NullableDatum}

-- FormData_pg_attribute, as far as the class reads or writes it. A type is a number.
pub record Attribute : Type 0 where
  pub attname : String
  pub atttypid : ℕ
  pub attcollation : ℕ
  pub attlen : ℤ
  pub attstorage : ℕ
  pub attalign : ℕ
  pub atttypmod : ℤ
  pub attbyval : Bool
  pub attisdropped : Bool

-- The row of pg_type that set_type copies.
pub record PgType : Type 0 where
  pub oid : ℕ
  pub typcollation : ℕ
  pub typlen : ℤ
  pub typstorage : ℕ
  pub typalign : ℕ
  pub typtypmod : ℤ
  pub typbyval : Bool

pub record TupleDescriptor : Type 0 where
  pub attrs : List Attribute
  pub tdtypeid : ℕ
  pub blessed : Bool

-- attributes()
abbrev pub attributes : TupleDescriptor → ℕ
attributes d = length d.attrs

-- the condition of check_bounds(n), for an int whose successor is an int
unfoldable pub in_bounds : ℤ → ℕ → Bool
in_bounds (pos n) natts = leb (suc n) natts
in_bounds (negsuc n) natts = false

abbrev pub index : ℤ → ℕ
index (pos n) = n
index (negsuc n) = 0

attribute_or_error : Option Attribute → Result Attribute
attribute_or_error none = err out_of_range
attribute_or_error (some a) = ok a

-- operator[](n)
unfoldable pub get : TupleDescriptor → ℤ → Result Attribute
unfolding in_bounds attribute_or_error
get d n =
    if in_bounds n (attributes d)
    then attribute_or_error (get_elem? d.attrs (index n))
    else err out_of_range

unfoldable pub write : TupleDescriptor → ℤ → (Attribute → Attribute) → Result TupleDescriptor
unfolding get
write d n f = elim (get d n) [
  | ok a ↦ ok (record d { attrs = set d.attrs (index n) (f a) })
  | err e ↦ err e
]

typed : PgType → Attribute → Attribute
typed t a = record a {
  atttypid = t.oid;
  attcollation = t.typcollation;
  attlen = t.typlen;
  attstorage = t.typstorage;
  attalign = t.typalign;
  atttypmod = t.typtypmod;
  attbyval = t.typbyval;
}

-- set_type(n, type); `typ` is what the system cache has, which throws for an unknown type
unfoldable pub set_type : TupleDescriptor → ℤ → Result PgType → Result TupleDescriptor
unfolding write typed
set_type d n typ =
    if d.blessed
    then err already_blessed
    else elim typ [ ok t ↦ write d n (typed t) | err e ↦ err e ]

-- set_name(n, name)
unfoldable pub set_name : TupleDescriptor → ℤ → String → Result TupleDescriptor
unfolding write
set_name d n name =
    if d.blessed then err already_blessed else write d n (λ a. record a { attname = name })

-- operator TupleDesc(): BlessTupleDesc gives an anonymous record type its number
unfoldable pub bless : (TupleDescriptor → ℕ) → TupleDescriptor → TupleDescriptor
bless registered d = if d.blessed then d else record d { tdtypeid = registered d; blessed = true }

same_integer : ℤ → ℤ → Bool
same_integer (pos a) (pos b) = a == b
same_integer (negsuc a) (negsuc b) = a == b
same_integer _ _ = false

same_flag : Bool → Bool → Bool
same_flag a b = if a then b else not b

unfoldable pub same_attribute : Attribute → Attribute → Bool
unfolding same_integer same_flag
same_attribute a b =
    (a.atttypid == b.atttypid)
    && (same_integer a.atttypmod b.atttypmod
        && ((a.attcollation == b.attcollation)
            && (same_flag a.attisdropped b.attisdropped
                && (same_integer a.attlen b.attlen && (a.attalign == b.attalign)))))

-- the loop of equal_types, over as many attributes on both sides
unfoldable pub same_attributes : List Attribute → List Attribute → Bool
unfolding same_attribute
same_attributes (a ∷ as') (b ∷ bs) = same_attribute a b && same_attributes as' bs
same_attributes _ _ = true

-- equal_types(other)
unfoldable pub equal_types : TupleDescriptor → TupleDescriptor → Bool
unfolding same_attributes
equal_types d e =
    (attributes d == attributes e)
    && ((d.tdtypeid == e.tdtypeid) && same_attributes d.attrs e.attrs)

-- A record with the values that heap_getattr gives of its tuple, by attribute.
pub record Record : Type 0 where
  pub tupdesc : TupleDescriptor
  pub values : List NullableDatum

abbrev pub heap_getattr : List NullableDatum → ℕ → NullableDatum
heap_getattr values n = elim (get_elem? values n) [
  | none ↦ record { value = 0; isnull = true }
  | some d ↦ d
]

-- get_attribute(n): a null comes without the value that stood in it
unfoldable pub get_attribute : Record → ℤ → Result NullableDatum
unfolding in_bounds
get_attribute r n =
    if in_bounds n (attributes r.tupdesc)
    then (let d = heap_getattr r.values (index n) in
        ok (if d.isnull then record { value = 0; isnull = true } else d))
    else err out_of_range

-- attribute_name(n)
unfoldable pub attribute_name : Record → ℤ → Result String
unfolding get
attribute_name r n = elim (get r.tupdesc n) [ ok a ↦ ok a.attname | err e ↦ err e ]

-- the loop of operator[](name): `left` attributes are to be looked at, from `i` on
unfoldable pub find : Record → String → ℕ → ℕ → Result NullableDatum
unfolding attribute_name get_attribute
find r name zero i = err out_of_range
find r name (suc left) i =
    let rest = find r name left (suc i) in
    elim (attribute_name r (pos i)) [
      | ok s ↦ if str_eq s name then get_attribute r (pos i) else rest
      | err e ↦ err e
    ]

-- operator[](name)
unfoldable pub by_name : Record → String → Result NullableDatum
unfolding find
by_name r name = find r name (attributes r.tupdesc) 0

-- What a program may do with a descriptor; a call that throws leaves it as it was.
pub data Edit : Type 0 where
  sets_type : ℤ → Result PgType → Edit
  sets_name : ℤ → String → Edit
  blesses : Edit

abbrev kept_on_error : TupleDescriptor → Result TupleDescriptor → TupleDescriptor
kept_on_error d (ok e) = e
kept_on_error d (err x) = d

unfoldable pub edit : (TupleDescriptor → ℕ) → TupleDescriptor → Edit → TupleDescriptor
unfolding set_type set_name bless
edit registered d (sets_type n typ) = kept_on_error d (set_type d n typ)
edit registered d (sets_name n name) = kept_on_error d (set_name d n name)
edit registered d blesses = bless registered d

unfoldable pub edit_all : (TupleDescriptor → ℕ) → TupleDescriptor → List Edit → TupleDescriptor
unfolding edit
edit_all registered d [] = d
edit_all registered d (e ∷ es) = edit_all registered (edit registered d e) es
