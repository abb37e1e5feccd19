-- ===== src/Record/Composite.antt =====
-- record.hpp: descriptors of composite types, records that are made of values or of a tuple of Postgres, and the conversions of composite types.
pub mod Tuples
pub mod Datums
pub mod Fields
mod Examples
use cppgres.Common.{
  ℕ, zero, suc, Bool, true, false, not, Option, none, some, List, [], ◌∷◌, map, ◌==◌, if◌then◌else◌,
  ℤ, pos, leb, length, get_elem?,
}
use cppgres.World.{
  World, Cpp, pure, ◌>>=◌, ◌>>◌, modify, throw, std_exception, not_composite, invalid_type,
  out_of_range, wrong_composite, What,
}
use cppgres.Guard.{ErrorApi, ffi_guard}
use cppgres.Datum.Nullable.{Result, ok, err, NullableDatum}
use cppgres.Memory.Contexts.{MemoryApi, Layout, alloc, with_scope}
use cppgres.Syscache.{CacheApi, with_syscache}
use cppgres.Record.{Attribute, TupleDescriptor, attributes, in_bounds, index}

-- The calls of Postgres: CreateTemplateTupleDesc, lookup_rowtype_tupdesc_copy, CreateTupleDescCopyConstr
-- populate_compact_attribute of an attribute, BlessTupleDesc, heap_form_tuple,
-- heap_copy_tuple_as_datum, pg_detoast_datum, heap_getattr (by an attribute number, from 1 on), format_type_be;
-- typtype == 'c' and typtypmod of a tuple of pg_type, the type and typmod in the header of a tuple, and
-- the assignment of t_len and t_data of a HeapTupleData.
pub record TupleApi (P : Type 0) : Type 0 where
  pub create_template : ℕ → Cpp P (List Attribute)
  pub lookup_copy : ℕ → ℤ → Cpp P TupleDescriptor
  pub populate : TupleDescriptor → ℕ → Cpp P (Unit {0})
  pub bless : TupleDescriptor → Cpp P TupleDescriptor
  pub copy_descriptor : TupleDescriptor → Cpp P TupleDescriptor
  pub form_tuple : TupleDescriptor → List ℕ → List Bool → Cpp P ℕ
  pub copy_as_datum : ℕ → TupleDescriptor → Cpp P ℕ
  pub detoast : ℕ → Cpp P ℕ
  pub getattr : ℕ → ℕ → TupleDescriptor → Cpp P NullableDatum
  pub format_type : ℕ → Cpp P (Unit {0})
  pub is_composite : ℕ → P → Bool
  pub typtypmod : ℕ → P → ℤ
  pub header_type : ℕ → P → ℕ
  pub header_typmod : ℕ → P → ℤ
  pub write_tuple : ℕ → ℕ → P → P

-- A record: its descriptor, and the HeapTuple.
pub record Handle : Type 0 where
  pub tupdesc : TupleDescriptor
  pub tuple : ℕ

-- The layout of a HeapTupleData, and TYPEOID.
abbrev pub tuple_layout : Layout
tuple_layout = record { size = 24; align = 8; trivially_destructible = true; destroyer = 0 }

abbrev pub typeoid : ℕ
typeoid = 82

-- the arrays for heap_form_tuple
unfoldable pub values_of : List NullableDatum → List ℕ
values_of = map (λ d. if d.isnull then 0 else d.value)

unfoldable pub nulls_of : List NullableDatum → List Bool
nulls_of = map (λ d. d.isnull)

-- A field of a composite type, with the values of all its fields in one type.
pub record Field (V : Type 0) : Type 0 where
  pub from_nullable_datum : NullableDatum → ℕ → Result V
  pub into_nullable_datum : V → NullableDatum

unfoldable pub into_datums : {V : Type 0} → List (Field V) → List V → List NullableDatum
into_datums (f ∷ fs) (v ∷ vs) = f.into_nullable_datum v ∷ into_datums fs vs
into_datums _ _ = []

module _ {P : Type 0} where
  -- ctx.has_value() ? ctx.value() : memory_context()
  abbrev pub context_or_current : Option ℕ → World P → ℕ
  context_or_current ctx w = elim ctx [ none ↦ w.current_memory_context | some c ↦ c ]

  unfoldable pub or_throw : {T : Type 0} → Result T → Cpp P T
  or_throw (ok t) = pure t
  or_throw (err e) = throw (std_exception e)

module _ {P : Type 0} (errors : ErrorApi P) (memory : MemoryApi P) (cache : CacheApi P)
    (api : TupleApi P) where
  -- tuple_descriptor(nattrs, ctx)
  unfoldable pub create : ℕ → ℕ → Cpp P TupleDescriptor
  create nattrs ctx = do
    attrs ← with_scope ctx (ffi_guard errors (api.create_template nattrs))
    pure (record {
      attrs = map {A = Attribute} (λ a. record a { attcollation = 0; attisdropped = false }) attrs;
      tdtypeid = 2249;
      blessed = false;
    })

  -- tuple_descriptor(type)
  unfoldable pub of_type : ℕ → Cpp P TupleDescriptor
  of_type oid = do
    desc ← with_syscache errors cache typeoid (oid ∷ []) (λ t w.
        if not (api.is_composite t w.pg)
        then throw (std_exception not_composite) w
        else ffi_guard errors (api.lookup_copy oid (api.typtypmod t w.pg)) w)
    pure (record desc { blessed = true })

  -- populate_compact_attribute(), from an attribute on, of as many
  unfoldable pub populate_from : TupleDescriptor → ℕ → ℕ → Cpp P (Unit {0})
  populate_from desc zero i = pure tt
  populate_from desc (suc left) i = do
    ffi_guard errors (api.populate desc i)
    populate_from desc left (suc i)

  -- tuple_descriptor(tuple_descriptor &other): the copy is blessed as the other one is
  unfoldable pub copy : TupleDescriptor → Cpp P TupleDescriptor
  unfolding populate_from
  copy other = do
    populate_from other (attributes other) 0
    desc ← ffi_guard errors (api.copy_descriptor other)
    pure (record desc { blessed = other.blessed })

  -- operator TupleDesc() of a descriptor that is not const: it is prepared, and blessed once
  unfoldable pub to_tuple_desc : TupleDescriptor → Cpp P TupleDescriptor
  unfolding populate_from
  to_tuple_desc d = do
    populate_from d (attributes d) 0
    if d.blessed then pure d else (do
      numbered ← ffi_guard errors (api.bless d)
      pure (record numbered { blessed = true }))

  -- type::name(), for a message
  unfoldable pub type_name : ℕ → Cpp P (Unit {0})
  type_name o =
      if o == 0 then throw (std_exception invalid_type) else ffi_guard errors (api.format_type o)

  -- record(tupdesc, args...) and record(tupdesc, begin, end)
  unfoldable pub of_values : TupleDescriptor → List NullableDatum → Cpp P Handle
  unfolding copy to_tuple_desc values_of nulls_of
  of_values tupdesc datums = do
    own ← copy tupdesc
    ffi_guard errors (do
      prepared ← to_tuple_desc own
      tuple ← api.form_tuple prepared (values_of datums) (nulls_of datums)
      pure (record { tupdesc = prepared; tuple = tuple }))

  -- record(heap_tuple, ctx)
  unfoldable pub of_header : ℕ → ℕ → Cpp P Handle
  of_header header ctx w =
      (do
        desc ←
            ffi_guard errors
              (api.lookup_copy (api.header_type header w.pg) (api.header_typmod header w.pg))
        tuple ← alloc errors memory ctx tuple_layout 1
        modify (λ v. record v { pg = api.write_tuple tuple header v.pg })
        pure (record { tupdesc = record desc { blessed = true }; tuple = tuple }))
        w

  -- attribute_type(n)
  unfoldable pub attribute_type : Handle → ℕ → Cpp P ℕ
  attribute_type r n = elim (get_elem? r.tupdesc.attrs n) [
    | none ↦ throw (std_exception out_of_range)
    | some a ↦ pure a.atttypid
  ]

  -- get_attribute(n), with the record, whose descriptor it prepares
  unfoldable pub get_attribute : Handle → ℕ → Cpp P (Handle × NullableDatum)
  unfolding in_bounds to_tuple_desc
  get_attribute r n =
      if in_bounds (pos n) (attributes r.tupdesc)
      then (do
        prepared ← to_tuple_desc r.tupdesc
        d ← ffi_guard errors (api.getattr r.tuple (suc n) prepared)
        pure (
          record r { tupdesc = prepared },
          if d.isnull then record { value = 0; isnull = true } else d,
        ))
      else throw (std_exception out_of_range)

  -- datum_conversion<record>::from_datum, and into_datum
  unfoldable pub record_from_datum : ℕ → Option ℕ → Cpp P Handle
  unfolding of_header
  record_from_datum d ctx = do
    header ← ffi_guard errors (api.detoast d)
    λ w. of_header header (context_or_current ctx w) w

  unfoldable pub record_into_datum : Handle → ℕ
  record_into_datum r = r.tuple

  -- the members of the class, from an attribute on
  unfoldable pub read_fields : {V : Type 0} → List (Field V) → Handle → ℕ → Cpp P (List V)
  unfolding get_attribute attribute_type or_throw
  read_fields [] r i = pure []
  read_fields (f ∷ fs) r i = do
    (s, d) ← get_attribute r i
    typ ← attribute_type s i
    v ← or_throw (f.from_nullable_datum d typ)
    vs ← read_fields fs s (suc i)
    pure (v ∷ vs)

  module _ {V : Type 0} (fields : List (Field V)) (composite_type : ℕ) where
    -- datum_conversion<T>::from_datum(d, oid, ctx)
    unfoldable pub composite_from_datum : ℕ → ℕ → Option ℕ → Cpp P (List V)
    unfolding of_header read_fields type_name
    composite_from_datum d oid ctx w =
        if not (oid == composite_type)
        then (do type_name composite_type; type_name oid; throw (std_exception wrong_composite)) w
        else (do
          header ← ffi_guard errors (api.detoast d)
          rec ← of_header header (context_or_current ctx w)
          read_fields fields rec 0)
            w

    -- datum_conversion<T>::into_datum(t)
    unfoldable pub composite_into_datum : List V → Cpp P ℕ
    unfolding of_type of_values into_datums
    composite_into_datum vs = do
      td ← of_type composite_type
      rec ← of_values td (into_datums fields vs)
      ffi_guard errors (api.copy_as_datum rec.tuple rec.tupdesc)
