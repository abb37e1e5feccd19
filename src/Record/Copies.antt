-- ===== src/Record/Copies.antt =====
-- record.hpp: copies, moves and assignments of descriptors and records.
use cppgres.Common.{ℕ, ◌≡◌, refl, true, ℤ}
use cppgres.World.{Cpp, pure, ◌>>=◌, ◌>>◌, already_blessed}
use Prim.Native.String.{String}
use cppgres.Guard.{ErrorApi, ffi_guard}
use cppgres.Datum.Nullable.{Result, err}
use cppgres.Memory.Contexts.{MemoryApi}
use cppgres.Syscache.{CacheApi}
use cppgres.Record.{PgType, TupleDescriptor, attributes, set_type, set_name, bless}
use cppgres.Record.Composite.{TupleApi, Handle, populate_from}

-- A descriptor is a value here: that two of them refer to one TupleDesc is not seen.

-- tuple_descriptor(tupdesc), which is also what copies a descriptor that is const: the copy shares the
-- TupleDesc and is blessed
unfoldable pub const_copy : TupleDescriptor → TupleDescriptor
const_copy d = record d { blessed = true }

-- tuple_descriptor(tuple_descriptor &&) and the move assignment
unfoldable pub moved : TupleDescriptor → TupleDescriptor
moved d = d

-- record(const record &), whose member is copied as a const one, and get_tuple_descriptor()
unfoldable pub copy_record : Handle → Handle
unfolding const_copy
copy_record r = record r { tupdesc = const_copy r.tupdesc }

unfoldable pub get_tuple_descriptor : Handle → TupleDescriptor
unfolding const_copy
get_tuple_descriptor r = const_copy r.tupdesc

-- record(record &&) and its move assignment
unfoldable pub move_record : Handle → Handle
unfolding moved
move_record r = record r { tupdesc = moved r.tupdesc }

module _ {P : Type 0} (errors : ErrorApi P) (memory : MemoryApi P) (cache : CacheApi P)
    (api : TupleApi P) where
  -- operator=(const tuple_descriptor &)
  unfoldable pub assign : TupleDescriptor → Cpp P TupleDescriptor
  assign other = do
    populate_from errors memory cache api other (attributes other) 0
    desc ← ffi_guard errors (api.copy_descriptor other)
    pure (record desc { blessed = other.blessed })

  -- record's operator=(const record &)
  unfoldable pub assign_record : Handle → Cpp P Handle
  unfolding assign
  assign_record other = do
    desc ← assign other.tupdesc
    pure (record { tupdesc = desc; tuple = other.tuple })

-- The copy of a const descriptor refuses each edit, and is never blessed, even where the original is
-- not blessed yet.
const_copy-Frozen :
    (d : TupleDescriptor) (n : ℤ) (typ : Result PgType) (name : String)
    (registered : TupleDescriptor → ℕ)
    → (set_type (const_copy d) n typ ≡ err already_blessed)
      × (set_name (const_copy d) n name ≡ err already_blessed)
      × (bless registered (const_copy d) ≡ const_copy d)
unfolding set_type set_name bless const_copy
const_copy-Frozen d n typ name registered = (refl, refl, refl)
