-- ===== src/Record/Composite/Tuples.antt =====
-- record.hpp: what the conversions of composite types rely on in Postgres.
use cppgres.Common.{
  ◌*◌, pos, negsuc, to_word, of_word, ◌⊎◌, ℕ, suc, ◌≡◌, Bool, true, some, List, [], ◌∷◌, ℤ,
  get_elem?,
}
use cppgres.World.{World}
use cppgres.Guard.Outcomes.{Calls}
use cppgres.Datum.Nullable.{NullableDatum}
use cppgres.Memory.Contexts.{MemoryApi}
use cppgres.Memory.Contexts.Frame.{Leaves}
use cppgres.Syscache.{CacheApi}
use cppgres.Record.{Attribute, TupleDescriptor}
use cppgres.Record.Composite.{TupleApi, typeoid, values_of, nulls_of}

-- What a tuple holds of an array of values and one of null flags.
abbrev pub zip : List ℕ → List Bool → List NullableDatum
zip (v ∷ vs) (n ∷ ns) = record { value = v; isnull = n } ∷ zip vs ns
zip _ _ = []

-- `held` are the values of the tuple at an address.
module _ {P : Type 0} (held : P → ℕ → List NullableDatum) where
  abbrev pub SameTuples : P → P → Type 0
  SameTuples p q = (x : ℕ) → held q x ≡ held p x

-- A datum that a column holds as it is: the column is passed by value, and the upper bits of the
-- datum only repeat the sign, since the tuple has as many bytes as the column.
abbrev pub Extends : ℤ → ℕ → Type 0
Extends (pos n) v = to_word 64 (of_word (8 * n) v) ≡ v
Extends (negsuc n) v = ⊥

abbrev pub AllHeld : List Attribute → List NullableDatum → Type 0
AllHeld [] [] = Unit
AllHeld (a ∷ columns) (d ∷ ds) =
    ((d.isnull ≡ true) ⊎ ((a.attbyval ≡ true) × Extends a.attlen d.value)) × AllHeld columns ds
AllHeld _ _ = ⊥

-- A descriptor of the composite type, whose columns are `columns`.
module _ (composite_type : ℕ) (columns : List Attribute) where
  abbrev pub Describes : TupleDescriptor → Type 0
  Describes d = (d.attrs ≡ columns) × (d.tdtypeid ≡ composite_type)

module _ {P : Type 0} (F : Type 0) (composite_type : ℕ) (columns : List Attribute)
    (held : P → ℕ → List NullableDatum) where
  -- Where no call fails: the composite type is found, and its descriptor has the columns, as a copy of
  -- a descriptor has; under such a descriptor a tuple holds what it is formed of, if the columns do,
  -- and so do its copy, which has the type in its header, and the detoasted form of that.
  pub record TupleLaws (memory : MemoryApi P) (cache : CacheApi P) (api : TupleApi P) : Type 0 where
    pub memory_leaves : Leaves (SameTuples held) F memory
    pub searches :
        (w : World P)
        → Calls
            (λ found q. (t : ℕ) × (found ≡ some t) × (api.is_composite t q ≡ true))
            (λ q. F)
            w
            (cache.search typeoid (composite_type ∷ []) w)
    pub lookups :
        (typmod : ℤ) (w : World P)
        → Calls
            (λ d q. Describes composite_type columns d × SameTuples held w.pg q)
            (λ q. F)
            w
            (api.lookup_copy composite_type typmod w)
    pub populates :
        (d : TupleDescriptor) (i : ℕ) (w : World P)
        → Calls (λ u. SameTuples held w.pg) (λ q. F) w (api.populate d i w)
    pub copies :
        (d : TupleDescriptor) (w : World P)
        → Calls
            (λ e q. (e.attrs ≡ d.attrs) × (e.tdtypeid ≡ d.tdtypeid))
            (λ q. F)
            w
            (api.copy_descriptor d w)
    pub forms :
        (d : TupleDescriptor) (ds : List NullableDatum) (w : World P)
        → Describes composite_type columns d
        → AllHeld columns ds
        → Calls
            (λ t q. held q t ≡ zip (values_of ds) (nulls_of ds))
            (λ q. F)
            w
            (api.form_tuple d (values_of ds) (nulls_of ds) w)
    pub copies_as_datum :
        (t : ℕ) (d : TupleDescriptor) (w : World P)
        → Describes composite_type columns d
        → Calls
            (λ x q. (held q x ≡ held w.pg t) × (api.header_type x q ≡ composite_type))
            (λ q. F)
            w
            (api.copy_as_datum t d w)
    pub detoasts :
        (x : ℕ) (w : World P)
        → Calls
            (λ y q. (held q y ≡ held w.pg x) × (api.header_type y q ≡ api.header_type x w.pg))
            (λ q. F)
            w
            (api.detoast x w)
    pub writes : (t x : ℕ) (p : P) → held (api.write_tuple t x p) t ≡ held p x
    pub getattrs :
        (t n : ℕ) (d : TupleDescriptor) (nd : NullableDatum) (w : World P)
        → Describes composite_type columns d
        → get_elem? (held w.pg t) n ≡ some nd
        → Calls (λ r q. (r ≡ nd) × SameTuples held w.pg q) (λ q. F) w (api.getattr t (suc n) d w)

-- A datum of the composite type that holds the values.
module _ {P : Type 0} (api : TupleApi P) (composite_type : ℕ)
    (held : P → ℕ → List NullableDatum) where
  abbrev pub IsDatumOf : List NullableDatum → ℕ → P → Type 0
  IsDatumOf ds x q =
      (held q x ≡ zip (values_of ds) (nulls_of ds)) × (api.header_type x q ≡ composite_type)
