-- ===== src/Record/Composite/Fields.antt =====
-- record.hpp: the fields of a composite type survive their conversion into a datum and back.
use cppgres.Common.{
  ℕ, suc, ◌+◌, ◌≤◌, ◌≡◌, refl, ap, ◌∙◌, Bool, true, false, Option, some, List, [], ◌∷◌,
  if◌then◌else◌, leb, length, get_elem?, drop-get_elem?, ==_self, arith,
}
use cppgres.World.{World, pure, ◌>>=◌}
use cppgres.Guard.{ErrorApi, ffi_guard}
use cppgres.Guard.Restore.{armed}
use cppgres.Guard.Outcomes.{Ends, Ends-then, Ends-weaken}
use cppgres.Datum.Nullable.{ok, NullableDatum}
use cppgres.Memory.Contexts.{MemoryApi}
use cppgres.Syscache.{CacheApi}
use cppgres.Record.{Attribute, in_bounds}
use cppgres.Record.Composite.{
  to_tuple_desc, context_or_current, of_header, TupleApi, Handle, values_of, nulls_of, Field,
  into_datums, or_throw, of_type, of_values, attribute_type, get_attribute, read_fields,
  composite_from_datum, composite_into_datum,
}
use cppgres.Record.Composite.Tuples.{zip, SameTuples, AllHeld, TupleLaws, IsDatumOf}
use cppgres.Record.Composite.Datums.{
  called, Ready, HoldsAll, of_type-Ends, of_values-Holds, of_header-Holds, to_tuple_desc-Same,
}

-- What is read of a value: a null comes without what stood in it.
abbrev pub read_back : NullableDatum → NullableDatum
read_back d = if d.isnull then record { value = 0; isnull = true } else d

-- Each field brings back its value, under whatever type its column has.
abbrev pub RoundTrips : {V : Type 0} → List (Field V) → List V → Type 0
RoundTrips [] [] = Unit
RoundTrips (f ∷ fs) (v ∷ vs) =
    ((typ : ℕ) → f.from_nullable_datum (read_back (f.into_nullable_datum v)) typ ≡ ok v)
    × RoundTrips fs vs
RoundTrips _ _ = ⊥

module _ {P V : Type 0} (errors : ErrorApi P) (memory : MemoryApi P) (cache : CacheApi P)
    (api : TupleApi P) (F : Type 0) (composite_type : ℕ) (columns : List Attribute)
    (held : P → ℕ → List NullableDatum)
    (laws : TupleLaws F composite_type columns held memory cache api)
    (fields : List (Field V)) where
  open laws use {
    memory_leaves, searches, lookups, populates, copies, forms, copies_as_datum, detoasts, writes,
    getattrs,
  }

  -- With a blessed descriptor the record stays as it is.
  get_attribute-Reads :
      (r : Handle) (n : ℕ) (nd : NullableDatum) (w : World P)
      → Ready errors memory cache api F composite_type columns held laws r.tupdesc
      → suc n ≤ length r.tupdesc.attrs
      → get_elem? (held w.pg r.tuple) n ≡ some nd
      → Ends
          (λ read q. (read ≡ (r, read_back nd)) × SameTuples held w.pg q)
          (λ q. F)
          (get_attribute errors memory cache api r n w)
  unfolding get_attribute in_bounds
  get_attribute-Reads r n nd w (described, blessed) b e =
      let Read : Handle × NullableDatum → P → Type 0 =
        λ read q. (read ≡ (r, read_back nd)) × SameTuples held w.pg q in
      rw (leb_true (suc n) (length r.tupdesc.attrs) b) (
        Ends-then (λ d q. (d ≡ r.tupdesc) × SameTuples held w.pg q) Read (λ q. F) _
          (to_tuple_desc errors memory cache api r.tupdesc) w
          (to_tuple_desc-Same errors memory cache api F composite_type columns held laws r.tupdesc w
            blessed)
          (λ prepared u (at_d, same).
            Ends-then (λ d q. (d ≡ nd) × SameTuples held u.pg q) Read (λ q. F) _
              (ffi_guard errors (api.getattr r.tuple (suc n) prepared)) u
              (called errors memory cache api F composite_type columns held laws
                (λ d q. (d ≡ nd) × SameTuples held u.pg q) (api.getattr r.tuple (suc n) prepared) u
                (getattrs r.tuple n prepared nd (armed u)
                  (ap (λ d. d.attrs) at_d ∙ described.0, ap (λ d. d.tdtypeid) at_d ∙ described.1)
                  (ap (λ ds. get_elem? ds n) (same r.tuple) ∙ e)))
              (λ d v (at_nd, more). (
                (λ i. (record r { tupdesc = at_d i }, read_back (at_nd i))),
                λ x. more x ∙ same x,
              ))))
    where
      leb_true : (a b : ℕ) → a ≤ b → leb a b ≡ true
      leb_true a b h = ground arith

  -- What a tuple holds of a value, and what is read of that.
  stored : NullableDatum → NullableDatum
  stored d = record { value = if d.isnull then 0 else d.value; isnull = d.isnull }

  read_back-stored : (d : NullableDatum) → read_back (stored d) ≡ read_back d
  unfolding stored
  read_back-stored d = read_fields_back d.value d.isnull
    where
      read_fields_back :
          (v : ℕ) (n : Bool)
          → read_back (record { value = if n then 0 else v; isnull = n })
            ≡ read_back (record { value = v; isnull = n })
      read_fields_back v true = refl
      read_fields_back v false = refl

  -- The fields from an attribute on are read as the values that they were made of.
  read_fields-Back :
      (fs : List (Field V)) (vs : List V) (r : Handle) (i : ℕ) (w : World P)
      → RoundTrips fs vs
      → Ready errors memory cache api F composite_type columns held laws r.tupdesc
      → i + length fs ≤ length r.tupdesc.attrs
      → ((k : ℕ)
          → get_elem? (held w.pg r.tuple) (i + k)
            ≡ get_elem? (zip (values_of (into_datums fs vs)) (nulls_of (into_datums fs vs))) k)
      → Ends (λ read q. read ≡ vs) (λ q. F) (read_fields errors memory cache api fs r i w)
  unfolding read_fields attribute_type or_throw values_of nulls_of into_datums stored
  read_fields-Back [] [] r i w trips ready b at_k = refl
  read_fields-Back [] (v ∷ vs) r i w trips ready b at_k = absurd trips
  read_fields-Back (f ∷ fs) [] r i w trips ready b at_k = absurd trips
  read_fields-Back (f ∷ fs) (v ∷ vs) r i w trips ready b at_k =
      let d : NullableDatum = f.into_nullable_datum v in
      let inside : suc i ≤ length r.tupdesc.attrs = omega (arith, b) in
      let (a, at_a, _) = drop-get_elem? r.tupdesc.attrs i inside in
      let here : get_elem? (held w.pg r.tuple) i ≡ some (stored d) =
        ap (get_elem? (held w.pg r.tuple)) (omega arith) ∙ at_k 0 in
      Ends-then (λ x q. (x ≡ (r, read_back (stored d))) × SameTuples held w.pg q)
        (λ read q. read ≡ v ∷ vs) (λ q. F) _ (get_attribute errors memory cache api r i) w
        (get_attribute-Reads r i (stored d) w ready inside here)
        (λ x u (at_x, same).
          rw
            (
              ap (λ p. p.0) at_x,
              attribute_type,
              at_a,
              ap (λ p. p.1) at_x,
              read_back-stored d,
              trips.0 a.atttypid,
            )
            (Ends-then (λ read q. read ≡ vs) (λ read q. read ≡ v ∷ vs) (λ q. F)
              (λ rest. pure (v ∷ rest)) (read_fields errors memory cache api fs r (suc i)) u
              (read_fields-Back fs vs r (suc i) u trips.1 ready (omega (arith, b)) (λ k.
                ap (λ xs. get_elem? xs (suc i + k)) (same r.tuple)
                ∙ ap (get_elem? (held w.pg r.tuple)) (omega arith)
                ∙ at_k (suc k)))
              (λ rest y e. ap (◌∷◌ v) e)))

  into_datum-Holds :
      (vs : List V) (w : World P)
      → AllHeld columns (into_datums fields vs)
      → Ends
          (IsDatumOf api composite_type held (into_datums fields vs))
          (λ q. F)
          (composite_into_datum errors memory cache api fields composite_type vs w)
  unfolding composite_into_datum
  into_datum-Holds vs w all_held =
      let ds : List NullableDatum = into_datums fields vs in
      let IsDatum : ℕ → P → Type 0 = IsDatumOf api composite_type held ds in
      Ends-then (λ td q. Ready errors memory cache api F composite_type columns held laws td)
        IsDatum (λ q. F) _ (of_type errors memory cache api composite_type) w
        (of_type-Ends errors memory cache api F composite_type columns held laws w)
        (λ td v ready.
          Ends-then (HoldsAll errors memory cache api F composite_type columns held laws ds) IsDatum
            (λ q. F) _ (of_values errors memory cache api td ds) v
            (of_values-Holds errors memory cache api F composite_type columns held laws td ds v
              ready all_held)
            (λ r u (described, k).
              Ends-weaken
                (λ x q. (held q x ≡ held u.pg r.tuple) × (api.header_type x q ≡ composite_type))
                IsDatum (λ q. F) (λ q. F) _ (λ x q (g, t). (g ∙ k, t)) (λ q f. f)
                (called errors memory cache api F composite_type columns held laws _
                  (api.copy_as_datum r.tuple r.tupdesc) u
                  (copies_as_datum r.tuple r.tupdesc (armed u) described))))

  -- Where no call of Postgres fails, an object of a composite type that is converted into a datum
  -- is read back from it with the same fields: if the type has as many columns as the class has
  -- fields, and the conversion of each field brings its value back under any type of its column,
  -- with a null read as a null. Conditions: Postgres finds the type as a composite type, and a
  -- column takes its datum as it is, so it is a null, or the column is passed by value and the
  -- upper bits of the datum only repeat the sign of what is stored.
  pub composite_round_trip :
      (vs : List V) (ctx : Option ℕ) (w : World P)
      → RoundTrips fields vs
      → AllHeld columns (into_datums fields vs)
      → length columns ≡ length fields
      → Ends
          (λ read q. read ≡ vs)
          (λ q. F)
          ((do
            d ← composite_into_datum errors memory cache api fields composite_type vs
            composite_from_datum errors memory cache api fields composite_type d composite_type ctx)
            w)
  unfolding composite_into_datum composite_from_datum
  composite_round_trip vs ctx w trips all_held as_many =
      let ds : List NullableDatum = into_datums fields vs in
      let Holds : ℕ → P → Type 0 = λ t q. held q t ≡ zip (values_of ds) (nulls_of ds) in
      let IsDatum : ℕ → P → Type 0 = IsDatumOf api composite_type held ds in
      let Back : List V → P → Type 0 = λ read q. read ≡ vs in
      Ends-then IsDatum Back (λ q. F) _
        (composite_into_datum errors memory cache api fields composite_type vs) w
        (into_datum-Holds vs w all_held)
        (λ d v is_datum. rw (==_self composite_type) (
          Ends-then IsDatum Back (λ q. F) _ (ffi_guard errors (api.detoast d)) v
            (Ends-weaken
              (λ y q. (held q y ≡ held v.pg d) × (api.header_type y q ≡ api.header_type d v.pg))
              IsDatum (λ q. F) (λ q. F) _ (λ y q (h, t). (h ∙ is_datum.0, t ∙ is_datum.1))
              (λ q f. f)
              (called errors memory cache api F composite_type columns held laws _ (api.detoast d) v
                (detoasts d (armed v))))
            (λ y u detoasted.
              Ends-then
                (λ r q.
                  Ready errors memory cache api F composite_type columns held laws r.tupdesc
                  × Holds r.tuple q)
                Back (λ q. F) (λ rec. read_fields errors memory cache api fields rec 0)
                (of_header errors memory cache api y (context_or_current ctx v)) u
                (of_header-Holds errors memory cache api F composite_type columns held laws ds y
                  (context_or_current ctx v) u detoasted)
                (λ r z (ready, holds).
                  read_fields-Back fields vs r 0 z trips ready
                    (omega (arith, ap length ready.0.0, as_many))
                    (λ k.
                      ap (get_elem? (held z.pg r.tuple)) (omega arith)
                      ∙ ap (λ xs. get_elem? xs k) holds)))))
