-- ===== src/Record/Composite/Datums.antt =====
-- record.hpp: records made of values, and the records that are read of datums.
use cppgres.Common.{
  refl, ap, ◌∙◌, Bool, true, false, ℕ, zero, suc, ◌≡◌, not, some, List, [], ◌∷◌, if◌then◌else◌,
}
use cppgres.World.{
  World, Outcome, returns, throws, raises, terminates, Cpp, pure, ◌>>=◌, throw, std_exception,
  not_composite,
}
use cppgres.Guard.{ErrorApi, ffi_guard}
use cppgres.Guard.Restore.{armed, Restored, ffi_guard-Restored, Restored-then}
use cppgres.Guard.Outcomes.{
  Ends, Calls, guarded_after, Calls-wrapped, Ends-then, Ends-weaken, guarded, settled,
  at_scope_end-settled,
}
use cppgres.Datum.Nullable.{NullableDatum}
use cppgres.Memory.Contexts.{MemoryApi, alloc}
use cppgres.Memory.Contexts.Frame.{alloc-Left}
use cppgres.Syscache.{CacheApi, valid_tuple, construct, destroy, with_syscache}
use cppgres.Record.{Attribute, TupleDescriptor, attributes}
use cppgres.Record.Composite.{
  TupleApi, Handle, tuple_layout, typeoid, values_of, nulls_of, of_type, populate_from,
  to_tuple_desc, copy, of_values, of_header,
}
use cppgres.Record.Composite.Tuples.{zip, SameTuples, AllHeld, Describes, TupleLaws, IsDatumOf}

module _ {P : Type 0} (errors : ErrorApi P) (memory : MemoryApi P) (cache : CacheApi P)
    (api : TupleApi P) (F : Type 0) (composite_type : ℕ) (columns : List Attribute)
    (held : P → ℕ → List NullableDatum)
    (laws : TupleLaws F composite_type columns held memory cache api) where
  open laws use {
    memory_leaves, searches, lookups, populates, copies, forms, copies_as_datum, detoasts, writes,
  }

  -- a guarded call
  pub called :
      {T : Type 0} (Q : T → P → Type 0) (func : Cpp P T) (w : World P)
      → Calls Q (λ q. F) (armed w) (func (armed w))
      → Ends Q (λ q. F) (ffi_guard errors func w)
  called Q = guarded Q (λ q. F) errors (λ c p h. h)

  abbrev pub Ready : TupleDescriptor → Type 0
  Ready d = Describes composite_type columns d × (d.blessed ≡ true)

  pub of_type-Ends :
      (w : World P)
      → Ends (λ d q. Ready d) (λ q. F) (of_type errors memory cache api composite_type w)
  unfolding of_type with_syscache construct valid_tuple
  of_type-Ends w =
      Ends-then {A = TupleDescriptor} (λ d q. Found d) (λ d q. Ready d) (λ q. F)
        (λ d. pure (record d { blessed = true }))
        (with_syscache errors cache typeoid (composite_type ∷ []) looked_up) w
        (Ends-then (λ t q. api.is_composite t q ≡ true) (λ d q. Found d) (λ q. F) _
          (construct errors cache typeoid (composite_type ∷ [])) w
          (Ends-then (λ found q. (t : ℕ) × (found ≡ some t) × (api.is_composite t q ≡ true))
            (λ t q. api.is_composite t q ≡ true) (λ q. F) valid_tuple
            (ffi_guard errors (cache.search typeoid (composite_type ∷ []))) w
            (called _ (cache.search typeoid (composite_type ∷ [])) w (searches (armed w)))
            (λ found v (t, e, c). rw e c))
          (λ t v c. rw (at_scope_end-settled (destroy errors cache t) (looked_up t v)) (
            released t (looked_up t v) (
              rw c (
                Ends-weaken (λ d q. Found d × SameTuples held v.pg q) (λ d q. Found d) (λ q. F)
                  (λ q. F) _ (λ d q h. h.0) (λ q f. f)
                  (called _ (api.lookup_copy composite_type (api.typtypmod t v.pg)) v
                    (lookups (api.typtypmod t v.pg) (armed v))))))))
        (λ d v h. (h, refl))
    where
      Found : TupleDescriptor → Type 0
      Found = Describes composite_type columns

      looked_up : ℕ → Cpp P TupleDescriptor
      looked_up t v =
          if not (api.is_composite t v.pg)
          then throw (std_exception not_composite) v
          else ffi_guard errors (api.lookup_copy composite_type (api.typtypmod t v.pg)) v

      released :
          (t : ℕ) (o : Outcome P TupleDescriptor)
          → Ends (λ d q. Found d) (λ q. F) o
          → Ends (λ d q. Found d) (λ q. F) (settled (destroy errors cache t) o)
      released t (returns a v) h = h
      released t (throws e v) h = h
      released t (raises v) h = h
      released t terminates h = h

  -- To prepare a descriptor changes no tuple and leaves the handlers as they were.
  populate_from-Same :
      (d : TupleDescriptor) (left i : ℕ) (w : World P)
      → Ends (λ u. SameTuples held w.pg) (λ q. F) (populate_from errors memory cache api d left i w)
  unfolding populate_from
  populate_from-Same d zero i w = λ x. refl
  populate_from-Same d (suc left) i w =
      Ends-then (λ u. SameTuples held w.pg) (λ u. SameTuples held w.pg) (λ q. F)
        (λ u. populate_from errors memory cache api d left (suc i))
        (ffi_guard errors (api.populate d i)) w
        (called (λ u. SameTuples held w.pg) (api.populate d i) w (populates d i (armed w)))
        (λ u v same.
          Ends-weaken (λ u. SameTuples held v.pg) (λ u. SameTuples held w.pg) (λ q. F) (λ q. F) _
            (λ u q more x. more x ∙ same x) (λ q f. f) (populate_from-Same d left (suc i) v))

  populate_from-Restored :
      (d : TupleDescriptor) (left i : ℕ) (w : World P)
      → Restored w (populate_from errors memory cache api d left i w)
  unfolding populate_from
  populate_from-Restored d zero i w = (refl, refl, refl)
  populate_from-Restored d (suc left) i w =
      Restored-then (λ u. populate_from errors memory cache api d left (suc i))
        (ffi_guard errors (api.populate d i)) w (ffi_guard-Restored errors (api.populate d i) w)
        (λ u v. populate_from-Restored d left (suc i) v)

  -- A blessed descriptor is only prepared.
  pub to_tuple_desc-Same :
      (d : TupleDescriptor) (w : World P)
      → d.blessed ≡ true
      → Ends
          (λ e q. (e ≡ d) × SameTuples held w.pg q)
          (λ q. F)
          (to_tuple_desc errors memory cache api d w)
  unfolding to_tuple_desc
  to_tuple_desc-Same d w blessed = simp (blessed) (
      Ends-then (λ u. SameTuples held w.pg) (λ e q. (e ≡ d) × SameTuples held w.pg q) (λ q. F)
        (λ u. pure d) (populate_from errors memory cache api d (attributes d) 0) w
        (populate_from-Same d (attributes d) 0 w) (λ u v same. (refl, same)))

  to_tuple_desc-Restored :
      (d : TupleDescriptor) (w : World P) → Restored w (to_tuple_desc errors memory cache api d w)
  unfolding to_tuple_desc
  to_tuple_desc-Restored d w =
      Restored-then _ (populate_from errors memory cache api d (attributes d) 0) w
        (populate_from-Restored d (attributes d) 0 w) (λ u. once d.blessed)
    where
      numbered : Cpp P TupleDescriptor
      numbered = do e ← ffi_guard errors (api.bless d); pure (record e { blessed = true })

      once : (b : Bool) (v : World P) → Restored v ((if b then pure d else numbered) v)
      once true v = (refl, refl, refl)
      once false v =
          Restored-then _ (ffi_guard errors (api.bless d)) v
            (ffi_guard-Restored errors (api.bless d) v) (λ e u. (refl, refl, refl))

  -- A copy of a descriptor that is ready is ready.
  copy-Ends :
      (d : TupleDescriptor) (w : World P)
      → Ready d
      → Ends (λ e q. Ready e) (λ q. F) (copy errors memory cache api d w)
  unfolding copy
  copy-Ends d w ((cols, typ), blessed) =
      Ends-then (λ u. SameTuples held w.pg) (λ e q. Ready e) (λ q. F) _
        (populate_from errors memory cache api d (attributes d) 0) w
        (populate_from-Same d (attributes d) 0 w)
        (λ u v h.
          Ends-then (λ e q. (e.attrs ≡ d.attrs) × (e.tdtypeid ≡ d.tdtypeid)) (λ e q. Ready e)
            (λ q. F) _ (ffi_guard errors (api.copy_descriptor d)) v
            (called (λ e q. (e.attrs ≡ d.attrs) × (e.tdtypeid ≡ d.tdtypeid)) (api.copy_descriptor d)
              v (copies d (armed v)))
            (λ e y (a, t). ((a ∙ cols, t ∙ typ), blessed)))

  -- A record of the composite type, whose tuple holds the values.
  abbrev pub HoldsAll : List NullableDatum → Handle → P → Type 0
  HoldsAll ds r q =
      Describes composite_type columns r.tupdesc
      × (held q r.tuple ≡ zip (values_of ds) (nulls_of ds))

  pub of_values-Holds :
      (d : TupleDescriptor) (ds : List NullableDatum) (w : World P)
      → Ready d
      → AllHeld columns ds
      → Ends (HoldsAll ds) (λ q. F) (of_values errors memory cache api d ds w)
  unfolding of_values
  of_values-Holds d ds w ready all_held =
      Ends-then (λ e q. Ready e) (HoldsAll ds) (λ q. F) _ (copy errors memory cache api d) w
        (copy-Ends d w ready)
        (λ own v (described, blessed).
          guarded_after (λ e q. e ≡ own) (HoldsAll ds) (λ q. F) errors (λ c p f. f) _
            (to_tuple_desc errors memory cache api own) v
            (Ends-weaken (λ e q. (e ≡ own) × SameTuples held v.pg q) (λ e q. e ≡ own) (λ q. F)
              (λ q. F) _ (λ e q k. k.0) (λ q f. f) (to_tuple_desc-Same own (armed v) blessed))
            (to_tuple_desc-Restored own (armed v))
            (λ prepared u same.
              let describes : Describes composite_type columns prepared =
                (ap (λ e. e.attrs) same ∙ described.0, ap (λ e. e.tdtypeid) same ∙ described.1) in
              Calls-wrapped (λ t q. held q t ≡ zip (values_of ds) (nulls_of ds)) (HoldsAll ds)
                (λ q. F) (λ t. record { tupdesc = prepared; tuple = t })
                (api.form_tuple prepared (values_of ds) (nulls_of ds)) u
                (forms prepared ds u describes all_held) (λ t q k. (describes, k))))

  pub of_header-Holds :
      (ds : List NullableDatum) (y ctx : ℕ) (w : World P)
      → IsDatumOf api composite_type held ds y w.pg
      → Ends
          (λ r q. Ready r.tupdesc × (held q r.tuple ≡ zip (values_of ds) (nulls_of ds)))
          (λ q. F)
          (of_header errors memory cache api y ctx w)
  unfolding of_header
  of_header-Holds ds y ctx w (h, t) =
      let Done : Handle → P → Type 0 =
        λ r q. Ready r.tupdesc × (held q r.tuple ≡ zip (values_of ds) (nulls_of ds)) in
      rw t (
        Ends-then (λ d q. Describes composite_type columns d × SameTuples held w.pg q) Done (λ q. F)
          _ (ffi_guard errors (api.lookup_copy composite_type (api.header_typmod y w.pg))) w
          (called _ (api.lookup_copy composite_type (api.header_typmod y w.pg)) w
            (lookups (api.header_typmod y w.pg) (armed w)))
          (λ d u (cols, same).
            Ends-then (λ tuple. SameTuples held u.pg) Done (λ q. F) _
              (alloc errors memory ctx tuple_layout 1) u
              (alloc-Left (SameTuples held) F errors memory memory_leaves ctx tuple_layout 1 u)
              (λ tuple z kept. ((cols, refl), writes tuple y z.pg ∙ kept y ∙ same y ∙ h))))
