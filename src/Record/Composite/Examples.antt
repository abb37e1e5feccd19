-- ===== src/Record/Composite/Examples.antt =====
-- A composite type of two columns, whose tuples are arrays of values, as a concrete case of the round trip.
use cppgres.Common.{
  ℕ, zero, suc, ◌≡◌, refl, true, false, Option, none, some, List, [], ◌∷◌, ◌==◌, ◌∙◌, ==_self,
  if◌then◌else◌, get_elem?, pos, inl, inr,
}
use cppgres.World.{returns}
use cppgres.Samples.{backend, plain_errors}
use cppgres.Guard.Outcomes.{Ends}
use cppgres.Datum.Nullable.{ok, err, NullableDatum}
use cppgres.World.{null_datum, ◌>>=◌}
use cppgres.Memory.Contexts.{MemoryApi}
use cppgres.Syscache.{CacheApi}
use cppgres.Record.{Attribute}
use cppgres.Record.Composite.{
  TupleApi, Field, into_datums, composite_into_datum, composite_from_datum,
}
use cppgres.Record.Composite.Tuples.{zip, TupleLaws}
use cppgres.Record.Composite.Fields.{composite_round_trip}

-- What Postgres keeps are the values of the tuples at the addresses.
abbrev Tuples : Type 0
Tuples = ℕ → List NullableDatum

abbrev put : ℕ → List NullableDatum → Tuples → Tuples
put t ds tuples u = if u == t then ds else tuples u

abbrev null : NullableDatum
null = record { value = 0; isnull = true }

abbrev memory : MemoryApi Tuples
memory = record {
  alloc = λ ctx n w. returns 800 w;
  alloc_aligned = λ ctx n a w. returns 800 w;
  pfree = λ a w. returns tt w;
  reset = λ ctx w. returns tt w;
  delete = λ ctx w. returns tt w;
  register_reset_callback = λ ctx cb w. returns tt w;
  chunk_context = λ a w. returns 4 w;
  create = λ ctx w. returns 40 w;
  write_callback = λ cb c p. p;
  maximum_alignof = 8;
}

abbrev cache : CacheApi Tuples
cache = record {
  search = λ c keys w. returns (some 7) w;
  release = λ t p. p;
  get_attr = λ c t n w. returns null w;
}

abbrev column : ℕ → Attribute
column typ = record {
  atttypid = typ;
  attname = "c";
  attlen = pos 8;
  attstorage = 112;
  attalign = 100;
  atttypmod = pos 0;
  attbyval = true;
  attcollation = 0;
  attisdropped = false;
}

abbrev columns : List Attribute
columns = column 20 ∷ column 23 ∷ []

abbrev attribute_at : ℕ → List NullableDatum → NullableDatum
attribute_at zero ds = null
attribute_at (suc n) ds = elim (get_elem? ds n) [ none ↦ null | some d ↦ d ]

abbrev api : TupleApi Tuples
api = record {
  create_template = λ n w. returns [] w;
  lookup_copy =
      λ oid typmod w. returns (record { attrs = columns; tdtypeid = oid; blessed = false }) w;
  bless = λ d w. returns d w;
  format_type = λ o w. returns tt w;
  populate = λ d i w. returns tt w;
  copy_descriptor = λ d w. returns d w;
  form_tuple = λ d vs ns w. returns 20 (record w { pg = put 20 (zip vs ns) w.pg });
  copy_as_datum = λ t d w. returns 30 (record w { pg = put 30 (w.pg t) w.pg });
  detoast = λ x w. returns x w;
  getattr = λ t n d w. returns (attribute_at n (w.pg t)) w;
  is_composite = λ t p. true;
  typtypmod = λ t p. pos 0;
  header_type = λ x p. 100;
  header_typmod = λ x p. pos 0;
  write_tuple = λ t x p. put t (p x) p;
}

laws : TupleLaws ⊥ 100 columns (λ p. p) memory cache api
laws = record {
  memory_leaves = record {
    reflexive = λ p x. refl;
    transitive = λ p q r f g x. g x ∙ f x;
    allocs = λ ctx n w x. refl;
    allocs_aligned = λ ctx n a w x. refl;
    registers = λ ctx cb w x. refl;
    writes = λ cb c p x. refl;
  };
  searches = λ w. (7, refl, refl);
  lookups = λ typmod w. ((refl, refl), λ x. refl);
  populates = λ d i w x. refl;
  copies = λ d w. (refl, refl);
  forms = λ d ds w described all_held. refl;
  copies_as_datum = λ t d w described. (refl, refl);
  detoasts = λ x w. (refl, refl);
  writes = λ t x p. rw (==_self t) refl;
  getattrs = λ t n d nd w described e. (rw (attribute_at, e) refl, λ x. refl);
}

-- An optional bigint, and an integer that is never null.
abbrev optional : Field (Option ℕ)
optional = record {
  from_nullable_datum = λ d typ. if d.isnull then ok none else ok (some d.value);
  into_nullable_datum = λ v. elim v [ none ↦ null | some n ↦ record { value = n; isnull = false } ];
}

abbrev plain : Field (Option ℕ)
plain = record {
  from_nullable_datum = λ d typ. if d.isnull then err null_datum else ok (some d.value);
  into_nullable_datum = λ v. elim v [ none ↦ null | some n ↦ record { value = n; isnull = false } ];
}

composite_round_trip_example :
    Ends
      (λ read q. read ≡ none ∷ some 5 ∷ [])
      (λ q. ⊥)
      ((do
        d ←
            composite_into_datum plain_errors memory cache api
              (optional ∷ plain ∷ [])
              100
              (none ∷ some 5 ∷ [])
        composite_from_datum plain_errors memory cache api (optional ∷ plain ∷ []) 100 d 100 none)
        (backend (λ x. [])))
unfolding into_datums
composite_round_trip_example =
    composite_round_trip plain_errors memory cache api ⊥ 100 columns (λ p. p) laws
      (optional ∷ plain ∷ []) (none ∷ some 5 ∷ []) none (backend (λ x. []))
      (λ typ. refl, (λ typ. refl, tt)) (inl refl, (inr (refl, refl), tt)) refl
