-- ===== src/Function/Frame.antt =====
-- function.hpp: a call of a function as the code sees it, and the stack of running calls of current_postgres_function.
use cppgres.Common.{ℕ, Bool, true, not, Option, none, some, List, [], ◌∷◌, if◌then◌else◌, get_elem?}
use cppgres.World.{World, Cpp, pure, modify, throw, at_scope_end, std_exception}
use cppgres.Datum.Nullable.{Result, ok, err, NullableDatum, get_datum}
use cppgres.Datum.Types.{Oid, invalid_oid, same_oid, CppType}
use cppgres.Record.{TupleDescriptor}

-- `calls` is the static member, its top first; `server` is what Postgres keeps.
pub record Backend (P : Type 0) : Type 0 where
  pub calls : List ℕ
  pub server : P

-- FunctionCallInfo, with what Postgres answers of the expression of the call (rettype, argtypes),
-- and the row of pg_proc of the function (the fields that begin with pro).
pub record Call : Type 0 where
  pub fcinfo : ℕ
  pub rettype : Oid
  pub retset : Bool
  pub argtypes : List Oid
  pub prorettype : Oid
  pub proretset : Bool
  pub proargtypes : List Oid
  pub args : List NullableDatum
  pub isnull : Bool
  -- resultinfo is not a null pointer, and what it points to
  pub has_resultinfo : Bool
  -- expectedDesc, for a set of records, and the types that SPI_gettypeid reads of it
  pub expected_desc : Option TupleDescriptor
  pub expected : List Oid
  pub per_query_memory : ℕ

-- The Datum, and fc->isnull.
pub record Answer : Type 0 where
  pub datum : ℕ
  pub isnull : Bool

-- What the loop over a set calls in Postgres.
pub record SetApi (P : Type 0) : Type 0 where
  pub tuplestore_begin_heap : Cpp (Backend P) (Unit {0})
  pub check_for_interrupts : Cpp (Backend P) (Unit {0})
  pub tuplestore_putvalues : List ℕ → List Bool → Cpp (Backend P) (Unit {0})
  pub tuplestore_puttuple : ℕ → Cpp (Backend P) (Unit {0})

-- A record of a set: its descriptor, and the tuple that it is put into the store as.
pub record RecordRow : Type 0 where
  pub descriptor : TupleDescriptor
  pub tuple : ℕ

-- The wrapped function by its kind of return type: void, a type with its conversion, a range of
-- tuples or a range of records, each step of which may do something.
pub data Func (P A : Type 0) : Type 0 where
  procedure : (List A → Cpp (Backend P) (Unit {0})) → Func P A
  valued : CppType → (List A → Cpp (Backend P) NullableDatum) → Func P A
  set_of :
      List CppType
      → (List A → Cpp (Backend P) (List (Cpp (Backend P) (List NullableDatum))))
      → Func P A
  records_of : (List A → Cpp (Backend P) (List (Cpp (Backend P) RecordRow))) → Func P A

-- OidIsValid
abbrev pub valid : Oid → Bool
valid o = not (same_oid o invalid_oid)

abbrev pub oid_at : List Oid → ℕ → Oid
oid_at os i = elim (get_elem? os i) [ none ↦ invalid_oid | some o ↦ o ]

abbrev pub argument : Call → ℕ → NullableDatum
argument c i = elim (get_elem? c.args i) [ none ↦ record { value = 0; isnull = true } | some d ↦ d ]

-- the look-ups in pg_proc for a call without an expression
unfoldable pub return_type_of : Call → Oid
return_type_of c = if valid c.rettype then c.rettype else c.prorettype

unfoldable pub returns_set : Call → Bool
returns_set c = if valid c.rettype then c.retset else c.proretset

unfoldable pub argument_type : Call → ℕ → Oid
argument_type c i =
    if valid (oid_at c.argtypes i) then oid_at c.argtypes i else oid_at c.proargtypes i

-- `if (nd.is_null()) { fc->isnull = true; return ::Datum(0); }`
unfoldable pub answer : Call → NullableDatum → Answer
answer c d =
    if d.isnull
    then record { datum = 0; isnull = true }
    else record { datum = d.value; isnull = c.isnull }

-- `values`: the conversion of a nullable_datum to a ::Datum throws for a null
unfoldable pub datums : List NullableDatum → Result (List ℕ)
unfolding get_datum
datums [] = ok []
datums (d ∷ ds) = elim (get_datum d) [
  | ok v ↦ elim (datums ds) [ ok vs ↦ ok (v ∷ vs) | err x ↦ err x ]
  | err x ↦ err x
]

abbrev pub rest_of : List ℕ → List ℕ
rest_of [] = []
rest_of (x ∷ xs) = xs

module _ {P : Type 0} where
  unfoldable pub lift : {T : Type 0} → Result T → Cpp (Backend P) T
  lift (ok t) = pure t
  lift (err x) = throw (std_exception x)

  -- memory_context_scope around the rest of a block
  unfoldable pub in_context : {T : Type 0} → ℕ → Cpp (Backend P) T → Cpp (Backend P) T
  in_context ctx m w =
      at_scope_end (m (record w { current_memory_context = ctx }))
        (modify (λ v. record v { current_memory_context = w.current_memory_context }))

  -- current_postgres_function::push, and the destructor of its handle
  abbrev pub push : ℕ → World (Backend P) → World (Backend P)
  push fc w = record w { pg = record { calls = fc ∷ w.pg.calls; server = w.pg.server } }

  abbrev pub pop : World (Backend P) → World (Backend P)
  pop w = record w { pg = record { calls = rest_of w.pg.calls; server = w.pg.server } }

  unfoldable pub with_call : {T : Type 0} → ℕ → Cpp (Backend P) T → Cpp (Backend P) T
  with_call fc m w = at_scope_end (m (push fc w)) (modify pop)

-- current_postgres_function::call_info()
unfoldable pub call_info : {P : Type 0} → World (Backend P) → Option ℕ
call_info w = elim w.pg.calls [ [] ↦ none | fc ∷ rest ↦ some fc ]
