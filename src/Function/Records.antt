-- ===== src/Function/Records.antt =====
-- `postgres_function` of function.hpp: what a set of records puts into the tuple store.
use cppgres.Common.{ℕ, ◌≡◌, ◌⊎◌, Bool, true, false, Option, none, some, List, [], ◌∷◌, ◌++◌, map}
use cppgres.World.{World, Cpp, pure}
use cppgres.Guard.{ErrorApi}
use cppgres.Guard.Outcomes.{Calls}
use cppgres.Record.{TupleDescriptor, equal_types}
use cppgres.Datum.Types.{Oid}
use cppgres.Function.{Backend, SetApi, RecordRow}

-- The first record has the types of expectedDesc, where Postgres gives one.
abbrev pub first_fits : Option TupleDescriptor → List RecordRow → Bool
first_fits none rs = true
first_fits (some d) [] = true
first_fits (some d) (r ∷ rs) = equal_types r.descriptor d

abbrev pub tuples : List RecordRow → List ℕ
tuples = map (λ r. r.tuple)

abbrev pub returned : {P : Type 0} → List RecordRow → List (Cpp P RecordRow)
returned = map pure

-- `stored` is what the tuple store of the call holds. A tuple store is made empty, and takes the
-- tuples in order; where a call fails, `F` holds.
module _ {P : Type 0} (F : Type 0) (stored : Backend P → List ℕ) where
  pub record StoreLaws (api : SetApi P) : Type 0 where
    pub begins :
        (w : World (Backend P))
        → Calls (λ u p. stored p ≡ []) (λ p. F) w (api.tuplestore_begin_heap w)
    pub puts :
        (t : ℕ) (w : World (Backend P))
        → Calls (λ u p. stored p ≡ stored w.pg ++ (t ∷ [])) (λ p. F) w (api.tuplestore_puttuple t w)

module _ {P : Type 0} (is_composite : Oid → Bool) (errors : ErrorApi (Backend P)) (api : SetApi P)
    (F : Type 0) (stored : Backend P → List ℕ) (laws : StoreLaws F stored api) where
  open laws use {begins, puts}

  -- An error leaves the loop when a call failed or the first record does not fit.
  abbrev pub Refused : Option TupleDescriptor → List RecordRow → Backend P → Type 0
  Refused expected rs p = F ⊎ (first_fits expected rs ≡ false)
