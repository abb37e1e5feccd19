-- ===== src/Function/Outgoing/Examples.antt =====
-- Functions of Postgres that C++ calls, at concrete values.
use cppgres.Common.{
  ℕ, suc, ◌-◌, ◌==◌, if◌then◌else◌, ==-eq_false, ◌≡◌, refl, Bool, true, false, inr, none, some,
  List, [], ◌∷◌, arith,
}
use cppgres.World.{World, returns, Cpp, pure, after}
use cppgres.Samples.{backend, plain_errors}
use cppgres.Guard.Outcomes.{Ends}
use cppgres.Datum.Nullable.{Result, ok, NullableDatum}
use cppgres.Datum.Types
use cppgres.Datum.Types.{Oid, CppType, is, same_oid, int4_oid, bool_oid, void_oid, regproc_oid}
use cppgres.Memory.Contexts.{MemoryApi}
use cppgres.Syscache.{CacheApi}
use cppgres.Syscache.Pins.{SamePins, PinLaws}
use cppgres.Function.{
  Backend, Call, SetApi, valued, invoke, returns_set, return_type_of, argument_type,
}
use cppgres.Function.Outgoing.{ProcRow, OutgoingApi, Function, Returned, differs, construct, call}
use cppgres.Function.Outgoing.Checks.{construct-Accepts}
use cppgres.Function.Outgoing.Strict.{call-Exported}

abbrev B : Type 0
B = Backend (Unit {0})

abbrev memory : {P : Type 0} → MemoryApi P
memory = record {
  alloc = λ ctx n w. returns 800 w;
  alloc_aligned = λ ctx n a w. returns 800 w;
  pfree = λ p w. returns tt w;
  reset = λ c w. returns tt w;
  delete = λ c w. returns tt w;
  register_reset_callback = λ ctx cb w. returns tt w;
  chunk_context = λ p w. returns 7 w;
  create = λ parent w. returns 9 w;
  write_callback = λ cb c p. p;
  maximum_alignof = 8;
}

abbrev cache : CacheApi B
cache = record {
  search = λ c keys w. returns (some 7) w;
  release = λ t p. p;
  get_attr = λ c t n w. returns (record { value = 1; isnull = false }) w;
}

abbrev sets : SetApi (Unit {0})
sets = record {
  tuplestore_begin_heap = pure tt;
  check_for_interrupts = pure tt;
  tuplestore_putvalues = λ vs ns. pure tt;
  tuplestore_puttuple = λ t. pure tt;
}

abbrev convert : CppType → NullableDatum → Oid → Result ℕ
convert t d o = ok d.value

abbrev simple : Oid → Bool
simple o = false

abbrev first_or : List ℕ → NullableDatum
first_or [] = record { value = 0; isnull = true }
first_or (a ∷ rest) = record { value = a; isnull = false }

-- The identity on int4, exported from C++.
abbrev identity : List ℕ → Cpp B NullableDatum
identity args = pure (first_or args)

abbrev one_int : Call
one_int = record {
  fcinfo = 8;
  rettype = int4_oid;
  retset = false;
  argtypes = int4_oid ∷ [];
  prorettype = int4_oid;
  proretset = false;
  proargtypes = int4_oid ∷ [];
  args = [];
  isnull = false;
  has_resultinfo = false;
  expected_desc = none;
  expected = [];
  per_query_memory = 6;
}

abbrev row : ProcRow
row = record { proargtypes = int4_oid ∷ []; prorettype = int4_oid; proisstrict = true }

abbrev api : OutgoingApi B
api = record {
  make_name_list = λ names w. returns 5 w;
  lookup_func_name = λ n ts w. returns regproc_oid w;
  proc_row = λ t p. row;
  format_type = λ o w. returns tt w;
  fmgr_info = λ o w. returns 33 w;
  call_invoke = λ flinfo nds u.
      after (λ a. pure (record { value = a.datum; isnull = a.isnull }))
        (invoke simple plain_errors sets convert (valued Types.int32 identity) (Types.int32 ∷ [])
          (record one_int { args = nds; isnull = false }) u);
  type_output_info = λ o w. returns regproc_oid w;
}

abbrev start : World B
start = backend (record { calls = []; server = tt })

abbrev number_returned : Returned ℕ
number_returned = record { from_nullable_datum = λ d o. ok d.value; empty_optional = none }

abbrev the_function : Function
the_function = record { oid = regproc_oid; rettype = int4_oid; strict = true }

call-Exported_example :
    call plain_errors memory cache api number_returned the_function (some 5 ∷ []) start
    ≡ returns 5 start
unfolding is returns_set return_type_of argument_type
call-Exported_example =
    call-Exported simple plain_errors memory cache api sets convert number_returned the_function
      (some 5 ∷ []) 33 Types.int32 identity (Types.int32 ∷ []) one_int (5 ∷ [])
      (record { value = 5; isnull = false }) 5 start _ _ refl (λ nds u. refl) (inr (5 ∷ [], refl))
      refl refl (omega arith) refl refl refl refl

-- A cache with one tuple, 7; what Postgres keeps are the pins on it.
abbrev pins : ℕ → ℕ → ℕ
pins p t = if t == 7 then p else 0

abbrev pinning : CacheApi ℕ
pinning = record {
  search = λ c keys w. returns (some 7) (record w { pg = suc w.pg });
  release = λ t p. p - 1;
  get_attr = λ c t n w. returns (record { value = 1; isnull = false }) w;
}

unpinned : (t p q : ℕ) → pins q t ≡ suc (pins p t) → (u : ℕ) → pins (q - 1) u ≡ pins p u
unpinned t p q h u = ground arith

pin_laws : PinLaws pins (true ≡ false) plain_errors pinning
pin_laws = record {
  searches = λ c keys w. (refl, λ u n. rw (==-eq_false u 7 n) refl);
  releases = λ t p q h. unpinned t p q h.0;
  errors_keep = λ c p t. refl;
}

abbrev plain_api : OutgoingApi ℕ
plain_api = record {
  make_name_list = λ names w. returns 5 w;
  lookup_func_name = λ n ts w. returns regproc_oid w;
  proc_row = λ t p. row;
  format_type = λ o w. returns tt w;
  fmgr_info = λ o w. returns 33 w;
  call_invoke = λ flinfo nds w. returns (record { value = 1; isnull = false }) w;
  type_output_info = λ o w. returns regproc_oid w;
}

-- No call fails and the types agree, so it returns.
construct-Accepts_example :
    Ends
      (λ f q.
        ((true ≡ true) × (f ≡ record { oid = regproc_oid; rettype = int4_oid; strict = true }))
        × SamePins pins 0 q)
      (λ q. (true ≡ false) × SamePins pins 0 q)
      (construct plain_errors memory pinning plain_api
        (int4_oid ∷ [])
        int4_oid
        regproc_oid
        (backend 0))
unfolding differs same_oid
construct-Accepts_example =
    construct-Accepts plain_errors memory pinning plain_api pins (true ≡ false) pin_laws
      (int4_oid ∷ []) int4_oid regproc_oid row (backend 0) (λ t p o w h. h) (λ t p h. refl) (λ e. e)
