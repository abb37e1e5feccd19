-- ===== src/Function/Outgoing/Strict.antt =====
-- `function<Ret, Args...>` of function.hpp: calls with and without nulls, and calls of functions that C++ exports.
use mathlib.Core.Path.{subst}
use cppgres.Common.{
  suc, [], ◌∷◌, arith, ℕ, ◌≡◌, refl, ap, ◌∙◌, Bool, true, false, ◌&&◌, none, some, ◌⊎◌, inl, inr,
  Bool-cases, List, map, length, ◌≤◌, if◌then◌else◌,
}
use cppgres.World.{World, Outcome, returns, Cpp, pure, after, ◌>>=◌}
use cppgres.Guard.{ErrorApi, ffi_guard, restored}
use cppgres.Guard.Restore.{armed}
use cppgres.Guard.Border.{ffi_guard_returns}
use cppgres.Datum.Nullable.{Result, ok, NullableDatum}
use cppgres.Datum.Types.{Oid, CppType, is}
use cppgres.Memory.Contexts.{MemoryApi}
use cppgres.Syscache.{CacheApi}
use cppgres.Function.{
  Answer as Back, Backend, Call, SetApi, valued, invoke, returns_set, return_type_of,
}
use cppgres.Function.Arguments.{converted}
use cppgres.Function.Values.{Given, called_in, left_in, invoke_value}
use cppgres.Function.Outgoing.{
  OutgoingApi, Function, Argument, any_nulls, fcinfo_argument, Returned, call_result,
  empty_or_throw, or_throw, call,
}

module _ {P R : Type 0} (errors : ErrorApi P) (memory : MemoryApi P) (cache : CacheApi P)
    (api : OutgoingApi P) (ret : Returned R) (f : Function) (args : List Argument) (flinfo : ℕ)
    (w v : World P) (found : api.fmgr_info f.oid (armed w) ≡ returns flinfo v) where
  abbrev pub fcinfo_args : List NullableDatum
  fcinfo_args = map fcinfo_argument args

  -- With a null for a strict function: the empty optional, or an exception. Otherwise: what the
  -- function gives, converted.
  abbrev pub Answer : Bool → Outcome P R → Type 0
  Answer true o = o ≡ empty_or_throw ret.empty_optional (restored w v)
  Answer false o =
      (r : NullableDatum) (x : R) (u : World P)
      → api.call_invoke flinfo (map fcinfo_argument args) (armed (restored w v)) ≡ returns r u
      → ret.from_nullable_datum (call_result r) f.rettype ≡ ok x
      → o ≡ returns x (restored (restored w v) u)

  pub call-Answer : Answer (any_nulls args && f.strict) (call errors memory cache api ret f args w)
  unfolding call or_throw
  call-Answer =
      rw (ffi_guard_returns errors (api.fmgr_info f.oid) w v flinfo found)
        (by_nulls (any_nulls args && f.strict))
    where
      by_nulls :
          (b : Bool)
          → Answer b (
              (if b then empty_or_throw ret.empty_optional else (do
                result ← ffi_guard errors (api.call_invoke flinfo (map fcinfo_argument args))
                or_throw (ret.from_nullable_datum (call_result result) f.rettype)))
                (restored w v))
      by_nulls true = refl
      by_nulls false = λ r x u e k.
          rw
            (
              ffi_guard_returns errors (api.call_invoke flinfo (map fcinfo_argument args))
                  (restored w v) u r e,
              k,
            )
            refl

-- What Postgres is to get for an argument: its datum, or a null.
abbrev pub given : Argument → NullableDatum
given none = record { value = 0; isnull = true }
given (some d) = record { value = d; isnull = false }

map-given : (args : List Argument) → map fcinfo_argument args ≡ map given args
unfolding fcinfo_argument
map-given [] = refl
map-given (none ∷ args) = ap (◌∷◌ (given none)) (map-given args)
map-given (some d ∷ args) = ap (◌∷◌ (given (some d))) (map-given args)

length-given : (args : List Argument) → length (map given args) ≡ length args
length-given [] = refl
length-given (a ∷ args) = ap suc (length-given args)

-- What comes back of a value: a null, or the value.
abbrev pub passed : NullableDatum → NullableDatum
passed d = if d.isnull then record { value = 0; isnull = true } else record d { isnull = false }

call_result-Given :
    {P A : Type 0} (is_composite : Oid → Bool) (errors : ErrorApi (Backend P)) (api : SetApi P)
    (convert : CppType → NullableDatum → Oid → Result A) (c : Call) (d : NullableDatum) (a : Back)
    → c.isnull ≡ false
    → Given is_composite errors api convert c d a
    → call_result (record { value = a.datum; isnull = a.isnull }) ≡ passed d
unfolding call_result
call_result-Given is_composite errors api convert c d a e g = elim (Bool-cases d.isnull) [
  | inl n ↦ rw (n, (g.1 n).1) refl
  | inr n ↦ rw (n, (g.0 n).1 ∙ e, (g.0 n).0) refl
]

-- No argument is null, or the function is not strict.
abbrev pub MayRun : Function → List Argument → Type 0
MayRun f args = (f.strict ≡ false) ⊎ ((ds : List ℕ) × (args ≡ map some ds))

any_nulls-some : (ds : List ℕ) → any_nulls (map some ds) ≡ false
unfolding any_nulls
any_nulls-some [] = refl
any_nulls-some (d ∷ ds) = any_nulls-some ds

runs : (f : Function) (args : List Argument) → MayRun f args → (any_nulls args && f.strict) ≡ false
runs f args (inl e) = rw e (and_false (any_nulls args))
  where
    and_false : (b : Bool) → (b && false) ≡ false
    and_false true = refl
    and_false false = refl
runs f args (inr (ds, e)) = rw (e, any_nulls-some ds) refl

-- A call through Postgres of a function that postgres_function exports: FunctionCallInvoke runs it on
-- the arguments, with fcinfo->isnull cleared.
module _ {P A : Type 0} (is_composite : Oid → Bool) (errors : ErrorApi (Backend P))
    (memory : MemoryApi (Backend P)) (cache : CacheApi (Backend P)) (api : OutgoingApi (Backend P))
    (set_api : SetApi P) (convert : CppType → NullableDatum → Oid → Result A) where
  abbrev pub Exported :
      CppType → (List A → Cpp (Backend P) NullableDatum) → List CppType → Call → ℕ → Type 0
  Exported t g ts c flinfo =
      (nds : List NullableDatum) (u : World (Backend P))
      → api.call_invoke flinfo nds u
        ≡ after (λ a. pure (record { value = a.datum; isnull = a.isnull }))
            (invoke is_composite errors set_api convert (valued t g) ts
              (record c { args = nds; isnull = false }) u)

  -- A call of a function of Postgres through function<Ret, Args...>, where the function is one
  -- that postgres_function exports from C++, runs the C++ function on the converted arguments,
  -- with the flags of their nulls, and returns the conversion of its result, which is a null if
  -- the C++ function returned a null, when its types accept the call, no argument is null or the
  -- function is not strict, and it returns with the stack of running calls as it found it.
  pub call-Exported :
      {R : Type 0} (ret : Returned R) (f : Function) (args : List Argument) (flinfo : ℕ)
      (t : CppType) (g : List A → Cpp (Backend P) NullableDatum) (ts : List CppType) (c : Call)
      (xs : List A) (d : NullableDatum) (x : R) (w v u : World (Backend P))
      → api.fmgr_info f.oid (armed w) ≡ returns flinfo v
      → Exported t g ts c flinfo
      → MayRun f args
      → returns_set c ≡ false
      → is is_composite t (return_type_of c) ≡ true
      → length ts ≤ length args
      → converted is_composite convert ts (record c { args = map given args; isnull = false }) 0
        ≡ some xs
      → g xs (called_in is_composite errors set_api convert c.fcinfo (armed (restored w v)))
        ≡ returns d u
      → u.pg.calls ≡ c.fcinfo ∷ v.pg.calls
      → ret.from_nullable_datum (passed d) f.rettype ≡ ok x
      → call errors memory cache api ret f args w
        ≡ returns x (
            restored
              (restored w v)
              (left_in is_composite errors set_api convert (armed (restored w v)) u))
  unfolding returns_set return_type_of
  call-Exported ret f args flinfo t g ts c xs d x w v u found exported nulls s r l k h m e =
      let run : Call = record c { args = map given args; isnull = false } in
      let inside : World (Backend P) = armed (restored w v) in
      let (a, ran, back) =
        invoke_value is_composite errors set_api convert t g ts run xs d inside u s r
          (omega (arith, l, length-given args)) k h m in
      subst
        (λ b.
          Answer errors memory cache api ret f args flinfo w v found b
            (call errors memory cache api ret f args w))
        (runs f args nulls) (call-Answer errors memory cache api ret f args flinfo w v found)
        (record { value = a.datum; isnull = a.isnull }) x
        (left_in is_composite errors set_api convert inside u)
        (ap (λ nds. api.call_invoke flinfo nds inside) (map-given args)
          ∙ exported (map given args) inside
          ∙ ap (after (λ a. pure (record { value = a.datum; isnull = a.isnull }))) ran)
        (ap (λ r. ret.from_nullable_datum r f.rettype)
            (call_result-Given is_composite errors set_api convert run d a refl back)
          ∙ e)
