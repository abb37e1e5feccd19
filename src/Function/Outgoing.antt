-- ===== src/Function/Outgoing.antt =====
-- `function<Ret, Args...>` of function.hpp: a function of Postgres as C++ calls it.
pub mod Checks
pub mod Strict
mod Examples
use cppgres.Common.{
  ℕ, Bool, true, false, not, ◌&&◌, ◌||◌, Option, none, some, List, [], ◌∷◌, map, ◌==◌,
  if◌then◌else◌, length,
}
use cppgres.World.{
  What, World, Cpp, pure, ◌>>=◌, ◌>>◌, throw, at_scope_end, std_exception, invalid_type, null_datum,
  wrong_number_of_values, unexpected_argument_type, unexpected_return_type,
}
use cppgres.Guard.{ErrorApi, ffi_guard}
use cppgres.Datum.Nullable.{Result, ok, err, NullableDatum}
use cppgres.Datum.Types.{Oid, number, same_oid, invalid_oid, unknown_oid}
use cppgres.Memory.Contexts.{MemoryApi, execute, delete_context}
use cppgres.Syscache.{CacheApi, with_syscache}

-- The row of pg_proc.
pub record ProcRow : Type 0 where
  pub proargtypes : List Oid
  pub prorettype : Oid
  pub proisstrict : Bool

-- The calls of Postgres: the list of the parts of a name (makeString and list_make, which are not
-- guarded), LookupFuncName, the struct of a tuple of pg_proc, format_type_be, fmgr_info,
-- FunctionCallInvoke (the result, and fcinfo->isnull) and getTypeOutputInfo.
pub record OutgoingApi (P : Type 0) : Type 0 where
  pub make_name_list : List ℕ → Cpp P ℕ
  pub lookup_func_name : ℕ → List Oid → Cpp P Oid
  pub proc_row : ℕ → P → ProcRow
  pub format_type : Oid → Cpp P (Unit {0})
  pub fmgr_info : Oid → Cpp P ℕ
  pub call_invoke : ℕ → List NullableDatum → Cpp P NullableDatum
  pub type_output_info : Oid → Cpp P Oid

-- PROCOID
abbrev pub procoid : ℕ
procoid = 45

-- The members of the class; its types are parameters of the definitions.
pub record Function : Type 0 where
  pub oid : Oid
  pub rettype : Oid
  pub strict : Bool

-- An argument, converted: its datum, or nothing for std::nullopt and an empty optional.
abbrev pub Argument : Type 0
Argument = Option ℕ

-- `isnull` over the arguments, for any_nulls
unfoldable pub any_nulls : List Argument → Bool
any_nulls [] = false
any_nulls (none ∷ args) = true
any_nulls (some d ∷ args) = any_nulls args

-- the value, `datum(0)` for nothing, and the null flag
unfoldable pub fcinfo_argument : Argument → NullableDatum
fcinfo_argument none = record { value = 0; isnull = true }
fcinfo_argument (some d) = record { value = d; isnull = false }

-- The conversion of the return type: from a nullable datum of a type, and the empty value if the
-- return type is an optional.
pub record Returned (R : Type 0) : Type 0 where
  pub from_nullable_datum : NullableDatum → Oid → Result R
  pub empty_optional : Option R

-- the result of FunctionCallInvoke, or null if fcinfo->isnull
unfoldable pub call_result : NullableDatum → NullableDatum
call_result r = if r.isnull then record { value = 0; isnull = true } else r

-- types[i] != type{UNKNOWNOID} && arg != types[i].oid
unfoldable pub differs : Oid → Oid → Bool
differs wanted actual = not (same_oid wanted unknown_oid) && not (same_oid actual wanted)

module _ {P : Type 0} where
  unfoldable pub or_throw : {T : Type 0} → Result T → Cpp P T
  or_throw (ok t) = pure t
  or_throw (err e) = throw (std_exception e)

  -- `return std::nullopt`, or `throw null_datum_exception()`
  unfoldable pub empty_or_throw : {R : Type 0} → Option R → Cpp P R
  empty_or_throw none = throw (std_exception null_datum)
  empty_or_throw (some empty) = pure empty

module _ {P : Type 0} (errors : ErrorApi P) (memory : MemoryApi P) (cache : CacheApi P)
    (api : OutgoingApi P) where
  -- the lambda of function(schema, name) and function(name): LookupFuncName in a memory context of
  -- its own
  unfoldable pub look_up : List ℕ → List Oid → Cpp P Oid
  look_up names arg_types w =
      (do
        ctx ← ffi_guard errors (memory.create w.current_memory_context)
        (λ v.
            at_scope_end
              (execute ctx
                (do
                  fname ← api.make_name_list names
                  ffi_guard errors (api.lookup_func_name fname arg_types))
                v)
              (delete_context errors memory ctx)))
        w

  -- type::name(), for a message
  unfoldable pub name : Oid → Cpp P (Unit {0})
  name o =
      if same_oid o invalid_oid
      then throw (std_exception invalid_type)
      else ffi_guard errors (api.format_type o)

  -- a `throw` whose message names two types
  unfoldable pub throw_types : Oid → Oid → What → Cpp P (Unit {0})
  unfolding name
  throw_types a b text = do name a; name b; throw (std_exception text)

  -- the loop over the argument types, as many on both sides
  unfoldable pub check_types : List Oid → List Oid → Cpp P (Unit {0})
  unfolding differs throw_types
  check_types (wanted ∷ types) (actual ∷ argtypes) =
      (if differs wanted actual
        then throw_types wanted actual unexpected_argument_type
        else pure tt)
      >> check_types types argtypes
  check_types _ _ = pure tt

  -- the test of the return type
  unfoldable pub check_return_type : Oid → Oid → Cpp P (Unit {0})
  unfolding differs throw_types
  check_return_type wanted actual =
      if differs wanted actual then throw_types wanted actual unexpected_return_type else pure tt

  -- the body of function(oid), with the row of the function
  unfoldable pub checked_function : List Oid → Oid → Oid → ProcRow → Cpp P Function
  unfolding check_types check_return_type
  checked_function arg_types ret_type oid row = do
    (if not (length row.proargtypes == length arg_types)
        then throw (std_exception wrong_number_of_values)
        else pure tt)
    check_types arg_types row.proargtypes
    check_return_type ret_type row.prorettype
    pure (record { oid = oid; rettype = row.prorettype; strict = row.proisstrict })

  -- function(oid)
  unfoldable pub construct : List Oid → Oid → Oid → Cpp P Function
  unfolding checked_function
  construct arg_types ret_type oid =
      with_syscache errors cache procoid (number oid ∷ [])
        (λ tuple w. checked_function arg_types ret_type oid (api.proc_row tuple w.pg) w)

  -- function(schema, name) and function(name)
  unfoldable pub construct_by_name : List Oid → Oid → List ℕ → Cpp P Function
  unfolding look_up construct
  construct_by_name arg_types ret_type names = do
    oid ← look_up names arg_types
    construct arg_types ret_type oid

  -- operator()(args...)
  unfoldable pub call : {R : Type 0} → Returned R → Function → List Argument → Cpp P R
  unfolding empty_or_throw or_throw any_nulls fcinfo_argument call_result
  call ret f args = do
    flinfo ← ffi_guard errors (api.fmgr_info f.oid)
    (if any_nulls args && f.strict then empty_or_throw ret.empty_optional else (do
      result ← ffi_guard errors (api.call_invoke flinfo (map fcinfo_argument args))
      or_throw (ret.from_nullable_datum (call_result result) f.rettype)))

  -- output_function<T>() and its overloads, for the type of T
  unfoldable pub output_function : Oid → Oid → Cpp P Function
  unfolding construct
  output_function cstring typ = do
    foutoid ← ffi_guard errors (api.type_output_info typ)
    construct (typ ∷ []) cstring foutoid
