-- ===== src/Datum/Types.antt =====
-- type_traits of type.hpp, types.hpp, role.hpp, value.hpp, function.hpp and record.hpp: which Postgres types a C++ type takes, and which one it goes by.
use cppgres.Common.{ℕ, ◌+◌, Bool, true, ◌||◌, ◌==◌}

-- The types that the library names; `custom` is any other one, by its OID.
pub data Oid : Type 0 where
  invalid_oid internal_oid void_oid oid_oid any_oid record_oid : Oid
  bool_oid int8_oid int4_oid int2_oid float8_oid float4_oid : Oid
  text_oid bytea_oid cstring_oid unknown_oid regrole_oid regprocedure_oid : Oid
  regproc_oid : Oid
  custom : ℕ → Oid

-- A number for each, to compare them by.
unfoldable pub number : Oid → ℕ
number invalid_oid = 0
number internal_oid = 1
number void_oid = 2
number oid_oid = 3
number any_oid = 4
number record_oid = 5
number bool_oid = 6
number int8_oid = 7
number int4_oid = 8
number int2_oid = 9
number float8_oid = 10
number float4_oid = 11
number text_oid = 12
number bytea_oid = 13
number cstring_oid = 14
number unknown_oid = 15
number regrole_oid = 16
number regprocedure_oid = 17
number regproc_oid = 18
number (custom n) = 19 + n

unfoldable pub same_oid : Oid → Oid → Bool
unfolding number
same_oid a b = number a == number b

-- The C++ types with a specialisation of type_traits. `expanded` and `composite` are class
-- templates over a type of the program that names its own Postgres type; `value` may carry one.
pub data CppType : Type 0 where
  void_ptr void oid nullable_datum datum : CppType
  bool int64 int32 int16 int8 double float : CppType
  text string_view string byte_array bytea : CppType
  char_ptr const_char_ptr char_array : CppType
  role record_type function any_value : CppType
  value_of : Oid → CppType
  expanded : Oid → CppType
  composite : Oid → CppType
  optional : CppType → CppType
  tuple_of_one : CppType → CppType
  tuple_of : ℕ → CppType

module _ (is_composite : Oid → Bool) where
  -- type_traits<T>().is(t); `is_composite` is the look-up of typtype in the system cache
  unfoldable pub is : CppType → Oid → Bool
  unfolding same_oid
  is void_ptr t = same_oid t internal_oid
  is void t = same_oid t void_oid
  is oid t = same_oid t oid_oid
  is nullable_datum t = true
  is datum t = true
  is bool t = same_oid t bool_oid
  is int64 t = same_oid t int8_oid || (same_oid t int4_oid || same_oid t int2_oid)
  is int32 t = same_oid t int4_oid || same_oid t int2_oid
  is int16 t = same_oid t int2_oid
  is int8 t = same_oid t int2_oid
  is double t = same_oid t float8_oid || same_oid t float4_oid
  is float t = same_oid t float4_oid
  is text t = same_oid t text_oid
  is string_view t = same_oid t text_oid
  is string t = same_oid t text_oid
  is byte_array t = same_oid t bytea_oid
  is bytea t = same_oid t bytea_oid
  is char_ptr t = same_oid t cstring_oid
  is const_char_ptr t = same_oid t cstring_oid
  is char_array t = same_oid t cstring_oid
  is role t = same_oid t oid_oid || same_oid t regrole_oid
  is record_type t = same_oid t record_oid || is_composite t
  is function t = same_oid t regprocedure_oid || (same_oid t oid_oid || same_oid t regproc_oid)
  is any_value t = true
  is (value_of o) t = same_oid o t
  is (expanded o) t = same_oid t o
  is (composite o) t = same_oid t o || is_composite t
  is (optional a) t = is a t
  is (tuple_of_one a) t = same_oid t record_oid || is a t
  is (tuple_of n) t = same_oid t record_oid

-- type_traits<T>().type_for()
unfoldable pub type_for : CppType → Oid
type_for void_ptr = internal_oid
type_for void = void_oid
type_for oid = oid_oid
type_for nullable_datum = any_oid
type_for datum = any_oid
type_for bool = bool_oid
type_for int64 = int8_oid
type_for int32 = int4_oid
type_for int16 = int2_oid
type_for int8 = int2_oid
type_for double = float8_oid
type_for float = float4_oid
type_for text = text_oid
type_for string_view = text_oid
type_for string = text_oid
type_for byte_array = bytea_oid
type_for bytea = bytea_oid
type_for char_ptr = cstring_oid
type_for const_char_ptr = cstring_oid
type_for char_array = cstring_oid
type_for role = regrole_oid
type_for record_type = record_oid
type_for function = regprocedure_oid
type_for any_value = unknown_oid
type_for (value_of o) = o
type_for (expanded o) = o
type_for (composite o) = o
type_for (optional a) = type_for a
type_for (tuple_of_one a) = record_oid
type_for (tuple_of n) = record_oid
