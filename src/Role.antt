-- ===== src/Role.antt =====
-- role.hpp: roles, and the scope in which code runs as another role.
pub mod Identity
mod Examples
use Prim.Native.Nat.{bit_or, bit_and}
use cppgres.Common.{ℕ, Bool, not, ◌%◌, ◌^◌, ◌==◌, if◌then◌else◌}
use cppgres.World.{World, Cpp, at_scope_end, modify}
use cppgres.Guard.{ErrorApi, ffi_guard}

-- The calls of Postgres. The functions of the current user and of the security context cannot fail.
pub record RoleApi (P : Type 0) : Type 0 where
  pub get_current_role_id : P → ℕ
  pub get_user_id : P → ℕ
  pub get_role_oid : ℕ → Cpp P ℕ
  pub get_user_name_from_id : ℕ → Cpp P ℕ
  pub is_member_of_role : ℕ → ℕ → Cpp P Bool
  pub is_member_of_role_nosuper : ℕ → ℕ → Cpp P Bool
  pub get_user_id_and_sec_context : P → ℕ × ℕ
  pub set_user_id_and_sec_context : ℕ → ℕ → P → P

-- SECURITY_LOCAL_USERID_CHANGE, SECURITY_RESTRICTED_OPERATION and SECURITY_NOFORCE_RLS are single
-- bits, so that a set of flags is a number of three bits.
pub data SecurityContextFlag : Type 0 where
  security_none security_local_user_id_change security_restricted_operation : SecurityContextFlag
  security_noforce_rls : SecurityContextFlag

unfoldable pub flag_bits : SecurityContextFlag → ℕ
flag_bits security_none = 0
flag_bits security_local_user_id_change = 1
flag_bits security_restricted_operation = 2
flag_bits security_noforce_rls = 4

-- operator| and operator& of flags
unfoldable pub both_flags : ℕ → ℕ → ℕ
both_flags a b = bit_or a b

unfoldable pub common_flags : ℕ → ℕ → ℕ
common_flags a b = bit_and a b

module _ {P : Type 0} (errors : ErrorApi P) (api : RoleApi P) where
  -- role()
  unfoldable pub current_role : P → ℕ
  current_role p =
      if not (api.get_current_role_id p == 0) then api.get_current_role_id p else api.get_user_id p

  -- role(role_name)
  unfoldable pub by_name : ℕ → Cpp P ℕ
  by_name role_name = ffi_guard errors (api.get_role_oid role_name)

  -- name()
  unfoldable pub name : ℕ → Cpp P ℕ
  name role = ffi_guard errors (api.get_user_name_from_id role)

  -- is_member(other, ignore_superuser)
  unfoldable pub is_member : ℕ → ℕ → Bool → Cpp P Bool
  is_member role other ignore_superuser = ffi_guard errors (
      if ignore_superuser
      then api.is_member_of_role_nosuper role other
      else api.is_member_of_role role other)

  -- A block that declares a security_context: the constructor, and the destructor on its way out
  unfoldable pub with_security_context : {A : Type 0} → ℕ → ℕ → Cpp P A → Cpp P A
  with_security_context role context block w =
      let (user, ctx) = api.get_user_id_and_sec_context w.pg in
      at_scope_end (block (record w { pg = api.set_user_id_and_sec_context role context w.pg }))
        (modify (λ v. record v { pg = api.set_user_id_and_sec_context user ctx v.pg }))

-- datum_conversion<role>: a Datum of 64 bits is cut to an Oid of 32
unfoldable pub from_datum : ℕ → ℕ
from_datum d = d % 2 ^ 32

unfoldable pub into_datum : ℕ → ℕ
into_datum role = role
