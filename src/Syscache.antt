-- ===== src/Syscache.antt =====
-- syscache.hpp: a tuple of the system cache, pinned as long as the object lives.
pub mod Pins
pub mod Naming
mod Examples
use cppgres.Common.{ℕ, Option, none, some, List, ℤ, if◌then◌else◌}
use cppgres.World.{
  World, Cpp, pure, ◌>>=◌, modify, throw, at_scope_end, std_exception, invalid_tuple,
}
use cppgres.Guard.{ErrorApi, ffi_guard}
use cppgres.Datum.Nullable.{
  Result, ok, err, NullableDatum, Conversion, from_nullable_datum, of_datum,
}

-- SearchSysCache (the cache and up to four keys; a null pointer is none), ReleaseSysCache and
-- SysCacheGetAttr.
pub record CacheApi (P : Type 0) : Type 0 where
  pub search : ℕ → List ℕ → Cpp P (Option ℕ)
  pub release : ℕ → P → P
  pub get_attr : ℕ → ℕ → ℤ → Cpp P NullableDatum

-- `if (!HeapTupleIsValid(tuple))`
unfoldable pub valid_tuple : {P : Type 0} → Option ℕ → Cpp P ℕ
valid_tuple none = throw (std_exception invalid_tuple)
valid_tuple (some t) = pure t

module _ {P : Type 0} (errors : ErrorApi P) (api : CacheApi P) where
  -- syscache(cache_id, key...)
  unfoldable pub construct : ℕ → List ℕ → Cpp P ℕ
  unfolding valid_tuple
  construct cache_id keys = do
    tuple ← ffi_guard errors (api.search cache_id keys)
    valid_tuple tuple

  -- ~syscache()
  unfoldable pub destroy : ℕ → World P → World P
  destroy tuple w = record w { pg = api.release tuple w.pg }

  -- a block with a syscache object, which a constructor that throws leaves without one
  unfoldable pub with_syscache : {A : Type 0} → ℕ → List ℕ → (ℕ → Cpp P A) → Cpp P A
  unfolding construct destroy
  with_syscache cache_id keys block = do
    tuple ← construct cache_id keys
    (λ w. at_scope_end (block tuple w) (modify (destroy tuple)))

  -- get_attribute<V>(attr)
  unfoldable pub get_attribute : {V : Type 0} → Conversion V → ℕ → ℕ → ℤ → Cpp P (Option V)
  unfolding of_datum
  get_attribute conversion cache_id tuple attr = do
    ret ← ffi_guard errors (api.get_attr cache_id tuple attr)
    (if ret.isnull then pure none else elim (from_nullable_datum conversion (of_datum ret.value)) [
      | ok v ↦ pure (some v)
      | err e ↦ throw (std_exception e)
    ])
