-- ===== src/Varlena/Strings.antt =====
-- The conversions of texts, strings and byte arrays of types.hpp, over varlena.
pub mod Copies
mod Examples
use cppgres.Common.{ℕ, ◌+◌, Option, some, List, length}
use cppgres.World.{World, Cpp, pure, ◌>>=◌, ◌>>◌, modify}
use cppgres.Guard.{ErrorApi, ffi_guard}
use cppgres.Memory.Contexts.{MemoryApi}
use cppgres.Varlena.{Held, VarlenaApi, varhdrsz, construct, view, make_bytea}

module _ {P : Type 0} (errors : ErrorApi (Held P)) (memory : MemoryApi (Held P))
    (api : VarlenaApi P) where
  -- get_datum()
  unfoldable pub get_datum : Cpp (Held P) ℕ
  get_datum w = pure w.pg.object.value_datum w

  -- from_datum of text and bytea: the object is made; `top` is TopMemoryContext
  unfoldable pub from_datum : ℕ → ℕ → Option ℕ → Cpp (Held P) (Unit {0})
  from_datum top d ctx = construct errors memory api top d ctx

  -- from_datum of std::string_view, std::string and byte_array
  unfoldable pub string_from_datum : ℕ → ℕ → Option ℕ → Cpp (Held P) (List ℕ)
  unfolding from_datum
  string_from_datum top d ctx = from_datum top d ctx >> view errors memory api

  -- into_datum of std::string_view and std::string, whose size leaves room for a header
  unfoldable pub string_into_datum : List ℕ → Cpp (Held P) ℕ
  string_into_datum t w =
      (do
        result ← ffi_guard errors (memory.alloc w.current_memory_context (length t + varhdrsz))
        modify (λ v. record v {
          pg = record { object = v.pg.object; server = api.write_varlena result t v.pg.server };
        })
        pure result)
        w

  -- into_datum of byte_array: by a bytea in the current context
  unfoldable pub byte_array_into_datum : ℕ → List ℕ → Cpp (Held P) ℕ
  unfolding get_datum
  byte_array_into_datum top t w =
      (make_bytea errors memory api t top w.current_memory_context >> get_datum) w
