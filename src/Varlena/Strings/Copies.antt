-- ===== src/Varlena/Strings/Copies.antt =====
-- Strings and byte arrays of types.hpp: what goes into a datum comes out of it.
use cppgres.Common.{ℕ, ◌+◌, ◌≡◌, ap, ◌∙◌, Bool, true, Option, none, some, List, length}
use cppgres.World.{World, ◌>>=◌}
use cppgres.Guard.{ErrorApi, ffi_guard}
use cppgres.Guard.Restore.{armed}
use cppgres.Guard.Outcomes.{Ends, Ends-then, guarded}
use cppgres.Memory.Contexts.{MemoryApi}
use cppgres.Varlena.{Held, VarlenaApi, varhdrsz, construct, view, make_bytea}
use cppgres.Varlena.Bytes.{
  Same, FitsVarlena, BytesLaws, Holds, construct-Holds, make_bytea-Holds, view-Reads,
}
use cppgres.Varlena.Strings.{
  get_datum, from_datum, string_from_datum, string_into_datum, byte_array_into_datum,
}

module _ {P : Type 0} (errors : ErrorApi (Held P)) (memory : MemoryApi (Held P))
    (api : VarlenaApi P) (plain : ℕ → P → Bool) (F : Type 0)
    (laws : BytesLaws api plain F memory) where
  open laws use {memory_leaves, written}

  -- A datum whose bytes stand in memory.
  abbrev pub Stands : List ℕ → ℕ → Held P → Type 0
  Stands t d h = (api.contents d h.server ≡ t) × (plain d h.server ≡ true)

  string_from_datum-Reads :
      (t : List ℕ) (top d : ℕ) (ctx : Option ℕ) (w : World (Held P))
      → Stands t d w.pg
      → Ends (λ read h. read ≡ t) (λ h. F) (string_from_datum errors memory api top d ctx w)
  unfolding string_from_datum from_datum construct
  string_from_datum-Reads t top d ctx w stands =
      Ends-then (λ u h. (s : ℕ) × Holds api plain d t s h) (λ read h. read ≡ t) (λ h. F)
        (λ u. view errors memory api) (construct errors memory api top d ctx) w (made ctx)
        (λ u v (s, ready). view-Reads errors memory api plain F laws d t s v ready)
    where
      made :
          (c : Option ℕ)
          → Ends
              (λ u h. (s : ℕ) × Holds api plain d t s h)
              (λ h. F)
              (construct errors memory api top d c w)
      made none = construct-Holds errors memory api plain F laws d t top top w stands.0 stands.1
      made (some c) = construct-Holds errors memory api plain F laws d t top c w stands.0 stands.1

  string_into_datum-Stands :
      (t : List ℕ) (w : World (Held P))
      → FitsVarlena api plain t
      → Ends (Stands t) (λ h. F) (string_into_datum errors memory api t w)
  unfolding string_into_datum
  string_into_datum-Stands t w fits =
      Ends-then (λ d. Same api plain w.pg) (Stands t) (λ h. F) _
        (ffi_guard errors (memory.alloc w.current_memory_context (length t + varhdrsz))) w
        (guarded (λ d. Same api plain w.pg) (λ h. F) errors (λ c p h. h)
          (memory.alloc w.current_memory_context (length t + varhdrsz)) w
          (memory_leaves.allocs w.current_memory_context (length t + varhdrsz) (armed w)))
        (λ d v same. written d t v.pg.server fits)

  byte_array_into_datum-Stands :
      (t : List ℕ) (top : ℕ) (w : World (Held P))
      → FitsVarlena api plain t
      → Ends (Stands t) (λ h. F) (byte_array_into_datum errors memory api top t w)
  unfolding byte_array_into_datum get_datum
  byte_array_into_datum-Stands t top w fits =
      Ends-then (λ u h. (place : ℕ) × (s : ℕ) × Holds api plain place t s h) (Stands t) (λ h. F)
        (λ u. get_datum errors memory api)
        (make_bytea errors memory api t top w.current_memory_context) w
        (make_bytea-Holds errors memory api plain F laws t top w.current_memory_context w fits)
        (λ u v (place, s, ready). (
          ap (λ d. api.contents d v.pg.server) ready.0 ∙ ready.3,
          ap (λ d. plain d v.pg.server) ready.0 ∙ ready.4,
        ))

  -- Where no call of Postgres fails, a string that is converted into a datum, and a byte array
  -- that is converted into a datum by a bytea, are read back from it with the same bytes, for a
  -- given memory context and for none; if a call fails, an exception is thrown. Conditions: the
  -- length with the header is below 2 ^ 30; a value that is written with such a size is plain (not
  -- toasted) and stays in memory, and a plain value is its own detoasted form.
  pub strings_round_trip :
      (t : List ℕ) (top : ℕ) (ctx : Option ℕ) (w : World (Held P))
      → FitsVarlena api plain t
      → Ends
          (λ read h. read ≡ t)
          (λ h. F)
          ((string_into_datum errors memory api t >>= λ d.
              string_from_datum errors memory api top d ctx)
            w)
        × Ends
            (λ read h. read ≡ t)
            (λ h. F)
            ((byte_array_into_datum errors memory api top t >>= λ d.
                string_from_datum errors memory api top d ctx)
              w)
  strings_round_trip t top ctx w fits = (
    Ends-then (Stands t) (λ read h. read ≡ t) (λ h. F)
        (λ d. string_from_datum errors memory api top d ctx) (string_into_datum errors memory api t)
        w (string_into_datum-Stands t w fits)
        (λ d v stands. string_from_datum-Reads t top d ctx v stands),
    Ends-then (Stands t) (λ read h. read ≡ t) (λ h. F)
        (λ d. string_from_datum errors memory api top d ctx)
        (byte_array_into_datum errors memory api top t) w
        (byte_array_into_datum-Stands t top w fits)
        (λ d v stands. string_from_datum-Reads t top d ctx v stands),
  )
