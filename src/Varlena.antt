-- ===== src/Varlena.antt =====
-- non_by_value_type, varlena, text and bytea of type.hpp: values that stand in memory of Postgres, and the pointers to them.
pub mod Pointers
pub mod Bytes
pub mod Expanded
pub mod Strings
mod Sample
mod Examples
use cppgres.Common.{
  ℕ, ◌+◌, Bool, true, false, not, ◌&&◌, Option, none, some, List, ◌==◌, ltb, if◌then◌else◌, length,
}
use cppgres.World.{World, Cpp, pure, ◌>>=◌, ◌>>◌, modify, throw, std_exception, pointer_gone}
use cppgres.Guard.{ErrorApi, ffi_guard}
use cppgres.Memory.Contexts.{MemoryApi, Callback, Layout, alloc, register_reset_callback}

-- The members of a varlena. A tracking_memory_context is a memory context with the number of its
-- callback_state; `detoasted` is nullptr, 0, until the value was detoasted.
pub record Varlena : Type 0 where
  pub value_datum : ℕ
  pub ctx : ℕ
  pub state : ℕ
  pub detoasted : ℕ
  pub detoasted_state : Option ℕ

-- What Postgres keeps, with the object: a call that throws may have changed it.
pub record Held (P : Type 0) : Type 0 where
  pub object : Varlena
  pub server : P

-- Making a callback_state (std::make_shared) and its counter of resets; pg_detoast_datum; the bytes
-- behind the header of a varlena (VARDATA_ANY with VARSIZE_ANY_EXHDR), and writing a header and bytes
-- behind it (SET_VARSIZE, and std::copy to VARDATA_ANY).
pub record VarlenaApi (P : Type 0) : Type 0 where
  pub make_state : Cpp (Held P) ℕ
  pub resets : ℕ → P → ℕ
  pub detoast : ℕ → Cpp (Held P) ℕ
  pub contents : ℕ → P → List ℕ
  pub write_varlena : ℕ → List ℕ → P → P

-- the function track_reset
abbrev pub track_reset : ℕ
track_reset = 1

-- VARHDRSZ, and the layout of a std::byte
abbrev pub varhdrsz : ℕ
varhdrsz = 4

abbrev pub byte_layout : Layout
byte_layout = record { size = 1; align = 1; trivially_destructible = true; destroyer = 0 }

module _ {P : Type 0} where
  abbrev pub with_object : Varlena → World (Held P) → World (Held P)
  with_object o w = record w { pg = record { object = o; server = w.pg.server } }

module _ {P : Type 0} (errors : ErrorApi (Held P)) (memory : MemoryApi (Held P))
    (api : VarlenaApi P) where
  -- tracking_memory_context(C ctx)
  unfoldable pub track : ℕ → Cpp (Held P) ℕ
  track ctx = do
    state ← api.make_state
    cb ← register_reset_callback errors memory ctx (record { func = track_reset; arg = state })
    pure state

  -- the test of a tracker
  unfoldable pub gone : ℕ → World (Held P) → Bool
  gone state w = ltb 0 (api.resets state w.pg.server)

  -- non_by_value_type(datum, ctx), where `top` is TopMemoryContext; varlena adds nothing
  unfoldable pub construct : ℕ → ℕ → Option ℕ → Cpp (Held P) (Unit {0})
  unfolding track
  construct top datum ctx =
      let c : ℕ = elim ctx [ none ↦ top | some c ↦ c ] in
      do
        state ← track c
        modify (
            with_object (record {
              value_datum = datum;
              ctx = c;
              state = state;
              detoasted = 0;
              detoasted_state = none;
            }))

  -- ptr(tracked)
  unfoldable pub ptr : Bool → Cpp (Held P) ℕ
  unfolding gone
  ptr tracked w =
      if tracked && gone w.pg.object.state w
      then throw (std_exception pointer_gone) w
      else pure w.pg.object.value_datum w

  -- the test of detoasted_ctx, and the pointer
  unfoldable pub cached_ptr : Option ℕ → Cpp (Held P) ℕ
  unfolding gone
  cached_ptr none w = pure w.pg.object.detoasted w
  cached_ptr (some state) w =
      if gone state w then throw (std_exception pointer_gone) w else pure w.pg.object.detoasted w

  -- detoasted_ctx = ctx, or detoasted_ctx.emplace(memory_context())
  unfoldable pub track_detoasted : ℕ → ℕ → Cpp (Held P) (Unit {0})
  unfolding track
  track_detoasted d source w =
      if d == source
      then modify (with_object (record w.pg.object { detoasted_state = some w.pg.object.state })) w
      else (do
        state ← track w.current_memory_context
        modify (λ v. with_object (record v.pg.object { detoasted_state = some state }) v))
          w

  -- the rest of detoasted_ptr(), for a value that was not detoasted yet
  unfoldable pub detoast : Cpp (Held P) ℕ
  unfolding ptr track_detoasted
  detoast = do
    source ← ptr true
    d ← ffi_guard errors (api.detoast source)
    modify (λ v. with_object (record v.pg.object { detoasted = d }) v)
    track_detoasted d source
    pure d

  -- detoasted_ptr()
  unfoldable pub detoasted_ptr : Cpp (Held P) ℕ
  unfolding cached_ptr detoast
  detoasted_ptr w =
      if not (w.pg.object.detoasted == 0)
      then cached_ptr w.pg.object.detoasted_state w
      else detoast w

  -- text::operator std::string_view() and bytea::operator byte_array(): the pointer is asked for
  -- twice
  unfoldable pub view : Cpp (Held P) (List ℕ)
  unfolding detoasted_ptr
  view = do
    start ← detoasted_ptr
    sized ← detoasted_ptr
    (λ w. pure (api.contents sized w.pg.server) w)

  -- bytea(ba, ctx)
  unfoldable pub make_bytea : List ℕ → ℕ → ℕ → Cpp (Held P) (Unit {0})
  unfolding construct
  make_bytea ba top ctx = do
    place ← alloc errors memory ctx byte_layout (varhdrsz + length ba)
    modify (λ w. record w {
      pg = record { object = w.pg.object; server = api.write_varlena place ba w.pg.server };
    })
    construct top place (some ctx)
