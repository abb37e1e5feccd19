-- ===== src/Varlena/Expanded.antt =====
-- expanded_varlena of type.hpp: a value that stands in memory as an object, and is flat elsewhere.
pub mod Flat
mod Examples
use cppgres.Common.{ℕ, ◌+◌, ◌-◌, Bool, true, Option, none, some, List, if◌then◌else◌}
use cppgres.World.{World, Cpp, pure, ◌>>=◌, ◌>>◌, modify, throw, std_exception, not_expanded}
use cppgres.Guard.{ErrorApi, ffi_guard}
use cppgres.Memory.Contexts as Contexts
use cppgres.Memory.Contexts.{MemoryApi, Layout, alloc, execute, register_reset_callback}
use cppgres.Varlena.{Held, VarlenaApi, ptr, detoasted_ptr}
use cppgres.Varlena as Plain

-- The members of a flattenable class with values in `V`: restore_from, flat_size and flatten_into,
-- which gives the bytes for a buffer of a size; and the layout of `expanded`, whose destroyer is the
-- destructor of the class.
pub record Flattenable (P V : Type 0) : Type 0 where
  pub restore_from : List ℕ → Cpp (Held P) V
  pub flat_size : V → ℕ
  pub flatten_into : V → ℕ → List ℕ
  pub layout : Layout

-- VARATT_IS_EXTERNAL_EXPANDED, DatumGetEOHP and EOHPGetRWDatum; EOH_init_header for an object in a
-- context; and the value in the member `inner` of an object.
pub record ExpandedApi (P V : Type 0) : Type 0 where
  pub is_expanded : ℕ → P → Bool
  pub header_of : ℕ → P → ℕ
  pub rw_datum : ℕ → P → ℕ
  pub init_header : ℕ → ℕ → Cpp (Held P) (Unit {0})
  pub inner : ℕ → P → V
  pub put_inner : ℕ → V → P → P

-- sizeof(int32_t)
abbrev pub header_size : ℕ
header_size = 4

module _ {P V : Type 0} (errors : ErrorApi (Held P)) (memory : MemoryApi (Held P))
    (api : VarlenaApi P) (t : Flattenable P V) (expanded : ExpandedApi P V) where
  -- memory_context(std::move(alloc_set_memory_context()))
  unfoldable pub new_context : Cpp (Held P) ℕ
  new_context w = ffi_guard errors (memory.create w.current_memory_context) w

  -- init(hdr, ctx)
  unfoldable pub init : ℕ → ℕ → Cpp (Held P) (Unit {0})
  init hdr ctx = ffi_guard errors (expanded.init_header hdr ctx)

  -- allocate_expanded(args...), where `make` is the constructor with its arguments: the object and
  -- its context
  unfoldable pub allocate_expanded : (ℕ → Cpp (Held P) (Unit {0})) → Cpp (Held P) (ℕ × ℕ)
  unfolding new_context init
  allocate_expanded make = do
    ctx ← new_context
    execute ctx
        (do e ← Contexts.construct errors memory ctx t.layout make; init e ctx; pure (e, ctx))

  -- expanded_varlena(args...): what is returned is the member detoasted_value
  unfoldable pub construct : ℕ → (ℕ → Cpp (Held P) (Unit {0})) → Cpp (Held P) (Option ℕ)
  unfolding allocate_expanded
  construct top make = do
    (e, ctx) ← allocate_expanded make
    Plain.construct errors memory api top e (some ctx)
    pure (some e)

  -- the last part of operator T&(), for a value that is flat
  unfoldable pub restore : Cpp (Held P) ℕ
  unfolding new_context init
  restore = do
    ptr1 ← detoasted_ptr errors memory api
    ctx ← new_context
    value ← alloc errors memory ctx t.layout 1
    sized ← detoasted_ptr errors memory api
    bytes ← (λ w. pure (api.contents sized w.pg.server) w)
    inner ← t.restore_from bytes
    modify (λ w. record w {
      pg = record { object = w.pg.object; server = expanded.put_inner value inner w.pg.server };
    })
    cb ←
        register_reset_callback errors memory ctx
          (record { func = t.layout.destroyer; arg = value })
    init value ctx
    pure value

  -- operator T&(): the object whose `inner` is returned, which detoasted_value then points to
  unfoldable pub inner_of : Option ℕ → Cpp (Held P) ℕ
  unfolding restore
  inner_of (some e) = pure e
  inner_of none = do
    source ← ptr errors memory api true
    (λ w.
        if expanded.is_expanded source w.pg.server
        then pure (expanded.header_of w.pg.object.value_datum w.pg.server) w
        else restore w)

  -- get_expanded_datum()
  unfoldable pub get_expanded_datum : Option ℕ → Cpp (Held P) ℕ
  get_expanded_datum none = throw (std_exception not_expanded)
  get_expanded_datum (some e) = λ w. pure (expanded.rw_datum e w.pg.server) w

  -- The methods that Postgres calls: get_flat_size, and flatten_into with the size it was given
  unfoldable pub get_flat_size : ℕ → Cpp (Held P) ℕ
  get_flat_size e w = pure (t.flat_size (expanded.inner e w.pg.server) + header_size) w

  unfoldable pub flatten_into : ℕ → ℕ → ℕ → Cpp (Held P) (Unit {0})
  flatten_into e result allocated_size = modify (λ w.
      let buffer : List ℕ =
        t.flatten_into (expanded.inner e w.pg.server) (allocated_size - header_size) in
      record w {
        pg = record { object = w.pg.object; server = api.write_varlena result buffer w.pg.server };
      })
