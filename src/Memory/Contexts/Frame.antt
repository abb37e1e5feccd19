-- ===== src/Memory/Contexts/Frame.antt =====
-- `alloc` and `register_reset_callback` of memory.hpp: what the calls below them leave alone, they leave alone.
use cppgres.Common.{ℕ, Bool, true, false, ltb, if◌then◌else◌}
use cppgres.World.{World, Cpp, pure, ◌>>◌, modify}
use cppgres.Guard.{ErrorApi, ffi_guard}
use cppgres.Guard.Restore.{armed}
use cppgres.Guard.Outcomes.{Ends, Calls, Ends-then, guarded}
use cppgres.Memory.Contexts.{
  Callback, MemoryApi, Layout, callback_layout, bytes, alloc, register_reset_callback,
}

-- A relation between what Postgres keeps before and after, which holds across each call; `F` is the
-- condition under which calls fail.
module _ {P : Type 0} (R : P → P → Type 0) (F : Type 0) where
  pub record Leaves (memory : MemoryApi P) : Type 0 where
    pub reflexive : (p : P) → R p p
    pub transitive : (p q r : P) → R p q → R q r → R p r
    pub allocs : (ctx n : ℕ) (w : World P) → Calls (λ a. R w.pg) (λ p. F) w (memory.alloc ctx n w)
    pub allocs_aligned :
        (ctx n a : ℕ) (w : World P)
        → Calls (λ a. R w.pg) (λ p. F) w (memory.alloc_aligned ctx n a w)
    pub registers :
        (ctx cb : ℕ) (w : World P)
        → Calls (λ a. R w.pg) (λ p. F) w (memory.register_reset_callback ctx cb w)
    pub writes : (cb : ℕ) (c : Callback) (p : P) → R p (memory.write_callback cb c p)

  module _ (errors : ErrorApi P) (memory : MemoryApi P) (leaves : Leaves memory) where
    open leaves use {reflexive, transitive, allocs, allocs_aligned, registers, writes}

    pub guarded_Left :
        {T : Type 0} (func : Cpp P T) (w : World P)
        → Calls (λ a. R w.pg) (λ p. F) (armed w) (func (armed w))
        → Ends (λ a. R w.pg) (λ p. F) (ffi_guard errors func w)
    guarded_Left func w = guarded (λ a. R w.pg) (λ p. F) errors (λ c p h. h) func w

    pub alloc-Left :
        (ctx : ℕ) (t : Layout) (n : ℕ) (w : World P)
        → Ends (λ a. R w.pg) (λ p. F) (alloc errors memory ctx t n w)
    unfolding alloc
    alloc-Left ctx t n w = aligned_or_not (ltb memory.maximum_alignof t.align)
      where
        aligned_or_not :
            (b : Bool)
            → Ends
                (λ a. R w.pg)
                (λ p. F)
                ((if b
                    then ffi_guard errors (memory.alloc_aligned ctx (bytes t n) t.align)
                    else ffi_guard errors (memory.alloc ctx (bytes t n)))
                  w)
        aligned_or_not true =
            guarded_Left (memory.alloc_aligned ctx (bytes t n) t.align) w
              (allocs_aligned ctx (bytes t n) t.align (armed w))
        aligned_or_not false =
            guarded_Left (memory.alloc ctx (bytes t n)) w (allocs ctx (bytes t n) (armed w))

    pub register_reset_callback-Left :
        (ctx : ℕ) (c : Callback) (w : World P)
        → Ends (λ cb. R w.pg) (λ p. F) (register_reset_callback errors memory ctx c w)
    unfolding register_reset_callback
    register_reset_callback-Left ctx c w =
        Ends-then (λ cb. R w.pg) (λ cb. R w.pg) (λ p. F)
          (λ cb.
            modify (λ w. record w { pg = memory.write_callback cb c w.pg })
            >> ffi_guard errors (memory.register_reset_callback ctx cb)
            >> pure cb)
          (alloc errors memory ctx callback_layout 1) w (alloc-Left ctx callback_layout 1 w)
          (λ cb v h.
            let x : World P = record v { pg = memory.write_callback cb c v.pg } in
            Ends-then (λ u. R x.pg) (λ cb. R w.pg) (λ p. F) (λ u. pure cb)
              (ffi_guard errors (memory.register_reset_callback ctx cb)) x
              (guarded_Left (memory.register_reset_callback ctx cb) x (registers ctx cb (armed x)))
              (λ u y k.
                transitive w.pg v.pg y.pg h (transitive v.pg x.pg y.pg (writes cb c v.pg) k)))
