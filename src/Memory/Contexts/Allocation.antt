-- ===== src/Memory/Contexts/Allocation.antt =====
-- memory_context_allocator of memory.hpp: what `allocate` answers; and the scopes of a memory context.
use cppgres.Common.{if◌then◌else◌, ℕ, ◌*◌, ◌≤◌, ◌<◌, ◌^◌, ◌≡◌, refl, Bool, true, false, ltb, arith}
use cppgres.World.{
  std_exception, World, Outcome, returns, throws, raises, terminates, Cpp, bad_alloc,
}
use cppgres.Guard.{ErrorApi, ffi_guard, destroy_pg_exception}
use cppgres.Guard.Border.{ffi_guard_returns, ffi_guard_raises}
use cppgres.Guard.Restore.{armed, SameHandlers}
use cppgres.Guard.Outcomes.{Calls, settled, at_scope_end-settled}
use cppgres.Memory.Contexts.{
  MemoryApi, Layout, bytes, alloc, or_bad_alloc, fail_allocation, allocate, with_scope, execute,
}

-- `area` is the size of what was allocated at an address. MemoryContextAlloc gives an area of the
-- size that it is asked for, or raises an error.
abbrev pub Allocates : {P : Type 0} → (P → ℕ → ℕ) → ℕ → World P → Outcome P ℕ → Type 0
Allocates area n = Calls (λ a p. area p a ≡ n) (λ p. Unit)

module _ {P : Type 0} (area : P → ℕ → ℕ) (t : Layout) (n : ℕ) where
  -- An area for `n` objects if their size is a size_t, and a smaller one otherwise; or bad_alloc, in
  -- the memory context of the call. The handlers are as before.
  abbrev pub Answers : World P → Outcome P ℕ → Type 0
  Answers w (returns a v) =
      (t.size * n < 2 ^ 64 → area v.pg a ≡ t.size * n)
      × (2 ^ 64 ≤ t.size * n → area v.pg a < t.size * n)
      × SameHandlers w v
  Answers w (throws e v) =
      (e ≡ std_exception bad_alloc)
      × (v.current_memory_context ≡ w.current_memory_context)
      × SameHandlers w v
  Answers w (raises v) = ⊥
  Answers w terminates = ⊥

  module _ (errors : ErrorApi P) where
    Answers-outcome :
        (func : Cpp P ℕ) (w : World P) (o : Outcome P ℕ)
        → func (armed w) ≡ o
        → Allocates area (bytes t n) (armed w) o
        → Answers w (or_bad_alloc errors (ffi_guard errors func w))
    unfolding or_bad_alloc fail_allocation destroy_pg_exception bytes
    Answers-outcome func w (returns a v) e c =
        rw (ffi_guard_returns errors func w v a e)
          (λ small. omega (arith, c, small), λ big. omega (arith, c, big), (refl, refl, refl))
    Answers-outcome func w (throws x v) e c = absurd c
    Answers-outcome func w (raises v) e c =
        rw (ffi_guard_raises errors func w v e c.1) (refl, refl, (refl, refl, refl))
    Answers-outcome func w terminates e c = absurd c

    -- An allocator answers with an area that holds the objects if their size is a size_t, and with
    -- a smaller one if the size overflows; where Postgres raises an error it throws bad_alloc, in
    -- the memory context of the call; the handlers are put back.
    pub allocate-Answers :
        (api : MemoryApi P) (ctx : ℕ) (w : World P)
        → ((v : World P) → Allocates area (bytes t n) v (api.alloc ctx (bytes t n) v))
        → ((v : World P)
            → Allocates area (bytes t n) v (api.alloc_aligned ctx (bytes t n) t.align v))
        → Answers w (allocate errors api ctx t n w)
    unfolding allocate alloc
    allocate-Answers api ctx w plain aligned = over_aligned (ltb api.maximum_alignof t.align)
      where
        over_aligned :
            (b : Bool)
            → Answers w (
                or_bad_alloc errors (
                  (if b
                      then ffi_guard errors (api.alloc_aligned ctx (bytes t n) t.align)
                      else ffi_guard errors (api.alloc ctx (bytes t n)))
                    w))
        over_aligned true =
            Answers-outcome (api.alloc_aligned ctx (bytes t n) t.align) w _ refl (aligned (armed w))
        over_aligned false = Answers-outcome (api.alloc ctx (bytes t n)) w _ refl (plain (armed w))

-- What a scope, or an execution, of a memory context leaves of the way out of its block.
module _ {P A : Type 0} (ctx : ℕ) (block : Cpp P A) (w : World P) where
  abbrev pub in_context_again : Outcome P A → Outcome P A
  in_context_again = settled (λ v. record v { current_memory_context = w.current_memory_context })

  pub with_scope-in_context_again :
      with_scope ctx block w ≡ in_context_again (block (record w { current_memory_context = ctx }))
  unfolding with_scope
  with_scope-in_context_again = at_scope_end-settled _ (block _)

  pub execute-with_scope : execute ctx block w ≡ with_scope ctx block w
  unfolding with_scope execute
  execute-with_scope = refl
