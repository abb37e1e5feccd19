-- ===== src/Memory/Examples.antt =====
-- Tests of the memory contexts, and concrete cases of the theorems about them.
use cppgres.Common.{ℕ, ◌+◌, ◌≡◌, refl, false, List, [], ◌∷◌, ◌==◌, if◌then◌else◌, ==_self}
use cppgres.World.{World, returns, throws, raises, Cpp, std_exception, invalid_pointer}
use cppgres.Samples.{backend, plain_errors}
use cppgres.Guard.Outcomes.{Ends}
use cppgres.Memory.Contexts.{
  Callback, MemoryApi, Layout, construct, allocate, deallocate, for_pointer,
}
use cppgres.Memory.Contexts.Objects.{MemoryLaws, Registered, SameCallbacks, construct-Registers}
use cppgres.Memory.Contexts.Allocation.{Answers, allocate-Answers}

-- A Postgres that keeps the callbacks, what stands at an address, the next free address and the
-- sizes of the areas.
record Heap : Type 0 where
  callbacks : List ℕ
  at_address : ℕ → Callback
  next : ℕ
  sizes : ℕ → ℕ

abbrev no_callback : Callback
no_callback = record { func = 0; arg = 0 }

abbrev empty_heap : Heap
empty_heap = record { callbacks = []; at_address = λ a. no_callback; next = 800; sizes = λ a. 0 }

abbrev bump : ℕ → Cpp Heap ℕ
bump n w = returns w.pg.next (record w {
  pg = record w.pg {
    next = w.pg.next + 8;
    sizes = λ a. if a == w.pg.next then n else w.pg.sizes a;
  };
})

abbrev heap_api : MemoryApi Heap
heap_api = record {
  alloc = λ ctx n. bump n;
  alloc_aligned = λ ctx n a. bump n;
  pfree = λ p w. returns tt w;
  reset = λ c w. returns tt w;
  delete = λ c w. returns tt w;
  register_reset_callback =
      λ ctx cb w. returns tt (record w { pg = record w.pg { callbacks = cb ∷ w.pg.callbacks } });
  chunk_context = λ p w. returns 7 w;
  create = λ parent w. returns 9 w;
  write_callback = λ cb c p. record p { at_address = λ a. if a == cb then c else p.at_address a };
  maximum_alignof = 8;
}

abbrev no_memory_api : MemoryApi Heap
no_memory_api = record heap_api {
  alloc = λ ctx n w. raises w;
  alloc_aligned = λ ctx n a w. raises w;
}

abbrev a_vector : Layout
a_vector = record { size = 16; align = 8; trivially_destructible = false; destroyer = 77 }

abbrev makes_nothing : ℕ → Cpp Heap (Unit {0})
makes_nothing ptr w = returns tt w

-- The object stands at 800, its callback at 808.
construct_vector :
    (p : Heap) × (construct plain_errors heap_api 4 a_vector makes_nothing (backend empty_heap)
      ≡ returns 800 (backend p))
    × (p.callbacks ≡ 808 ∷ [])
    × (p.at_address 808 ≡ record { func = 77; arg = 800 })
unfolding construct cppgres.Guard.ffi_guard
construct_vector = (_, refl, refl, refl)

misaligned :
    (w : World Heap) × (for_pointer plain_errors heap_api 801 (backend empty_heap)
      ≡ throws (std_exception invalid_pointer) w)
unfolding for_pointer
misaligned = (_, refl)

heap_laws : MemoryLaws (λ p. p.callbacks) (λ p. p.at_address) plain_errors heap_api
heap_laws = record {
  errors_keep = λ c p. refl;
  allocs = λ ctx n w. refl;
  allocs_aligned = λ ctx n a w. refl;
  writes = λ cb c p. refl;
  written = λ cb c p. rw (==_self cb) refl;
  registers = λ ctx cb w. (refl, refl);
}

construct-Registers_example :
    Ends
      (λ ptr. Registered (λ p. p.callbacks) (λ p. p.at_address) false 77 empty_heap ptr)
      (SameCallbacks (λ p. p.callbacks) (λ p. p.at_address) empty_heap)
      (construct plain_errors heap_api 4 a_vector makes_nothing (backend empty_heap))
construct-Registers_example =
    construct-Registers (λ p. p.callbacks) (λ p. p.at_address) plain_errors heap_api heap_laws 4
      a_vector makes_nothing (backend empty_heap) (λ ptr w. refl)

allocate-Answers_example :
    Answers
      (λ p. p.sizes)
      a_vector
      3
      (backend empty_heap)
      (allocate plain_errors no_memory_api 4 a_vector 3 (backend empty_heap))
allocate-Answers_example =
    allocate-Answers (λ p. p.sizes) a_vector 3 plain_errors no_memory_api 4 (backend empty_heap)
      (λ v. (tt, refl)) (λ v. (tt, refl))

-- 2 ^ 60 objects of 16 bytes: the size wraps to nothing, and the allocation succeeds.
overflow :
    (w : World Heap) × (allocate plain_errors heap_api 4 a_vector 1152921504606846976
        (backend empty_heap)
      ≡ returns 800 w)
    × (w.pg.sizes 800 ≡ 0)
unfolding allocate cppgres.Memory.Contexts.alloc cppgres.Guard.ffi_guard
overflow = (_, refl, refl)
