-- ===== src/Memory/Contexts.antt =====
-- abstract_memory_context, memory_context, the scopes that switch the current context and memory_context_allocator of memory.hpp.
pub mod Objects
pub mod Allocation
pub mod Frame
use cppgres.Common.{ℕ, suc, ◌*◌, ◌%◌, ◌^◌, Bool, not, ◌||◌, ◌==◌, ltb, if◌then◌else◌}
use cppgres.World.{
  What, PgException, Exn, pg_exception, std_exception, foreign_exception, World, Outcome, returns,
  throws, raises, terminates, Cpp, pure, ◌>>=◌, ◌>>◌, modify, throw, noexcept, at_scope_end, caught,
  invalid_pointer, bad_alloc,
}
use cppgres.Guard.{ErrorApi, ffi_guard, destroy_pg_exception}

-- A MemoryContextCallback: the function and its argument.
pub record Callback : Type 0 where
  pub func : ℕ
  pub arg : ℕ

-- MemoryContextAlloc, MemoryContextAllocAligned (context, size and alignment), pfree,
-- MemoryContextReset, MemoryContextDelete, MemoryContextRegisterResetCallback, GetMemoryChunkContext
-- and AllocSetContextCreateInternal below a parent; the assignment to the fields of a callback; and
-- MAXIMUM_ALIGNOF.
pub record MemoryApi (P : Type 0) : Type 0 where
  pub alloc : ℕ → ℕ → Cpp P ℕ
  pub alloc_aligned : ℕ → ℕ → ℕ → Cpp P ℕ
  pub pfree : ℕ → Cpp P (Unit {0})
  pub reset : ℕ → Cpp P (Unit {0})
  pub delete : ℕ → Cpp P (Unit {0})
  pub register_reset_callback : ℕ → ℕ → Cpp P (Unit {0})
  pub chunk_context : ℕ → Cpp P ℕ
  pub create : ℕ → Cpp P ℕ
  pub write_callback : ℕ → Callback → P → P
  pub maximum_alignof : ℕ

-- What the templates read of their type: its size and alignment, whether its destructor is trivial,
-- and the function that destroys the object at an address.
pub record Layout : Type 0 where
  pub size : ℕ
  pub align : ℕ
  pub trivially_destructible : Bool
  pub destroyer : ℕ

-- sizeof(T) * n, in a size_t of 64 bits
unfoldable pub bytes : Layout → ℕ → ℕ
bytes t n = (t.size * n) % 2 ^ 64

-- The layout of a MemoryContextCallback: a function, its argument and the next one.
abbrev pub callback_layout : Layout
callback_layout = record { size = 24; align = 8; trivially_destructible = Bool.true; destroyer = 0 }

module _ {P : Type 0} where
  -- memory_context_scope; memory_context_execution is the same around a call
  unfoldable pub with_scope : {A : Type 0} → ℕ → Cpp P A → Cpp P A
  with_scope ctx block w =
      at_scope_end (block (record w { current_memory_context = ctx }))
        (modify (λ v. record v { current_memory_context = w.current_memory_context }))

  -- operator()(thunk)
  unfoldable pub execute : {A : Type 0} → ℕ → Cpp P A → Cpp P A
  execute ctx thunk w =
      at_scope_end (thunk (record w { current_memory_context = ctx }))
        (modify (λ v. record v { current_memory_context = w.current_memory_context }))

module _ {P : Type 0} (errors : ErrorApi P) where
  -- `throw std::bad_alloc()` in a handler of pg_exception, which is destroyed at the end of it
  fail_allocation : {A : Type 0} → PgException → Cpp P A
  unfolding destroy_pg_exception
  fail_allocation e w =
      throws (std_exception bad_alloc)
        (destroy_pg_exception errors e (record w { uncaught = suc w.uncaught }))

  -- the handler catches a pg_exception only
  or_bad_alloc : {A : Type 0} → Outcome P A → Outcome P A
  unfolding fail_allocation
  or_bad_alloc (throws (pg_exception e) v) = fail_allocation e (caught v)
  or_bad_alloc (throws (std_exception e) v) = throws (std_exception e) v
  or_bad_alloc (throws foreign_exception v) = throws foreign_exception v
  or_bad_alloc (returns a v) = returns a v
  or_bad_alloc (raises v) = raises v
  or_bad_alloc terminates = terminates

module _ {P : Type 0} (errors : ErrorApi P) (api : MemoryApi P) where
  -- alloc<T>(n)
  unfoldable pub alloc : ℕ → Layout → ℕ → Cpp P ℕ
  unfolding bytes
  alloc ctx t n =
      if ltb api.maximum_alignof t.align
      then ffi_guard errors (api.alloc_aligned ctx (bytes t n) t.align)
      else ffi_guard errors (api.alloc ctx (bytes t n))

  -- free(ptr)
  unfoldable pub free : ℕ → Cpp P (Unit {0})
  free ptr = ffi_guard errors (api.pfree ptr)

  -- reset()
  unfoldable pub reset : ℕ → Cpp P (Unit {0})
  reset ctx = ffi_guard errors (api.reset ctx)

  -- delete_context()
  unfoldable pub delete_context : ℕ → Cpp P (Unit {0})
  delete_context ctx = ffi_guard errors (api.delete ctx)

  -- register_reset_callback(func, arg)
  unfoldable pub register_reset_callback : ℕ → Callback → Cpp P ℕ
  unfolding alloc
  register_reset_callback ctx callback = do
    cb ← alloc ctx callback_layout 1
    modify (λ w. record w { pg = api.write_callback cb callback w.pg })
    ffi_guard errors (api.register_reset_callback ctx cb)
    pure cb

  -- construct<T>(args...) of a type with a destructor to run: the callback is allocated before the
  -- constructor, `make`, runs at the address
  unfoldable pub construct_with_callback :
      ℕ → Layout → (ℕ → Cpp P (Unit {0})) → ℕ → Cpp P (Unit {0})
  unfolding alloc
  construct_with_callback ctx t make ptr = do
    cb ← alloc ctx callback_layout 1
    make ptr
    modify (λ w.
        let destroy : Callback = record { func = t.destroyer; arg = ptr } in
        record w { pg = api.write_callback cb destroy w.pg })
    ffi_guard errors (api.register_reset_callback ctx cb)

  -- construct<T>(args...)
  unfoldable pub construct : ℕ → Layout → (ℕ → Cpp P (Unit {0})) → Cpp P ℕ
  unfolding alloc construct_with_callback
  construct ctx t make = do
    ptr ← alloc ctx t 1
    (if t.trivially_destructible then make ptr else construct_with_callback ctx t make ptr)
    pure ptr

  -- memory_context::for_pointer(ptr)
  unfoldable pub for_pointer : ℕ → Cpp P ℕ
  for_pointer ptr =
      if ptr == 0 || not (ptr % api.maximum_alignof == 0)
      then throw (std_exception invalid_pointer)
      else ffi_guard errors (api.chunk_context ptr)

  -- memory_context_allocator::allocate(n)
  unfoldable pub allocate : ℕ → Layout → ℕ → Cpp P ℕ
  unfolding or_bad_alloc
  allocate ctx t n w = or_bad_alloc errors (alloc ctx t n w)

  -- memory_context_allocator::deallocate(p, n)
  unfoldable pub deallocate : ℕ → Bool → ℕ → Cpp P (Unit {0})
  unfolding free
  deallocate ctx explicit_deallocation p =
      noexcept (if explicit_deallocation || ctx == errors.top_context then free p else pure tt)
