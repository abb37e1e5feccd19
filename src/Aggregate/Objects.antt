-- ===== src/Aggregate/Objects.antt =====
-- aggregate.hpp: the object that a state points to.
use cppgres.Common.{ℕ, ◌≡◌, ◌∙◌, Bool, true, false, Option, some, if◌then◌else◌, ltb}
use cppgres.World.{World, Cpp, pure, ◌>>◌, modify}
use cppgres.Guard.{ErrorApi, ffi_guard}
use cppgres.Guard.Restore.{armed}
use cppgres.Guard.Outcomes.{Ends, Calls, Ends-then, Ends-weaken, guarded}
use cppgres.Memory.Contexts.{
  Callback, MemoryApi, Layout, callback_layout, bytes, alloc, construct, construct_with_callback,
}
use cppgres.Aggregate.Meaning.{Failing, SameObjects, LeavesObjects}

module _ {P A : Type 0} (F : Type 0) (object : P → ℕ → Option A) (errors : ErrorApi P)
    (api : MemoryApi P) (check_call_context : Cpp P (Option ℕ))
    (leaves : LeavesObjects object F api check_call_context) where
  open leaves use {allocs, allocs_aligned, registers, writes, checks}

  guarded_Same :
      {T : Type 0} (func : Cpp P T) (w : World P)
      → Calls (λ a. SameObjects object w.pg) (Failing F) (armed w) (func (armed w))
      → Ends (λ a. SameObjects object w.pg) (Failing F) (ffi_guard errors func w)
  guarded_Same func w =
      guarded (λ a. SameObjects object w.pg) (Failing F) errors (λ c p h. h) func w

  pub alloc-Answers :
      (Q : ℕ → P → Type 0) (ctx : ℕ) (t : Layout) (n : ℕ) (w : World P)
      → ((m : ℕ) → Calls Q (Failing F) (armed w) (api.alloc ctx m (armed w)))
      → ((m a : ℕ) → Calls Q (Failing F) (armed w) (api.alloc_aligned ctx m a (armed w)))
      → Ends Q (Failing F) (alloc errors api ctx t n w)
  unfolding alloc
  alloc-Answers Q ctx t n w plain aligned = aligned_or_not (ltb api.maximum_alignof t.align)
    where
      aligned_or_not :
          (b : Bool)
          → Ends Q (Failing F) (
              (if b
                  then ffi_guard errors (api.alloc_aligned ctx (bytes t n) t.align)
                  else ffi_guard errors (api.alloc ctx (bytes t n)))
                w)
      aligned_or_not true =
          guarded Q (Failing F) errors (λ c p h. h) (api.alloc_aligned ctx (bytes t n) t.align) w
            (aligned (bytes t n) t.align)
      aligned_or_not false =
          guarded Q (Failing F) errors (λ c p h. h) (api.alloc ctx (bytes t n)) w
            (plain (bytes t n))

  alloc-Same :
      (ctx : ℕ) (t : Layout) (n : ℕ) (w : World P)
      → Ends (λ a. SameObjects object w.pg) (Failing F) (alloc errors api ctx t n w)
  alloc-Same ctx t n w =
      alloc-Answers (λ a. SameObjects object w.pg) ctx t n w (λ m. allocs ctx m (armed w))
        (λ m a. allocs_aligned ctx m a (armed w))

  -- A construction whose constructor leaves the value in the new object, given the objects that there
  -- were, and that `N` holds of the address.
  pub construct-MakesAt :
      (N : ℕ → Type 0) (a : A) (make : ℕ → Cpp P (Unit {0})) (w : World P)
      → ((x : ℕ) (v : World P)
          → N x
          → SameObjects object w.pg v.pg
          → Ends (λ u p. object p x ≡ some a) (Failing F) (make x v))
      → (ctx : ℕ) (t : Layout)
      → Ends (λ x p. N x × SameObjects object w.pg p) (Failing F) (alloc errors api ctx t 1 w)
      → Ends (λ x p. object p x ≡ some a) (Failing F) (construct errors api ctx t make w)
  unfolding construct construct_with_callback
  construct-MakesAt N a make w makes ctx t allocates =
      Ends-then (λ x p. N x × SameObjects object w.pg p) (λ x p. object p x ≡ some a) (Failing F)
        (λ x.
          (if t.trivially_destructible
            then make x
            else construct_with_callback errors api ctx t make x)
          >> pure x)
        (alloc errors api ctx t 1) w allocates
        (λ x v (n, s).
          Ends-then (λ u p. object p x ≡ some a) (λ x p. object p x ≡ some a) (Failing F)
            (λ u. pure x)
            (if t.trivially_destructible
              then make x
              else construct_with_callback errors api ctx t make x)
            v (made t.trivially_destructible x v n s) (λ u y h. h))
    where
      registered :
          (x cb : ℕ) (u : World P)
          → object u.pg x ≡ some a
          → Ends
              (λ b p. object p x ≡ some a)
              (Failing F)
              (ffi_guard errors (api.register_reset_callback ctx cb) u)
      registered x cb u h =
          Ends-weaken (λ b. SameObjects object u.pg) (λ b p. object p x ≡ some a) (Failing F)
            (Failing F) (ffi_guard errors (api.register_reset_callback ctx cb) u) (λ b p s. s x ∙ h)
            (λ p e. e)
            (guarded_Same (api.register_reset_callback ctx cb) u (registers ctx cb (armed u)))

      with_callback :
          (x : ℕ) (v : World P)
          → N x
          → SameObjects object w.pg v.pg
          → Ends
              (λ u p. object p x ≡ some a)
              (Failing F)
              (construct_with_callback errors api ctx t make x v)
      with_callback x v n same =
          let c : Callback = record { func = t.destroyer; arg = x } in
          let register : ℕ → Cpp P (Unit {0}) = λ cb.
            modify (λ w. record w { pg = api.write_callback cb c w.pg })
            >> ffi_guard errors (api.register_reset_callback ctx cb) in
          Ends-then (λ cb. SameObjects object v.pg) (λ u p. object p x ≡ some a) (Failing F)
            (λ cb. make x >> register cb) (alloc errors api ctx callback_layout 1) v
            (alloc-Same ctx callback_layout 1 v)
            (λ cb y s.
              Ends-then (λ u p. object p x ≡ some a) (λ u p. object p x ≡ some a) (Failing F)
                (λ u. register cb) (make x) y (makes x y n (λ z. s z ∙ same z))
                (λ u z h.
                  registered x cb (record z { pg = api.write_callback cb c z.pg })
                    (writes cb c z.pg x ∙ h)))

      made :
          (b : Bool) (x : ℕ) (v : World P)
          → N x
          → SameObjects object w.pg v.pg
          → Ends
              (λ u p. object p x ≡ some a)
              (Failing F)
              ((if b then make x else construct_with_callback errors api ctx t make x) v)
      made true x v n same = makes x v n same
      made false x v n same = with_callback x v n same

  -- The same, wherever the object is put.
  pub construct-Makes :
      (a : A) (make : ℕ → Cpp P (Unit {0})) (w : World P)
      → ((x : ℕ) (v : World P)
          → SameObjects object w.pg v.pg
          → Ends (λ u p. object p x ≡ some a) (Failing F) (make x v))
      → (ctx : ℕ) (t : Layout)
      → Ends (λ x p. object p x ≡ some a) (Failing F) (construct errors api ctx t make w)
  construct-Makes a make w makes ctx t =
      construct-MakesAt (λ x. Unit {0}) a make w (λ x v n. makes x v) ctx t
        (Ends-weaken (λ x. SameObjects object w.pg) (λ x p. Unit {0} × SameObjects object w.pg p)
          (Failing F) (Failing F) _ (λ x p s. (tt, s)) (λ p e. e) (alloc-Same ctx t 1 w))
