-- ===== src/Memory/Contexts/Objects.antt =====
-- `construct` of memory.hpp: a reset callback is registered exactly for an object that was made.
use cppgres.Common.{
  ℕ, ◌≡◌, refl, ap, ◌∙◌, Bool, true, false, if◌then◌else◌, List, ◌∷◌, ltb, Bool-cases, inl, inr,
}
use cppgres.World.{World, Outcome, Cpp, pure, ◌>>◌, modify}
use cppgres.Guard.{ErrorApi, ffi_guard}
use cppgres.Guard.Restore.{armed}
use cppgres.Guard.Outcomes.{Ends, Calls, KeptByErrors, Ends-then, Ends-weaken, guarded}
use cppgres.Memory.Contexts.{
  Callback, MemoryApi, Layout, callback_layout, bytes, alloc, construct_with_callback, construct,
}

-- `registered` are the callbacks that the memory contexts have, newest first, and `callback_at` is
-- what stands at an address. The parameter is what both have to do with the calls: an allocation
-- registers nothing, a registration adds the callback or fails, an assignment changes the place.
module _ {P : Type 0} (registered : P → List ℕ) (callback_at : P → ℕ → Callback) where
  abbrev pub SameCallbacks : P → P → Type 0
  SameCallbacks p q = registered q ≡ registered p

  pub record MemoryLaws (errors : ErrorApi P) (api : MemoryApi P) : Type 0 where
    pub errors_keep :
        (c : ℕ) (p : P)
        → registered (errors.flush_error_state (errors.with_context c p)) ≡ registered p
    pub allocs :
        (ctx n : ℕ) (w : World P)
        → Calls (λ a. SameCallbacks w.pg) (SameCallbacks w.pg) w (api.alloc ctx n w)
    pub allocs_aligned :
        (ctx n a : ℕ) (w : World P)
        → Calls (λ a. SameCallbacks w.pg) (SameCallbacks w.pg) w (api.alloc_aligned ctx n a w)
    pub writes :
        (cb : ℕ) (c : Callback) (p : P) → registered (api.write_callback cb c p) ≡ registered p
    pub written : (cb : ℕ) (c : Callback) (p : P) → callback_at (api.write_callback cb c p) cb ≡ c
    pub registers :
        (ctx cb : ℕ) (w : World P)
        → Calls
            (λ a p.
              (registered p ≡ cb ∷ registered w.pg) × (callback_at p cb ≡ callback_at w.pg cb))
            (SameCallbacks w.pg)
            w
            (api.register_reset_callback ctx cb w)

  -- The callbacks after an object of the type was made at the address.
  abbrev pub Registered : Bool → ℕ → P → ℕ → P → Type 0
  Registered true destroyer p ptr q = registered q ≡ registered p
  Registered false destroyer p ptr q =
      (cb : ℕ) × (registered q ≡ cb ∷ registered p)
      × (callback_at q cb ≡ record { func = destroyer; arg = ptr })

  module _ (errors : ErrorApi P) (api : MemoryApi P) (laws : MemoryLaws errors api) where
    open laws use {errors_keep, allocs, allocs_aligned, writes, written, registers}

    errors_keep_same : (p : P) → KeptByErrors errors (SameCallbacks p)
    errors_keep_same p c q h = errors_keep c q ∙ h

    pub alloc-Same :
        (p : P) (ctx : ℕ) (t : Layout) (n : ℕ) (w : World P)
        → SameCallbacks p w.pg
        → Ends (λ a. SameCallbacks p) (SameCallbacks p) (alloc errors api ctx t n w)
    unfolding alloc
    alloc-Same p ctx t n w s = elim (Bool-cases (ltb api.maximum_alignof t.align)) [
      | inl e ↦ rw e (
          later (ffi_guard errors (api.alloc_aligned ctx (bytes t n) t.align) w) (
            guarded (λ a. SameCallbacks w.pg) (SameCallbacks w.pg) errors (errors_keep_same w.pg)
              (api.alloc_aligned ctx (bytes t n) t.align) w
              (allocs_aligned ctx (bytes t n) t.align (armed w))))
      | inr e ↦ rw e (
          later (ffi_guard errors (api.alloc ctx (bytes t n)) w) (
            guarded (λ a. SameCallbacks w.pg) (SameCallbacks w.pg) errors (errors_keep_same w.pg)
              (api.alloc ctx (bytes t n)) w (allocs ctx (bytes t n) (armed w))))
    ]
      where
        later :
            (o : Outcome P ℕ)
            → Ends (λ a. SameCallbacks w.pg) (SameCallbacks w.pg) o
            → Ends (λ a. SameCallbacks p) (SameCallbacks p) o
        later o =
            Ends-weaken (λ a. SameCallbacks w.pg) (λ a. SameCallbacks p) (SameCallbacks w.pg)
              (SameCallbacks p) o (λ a q h. h ∙ s) (λ q h. h ∙ s)

    -- A callback whose fields were assigned is registered, or nothing is.
    register_written :
        (p : P) (ctx cb : ℕ) (c : Callback) (w : World P)
        → SameCallbacks p w.pg
        → callback_at w.pg cb ≡ c
        → Ends
            (λ a q. (registered q ≡ cb ∷ registered p) × (callback_at q cb ≡ c))
            (SameCallbacks p)
            (ffi_guard errors (api.register_reset_callback ctx cb) w)
    register_written p ctx cb c w s at_cb =
        let Q : Unit {0} → P → Type 0 =
          λ a q. (registered q ≡ cb ∷ registered w.pg) × (callback_at q cb ≡ callback_at w.pg cb) in
        Ends-weaken Q (λ a q. (registered q ≡ cb ∷ registered p) × (callback_at q cb ≡ c))
          (SameCallbacks w.pg) (SameCallbacks p)
          (ffi_guard errors (api.register_reset_callback ctx cb) w)
          (λ a q h. (h.0 ∙ ap (λ r. cb ∷ r) s, h.1 ∙ at_cb)) (λ q h. h ∙ s)
          (guarded Q (SameCallbacks w.pg) errors (errors_keep_same w.pg)
            (api.register_reset_callback ctx cb) w (registers ctx cb (armed w)))

    -- A constructor that registers nothing, on no way out.
    abbrev pub MakesOnly : (ℕ → Cpp P (Unit {0})) → Type 0
    MakesOnly make =
        (ptr : ℕ) (w : World P) → Ends (λ a. SameCallbacks w.pg) (SameCallbacks w.pg) (make ptr w)

    make_Same :
        (p : P) (make : ℕ → Cpp P (Unit {0}))
        → MakesOnly make
        → (ptr : ℕ) (w : World P) → SameCallbacks p w.pg
        → Ends (λ a. SameCallbacks p) (SameCallbacks p) (make ptr w)
    make_Same p make makes ptr w s =
        Ends-weaken (λ a. SameCallbacks w.pg) (λ a. SameCallbacks p) (SameCallbacks w.pg)
          (SameCallbacks p) (make ptr w) (λ a q h. h ∙ s) (λ q h. h ∙ s) (makes ptr w)

    construct_with_callback-Registers :
        (p : P) (ctx : ℕ) (t : Layout) (make : ℕ → Cpp P (Unit {0})) (ptr : ℕ) (w : World P)
        → MakesOnly make
        → SameCallbacks p w.pg
        → Ends
            (λ a. Registered false t.destroyer p ptr)
            (SameCallbacks p)
            (construct_with_callback errors api ctx t make ptr w)
    unfolding construct_with_callback
    construct_with_callback-Registers p ctx t make ptr w makes s =
        let T : Unit {0} → P → Type 0 = λ a. Registered false t.destroyer p ptr in
        let c : Callback = record { func = t.destroyer; arg = ptr } in
        let register : ℕ → Cpp P (Unit {0}) = λ cb.
          modify (λ w. record w { pg = api.write_callback cb c w.pg })
          >> ffi_guard errors (api.register_reset_callback ctx cb) in
        Ends-then (λ a. SameCallbacks p) T (SameCallbacks p) (λ cb. make ptr >> register cb)
          (alloc errors api ctx callback_layout 1) w (alloc-Same p ctx callback_layout 1 w s)
          (λ cb v g.
            Ends-then (λ a. SameCallbacks p) T (SameCallbacks p) (λ a. register cb) (make ptr) v
              (make_Same p make makes ptr v g)
              (λ a u h.
                let x : World P = record u { pg = api.write_callback cb c u.pg } in
                Ends-weaken (λ a q. (registered q ≡ cb ∷ registered p) × (callback_at q cb ≡ c)) T
                  (SameCallbacks p) (SameCallbacks p)
                  (ffi_guard errors (api.register_reset_callback ctx cb) x)
                  (λ a q h. (cb, h.0, h.1)) (λ q h. h)
                  (register_written p ctx cb c x (writes cb c u.pg ∙ h) (written cb c u.pg))))

    -- the two branches, by whether the destructor is trivial
    made_or_Registered :
        (trivial : Bool) (p : P) (ctx : ℕ) (t : Layout) (make : ℕ → Cpp P (Unit {0})) (ptr : ℕ)
        (w : World P)
        → MakesOnly make
        → SameCallbacks p w.pg
        → Ends
            (λ a. Registered trivial t.destroyer p ptr)
            (SameCallbacks p)
            ((if trivial then make ptr else construct_with_callback errors api ctx t make ptr) w)
    made_or_Registered true p ctx t make ptr w makes s = make_Same p make makes ptr w s
    made_or_Registered false p ctx t make ptr w makes s =
        construct_with_callback-Registers p ctx t make ptr w makes s

    -- For a type whose constructor registers no reset callback itself, on whatever way out: a
    -- construction of an object in a memory context that returns has registered one reset
    -- callback, which runs the destructor of the type on the object, or none if the destructor is
    -- trivial; a construction that throws, in an allocation, in the constructor or in the
    -- registration, has registered none.
    pub construct-Registers :
        (ctx : ℕ) (t : Layout) (make : ℕ → Cpp P (Unit {0})) (w : World P)
        → MakesOnly make
        → Ends
            (λ ptr. Registered t.trivially_destructible t.destroyer w.pg ptr)
            (SameCallbacks w.pg)
            (construct errors api ctx t make w)
    unfolding construct
    construct-Registers ctx t make w makes =
        Ends-then (λ a. SameCallbacks w.pg)
          (λ ptr. Registered t.trivially_destructible t.destroyer w.pg ptr) (SameCallbacks w.pg)
          (λ ptr.
            (if t.trivially_destructible
              then make ptr
              else construct_with_callback errors api ctx t make ptr)
            >> pure ptr)
          (alloc errors api ctx t 1) w (alloc-Same w.pg ctx t 1 w refl)
          (λ ptr v s.
            Ends-then (λ a. Registered t.trivially_destructible t.destroyer w.pg ptr)
              (λ ptr. Registered t.trivially_destructible t.destroyer w.pg ptr) (SameCallbacks w.pg)
              (λ a. pure ptr)
              (if t.trivially_destructible
                then make ptr
                else construct_with_callback errors api ctx t make ptr)
              v (made_or_Registered t.trivially_destructible w.pg ctx t make ptr v makes s)
              (λ a u h. h))
