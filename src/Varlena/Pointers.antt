-- ===== src/Varlena/Pointers.antt =====
-- `varlena::detoasted_ptr` of type.hpp: which pointers it gives, and when it refuses.
use cppgres.Common.{
  ℕ, ◌≡◌, ◌≢◌, refl, sym, ap, ◌∙◌, Bool, true, false, none, some, ◌==◌, if◌then◌else◌, Bool-cases,
  ◌⊎◌, inl, inr, ==_iff, ==-eq_false,
}
use cppgres.World.{
  Exn, World, returns, throws, pure, after, ◌>>=◌, ◌>>◌, modify, throw, std_exception, pointer_gone,
}
use cppgres.Guard.{ErrorApi, ffi_guard, restored}
use cppgres.Guard.Restore.{armed}
use cppgres.Guard.Border.{ffi_guard_returns}
use cppgres.Guard.Outcomes.{Ends, Calls, Ends-then, Ends-weaken}
use cppgres.Memory.Contexts.{MemoryApi, register_reset_callback}
use cppgres.Memory.Contexts.Frame.{Leaves, guarded_Left, register_reset_callback-Left}
use cppgres.Varlena.{
  Varlena, Held, VarlenaApi, with_object, track_reset, track, gone, ptr, cached_ptr,
  track_detoasted, detoast, detoasted_ptr,
}

module _ {P : Type 0} (errors : ErrorApi (Held P)) (memory : MemoryApi (Held P))
    (api : VarlenaApi P) where
  -- A later call for an object that keeps a pointer and the tracker of its memory.
  abbrev pub Refuses : ℕ → ℕ → Varlena → Type 0
  Refuses p t o =
      (u : World (Held P))
      → u.pg.object ≡ o
      → p ≢ 0
      → detoasted_ptr errors memory api u
        ≡ (if gone errors memory api t u then throw (std_exception pointer_gone) u else returns p u)

  kept_pointer :
      (p t : ℕ) (o : Varlena) → o.detoasted ≡ p → o.detoasted_state ≡ some t → Refuses p t o
  unfolding detoasted_ptr cached_ptr
  kept_pointer p t o d s u e n = rw (e, d, s, ==-eq_false p 0 n) refl

  -- The pointer is kept with a tracker: that of the value if detoasting gave the value itself.
  abbrev pub Kept : ℕ → Held P → Type 0
  Kept p h =
      (t : ℕ) × (h.object.detoasted ≡ p)
      × (h.object.detoasted_state ≡ some t)
      × (p ≡ h.object.value_datum → t ≡ h.object.state)
      × Refuses p t h.object

  abbrev pub SameObject : Held P → Held P → Type 0
  SameObject h k = k.object ≡ h.object

  -- The other calls leave the object alone too.
  pub record LeavesObject (F : Type 0) : Type 0 where
    pub memory_leaves : Leaves SameObject F memory
    pub makes : (w : World (Held P)) → Ends (λ s. SameObject w.pg) (λ h. F) (api.make_state w)
    pub detoasts :
        (source : ℕ) (w : World (Held P))
        → Calls (λ d. SameObject w.pg) (λ h. F) w (api.detoast source w)

  -- The reasons to throw: a call fails, or the memory of the value was reset.
  abbrev pub Throws : Type 0 → World (Held P) → Held P → Type 0
  Throws F w h = F ⊎ (gone errors memory api w.pg.object.state w ≡ true)

  module _ (F : Type 0) (leaves : LeavesObject F) where
    open leaves use {memory_leaves, makes, detoasts}

    track-Same :
        (ctx : ℕ) (w : World (Held P))
        → Ends (λ s. SameObject w.pg) (λ h. F) (track errors memory api ctx w)
    unfolding track
    track-Same ctx w =
        Ends-then (λ s. SameObject w.pg) (λ s. SameObject w.pg) (λ h. F)
          (λ state.
            register_reset_callback errors memory ctx (record { func = track_reset; arg = state })
            >>= λ cb. pure state)
          api.make_state w (makes w)
          (λ state v h.
            Ends-then (λ cb. SameObject v.pg) (λ s. SameObject w.pg) (λ h. F) (λ cb. pure state)
              (register_reset_callback errors memory ctx
                (record { func = track_reset; arg = state }))
              v
              (register_reset_callback-Left SameObject F errors memory memory_leaves ctx
                (record { func = track_reset; arg = state }) v)
              (λ cb u k. k ∙ h))

    tracked_after :
        (d source : ℕ) (w : World (Held P))
        → w.pg.object.detoasted ≡ d
        → w.pg.object.value_datum ≡ source
        → Ends (λ u. Kept d) (λ h. F) (track_detoasted errors memory api d source w)
    unfolding track_detoasted
    tracked_after d source w kept value = elim (Bool-cases (d == source)) [
      | inl e ↦
          rw e
            (w.pg.object.state, kept, refl, λ k. refl, kept_pointer d w.pg.object.state _ kept refl)
      | inr e ↦ rw e (
          Ends-then (λ s. SameObject w.pg) (λ u. Kept d) (λ h. F)
            (λ state.
              modify (λ v. with_object (record v.pg.object { detoasted_state = some state }) v))
            (track errors memory api w.current_memory_context) w
            (track-Same w.current_memory_context w)
            (λ state v h.
              let at_d : v.pg.object.detoasted ≡ d = ap (λ o. o.detoasted) h ∙ kept in
              (
                state,
                at_d,
                refl,
                (λ k. absurd (other e (k ∙ ap (λ o. o.value_datum) h ∙ value))),
                kept_pointer d state _ at_d refl,
              )))
    ]
      where
        clash : false ≡ true → ⊥
        clash x = cc

        other : (d == source) ≡ false → d ≡ source → ⊥
        other e k = clash (sym e ∙ (==_iff d source).1 k)

    -- For a value that no earlier call tried to detoast: the pointer that detoasted_ptr gives out
    -- comes only if the memory of the value was not reset, and is kept with a tracker, that of the
    -- value if the value was not toasted; each later call for the object gives the same pointer,
    -- or throws once the memory of the tracker was reset; the call throws only if a call fails or
    -- the memory was reset.
    pub detoasted_ptr-Kept :
        (w : World (Held P))
        → w.pg.object.detoasted ≡ 0
        → Ends
            (λ p h. (gone errors memory api w.pg.object.state w ≡ false) × Kept p h)
            (Throws F w)
            (detoasted_ptr errors memory api w)
    unfolding detoasted_ptr detoast ptr
    detoasted_ptr-Kept w fresh =
        simp fresh (tested (gone errors memory api w.pg.object.state w) refl)
      where
        source : ℕ
        source = w.pg.object.value_datum

        Q : ℕ → Held P → Type 0
        Q p h = (gone errors memory api w.pg.object.state w ≡ false) × Kept p h

        detoasted_now :
            (d : ℕ) (v : World (Held P))
            → gone errors memory api w.pg.object.state w ≡ false
            → v.pg.object ≡ w.pg.object
            → Ends Q (Throws F w) (
                (modify (λ v. with_object (record v.pg.object { detoasted = d }) v)
                    >> (track_detoasted errors memory api d source >> pure d))
                  v)
        detoasted_now d v here h =
            let x : World (Held P) = with_object (record v.pg.object { detoasted = d }) v in
            Ends-then (λ u. Kept d) Q (Throws F w) (λ u. pure d)
              (track_detoasted errors memory api d source) x
              (Ends-weaken (λ u. Kept d) (λ u. Kept d) (λ h. F) (Throws F w) _ (λ u h k. k)
                (λ h f. inl f) (tracked_after d source x refl (ap (λ o. o.value_datum) h)))
              (λ u y k. (here, k))

        tested :
            (g : Bool)
            → gone errors memory api w.pg.object.state w ≡ g
            → Ends Q (Throws F w) (
                after
                  (λ source. ffi_guard errors (api.detoast source) >>= λ d.
                    modify (λ v. with_object (record v.pg.object { detoasted = d }) v)
                    >> (track_detoasted errors memory api d source >> pure d))
                  (if g then throw (std_exception pointer_gone) w else returns source w))
        tested true e = inr e
        tested false e =
            Ends-then (λ d. SameObject w.pg) Q (Throws F w)
              (λ d.
                modify (λ v. with_object (record v.pg.object { detoasted = d }) v)
                >> (track_detoasted errors memory api d source >> pure d))
              (ffi_guard errors (api.detoast source)) w
              (Ends-weaken (λ d. SameObject w.pg) (λ d. SameObject w.pg) (λ h. F) (Throws F w) _
                (λ d h k. k) (λ h f. inl f)
                (guarded_Left SameObject F errors memory memory_leaves (api.detoast source) w
                  (detoasts source (armed w))))
              (λ d v h. detoasted_now d v e h)

  -- If the tracker for the memory of a detoasted copy cannot be made, detoasted_ptr throws, but
  -- each later call gives the pointer to the copy without a test, whatever was reset.
  pub untracked_after_failure :
      (w v x : World (Held P)) (d : ℕ) (e : Exn)
      → w.pg.object.detoasted ≡ 0
      → gone errors memory api w.pg.object.state w ≡ false
      → api.detoast w.pg.object.value_datum (armed w) ≡ returns d v
      → d ≢ w.pg.object.value_datum
      → d ≢ 0
      → v.pg.object ≡ w.pg.object
      → w.pg.object.detoasted_state ≡ none
      → api.make_state (with_object (record w.pg.object { detoasted = d }) (restored w v))
        ≡ throws e x
      → x.pg.object ≡ record w.pg.object { detoasted = d }
      → (detoasted_ptr errors memory api w ≡ throws e x)
        × ((u : World (Held P))
            → u.pg.object ≡ x.pg.object
            → detoasted_ptr errors memory api u ≡ returns d u)
  unfolding detoasted_ptr detoast ptr cached_ptr track_detoasted track
  untracked_after_failure w v x d e fresh here gave moved real same bare fails left = (
    simp
        (
          fresh,
          here,
          ffi_guard_returns errors (api.detoast w.pg.object.value_datum) w v d gave,
          same,
          ==-eq_false d w.pg.object.value_datum moved,
          fails,
        )
        refl,
    λ u k. simp (k, left, bare, ==-eq_false d 0 real) refl,
  )
