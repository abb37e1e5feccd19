-- ===== src/Guard/Restore.antt =====
-- What ffi_guard::operator() of guard.hpp leaves of the exception handling globals.
use cppgres.Common.{suc, ◌≡◌, ◌≢◌, refl, ◌∙◌, sym, arith}
use cppgres.World.{World, Outcome, returns, throws, raises, terminates, Cpp, ◌>>=◌}
use cppgres.Guard.{ErrorApi, ffi_guard}

module _ {P : Type 0} where
  abbrev pub SameHandlers : World P → World P → Type 0
  SameHandlers w v =
      (v.exception_stack ≡ w.exception_stack)
      × (v.error_context_stack ≡ w.error_context_stack)
      × (v.frames ≡ w.frames)

  -- A jump out of the guard is left only to a callee that replaced the handler.
  abbrev pub Restored : {A : Type 0} → World P → Outcome P A → Type 0
  Restored w (returns a v) = SameHandlers w v
  Restored w (throws e v) = SameHandlers w v
  Restored w (raises v) = v.exception_stack ≢ w.frames
  Restored w terminates = Unit

  -- A call that puts the handler on top back before it leaves, on every way out.
  abbrev pub Disciplined : {A : Type 0} → World P → Outcome P A → Type 0
  Disciplined w (returns a v) = (v.exception_stack ≡ w.exception_stack) × (v.frames ≡ w.frames)
  Disciplined w (throws e v) = (v.exception_stack ≡ w.exception_stack) × (v.frames ≡ w.frames)
  Disciplined w (raises v) = (v.exception_stack ≡ w.exception_stack) × (v.frames ≡ w.frames)
  Disciplined w terminates = Unit

  abbrev pub IsDisciplined : {A : Type 0} → Cpp P A → Type 0
  IsDisciplined m = (w : World P) → Disciplined w (m w)

  -- No Postgres error leaves.
  abbrev pub Surfaced : {A : Type 0} → Outcome P A → Type 0
  Surfaced (returns a v) = Unit
  Surfaced (throws e v) = Unit
  Surfaced (raises v) = ⊥
  Surfaced terminates = Unit

  abbrev pub armed : World P → World P
  armed w = record w { exception_stack = w.frames; frames = suc w.frames }

module _ {P A : Type 0} (api : ErrorApi P) where
  Restored-outcome :
      (func : Cpp P A) (w : World P) (o : Outcome P A)
      → func (armed w) ≡ o
      → Restored w (ffi_guard api func w)
  unfolding ffi_guard
  Restored-outcome func w (returns a v) e = ground arith
  Restored-outcome func w (throws x v) e = ground arith
  Restored-outcome func w (raises v) e = ground arith
  Restored-outcome func w terminates e = ground arith

  -- Whenever ffi_guard returns or throws, the exception stack, the error context stack and the C
  -- stack are those of the call; a jump out of it is left only to a callee that had replaced the
  -- handler.
  pub ffi_guard-Restored : (func : Cpp P A) (w : World P) → Restored w (ffi_guard api func w)
  ffi_guard-Restored func w = Restored-outcome func w (func (armed w)) refl

  Surfaced-outcome :
      (func : Cpp P A) (w : World P) (o : Outcome P A)
      → func (armed w) ≡ o
      → Disciplined (armed w) o
      → Surfaced (ffi_guard api func w)
  unfolding ffi_guard
  Surfaced-outcome func w (returns a v) e d = ground arith
  Surfaced-outcome func w (throws x v) e d = ground arith
  Surfaced-outcome func w (raises v) e d = ground arith
  Surfaced-outcome func w terminates e d = ground arith

  -- If the guarded code puts back the handlers that it replaces before it leaves, then no Postgres
  -- error jumps out of ffi_guard.
  pub ffi_guard-Surfaced :
      (func : Cpp P A) (w : World P)
      → Disciplined (armed w) (func (armed w))
      → Surfaced (ffi_guard api func w)
  ffi_guard-Surfaced func w d = Surfaced-outcome func w (func (armed w)) refl d

-- One call after another.
module _ {P B : Type 0} where
  Restored-from : (w v : World P) (o : Outcome P B) → SameHandlers w v → Restored v o → Restored w o
  Restored-from w v (returns b u) (s, c, f) (s', c', f') = (s' ∙ s, c' ∙ c, f' ∙ f)
  Restored-from w v (throws e u) (s, c, f) (s', c', f') = (s' ∙ s, c' ∙ c, f' ∙ f)
  Restored-from w v (raises u) (s, c, f) h = λ e. h (e ∙ sym f)
  Restored-from w v terminates s h = tt

module _ {P A B : Type 0} where
  Restored-next :
      (k : A → Cpp P B) (m : Cpp P A) (w : World P) (o : Outcome P A)
      → m w ≡ o
      → Restored w o
      → ((a : A) (v : World P) → Restored v (k a v))
      → Restored w ((m >>= k) w)
  Restored-next k m w (returns a v) e h next = rw e (Restored-from w v (k a v) h (next a v))
  Restored-next k m w (throws x v) e h next = rw e h
  Restored-next k m w (raises v) e h next = rw e h
  Restored-next k m w terminates e h next = rw e tt

  pub Restored-then :
      (k : A → Cpp P B) (m : Cpp P A) (w : World P)
      → Restored w (m w)
      → ((a : A) (v : World P) → Restored v (k a v))
      → Restored w ((m >>= k) w)
  Restored-then k m w = Restored-next k m w (m w) refl
