-- ===== src/Guard/Scopes.antt =====
-- ffi_guard_noexcept, scope_fail and scope_exit of guard.hpp: what a cleanup leaves.
use cppgres.Common.{ℕ, suc, ◌≡◌, refl, List, ◌∷◌, arith}
use cppgres.World.{
  pg_exception, std_exception, foreign_exception, World, Outcome, returns, throws, raises,
  terminates, Cpp, warn, caught,
}
use cppgres.Guard.{
  ErrorApi, ffi_guard_noexcept, scope_fail, scope_exit, surface, make_pg_exception, restored,
  discard,
}
use cppgres.Guard.Restore.{armed, SameHandlers}
use cppgres.Guard.Border.{surfaced_world, exception_of}

module _ {P : Type 0} where
  -- A cleanup may return, throw, or raise with its handler in place.
  abbrev pub CleanupIsTame : {A : Type 0} → World P → Outcome P A → Type 0
  CleanupIsTame w (returns a v) = Unit
  CleanupIsTame w (throws e v) = Unit
  CleanupIsTame w (raises v) = v.exception_stack ≡ w.frames
  CleanupIsTame w terminates = ⊥

  -- The warnings after a cleanup that left in the given way: one more if it failed.
  abbrev pub WarningsAfter : {A : Type 0} → ℕ → Outcome P A → List ℕ → Type 0
  WarningsAfter msg (returns a v) ws = ws ≡ v.warnings
  WarningsAfter msg (throws e v) ws = ws ≡ msg ∷ v.warnings
  WarningsAfter msg (raises v) ws = ws ≡ msg ∷ v.warnings
  WarningsAfter msg terminates ws = ⊥

  abbrev pub Settles : {A : Type 0} → ℕ → World P → Outcome P A → World P → Type 0
  Settles msg w o u = SameHandlers w u × WarningsAfter msg o u.warnings

  -- The scope with its scope_exit: the same way out, and the cleanup has run once.
  abbrev pub ExitEnds : {A : Type 0} → Cpp P (Unit {0}) → ℕ → Outcome P A → Outcome P A → Type 0
  ExitEnds func msg (returns a v) r =
      (u : World P) × (r ≡ returns a u) × Settles msg v (func (armed v)) u
  ExitEnds func msg (throws e v) r =
      (u : World P) × (r ≡ throws e u) × Settles msg v (func (armed v)) u
  ExitEnds func msg (raises v) r = r ≡ raises v
  ExitEnds func msg terminates r = r ≡ terminates

  -- With a scope_fail: the cleanup has run if an exception leaves, and has not if the scope returns.
  abbrev pub FailEnds : {A : Type 0} → Cpp P (Unit {0}) → ℕ → Outcome P A → Outcome P A → Type 0
  FailEnds func msg (returns a v) r = r ≡ returns a v
  FailEnds func msg (throws e v) r =
      (u : World P) × (r ≡ throws e u) × Settles msg v (func (armed v)) u
  FailEnds func msg (raises v) r = r ≡ raises v
  FailEnds func msg terminates r = r ≡ terminates

  -- A scope counts the exceptions in flight right: one more if it throws.
  abbrev pub Counts : {A : Type 0} → World P → Outcome P A → Type 0
  Counts w (returns a v) = v.uncaught ≡ w.uncaught
  Counts w (throws e v) = v.uncaught ≡ suc w.uncaught
  Counts w (raises v) = Unit
  Counts w terminates = Unit

module _ {P : Type 0} (api : ErrorApi P) where
  settled : ℕ → World P → Outcome P (Unit {0}) → World P
  unfolding discard
  settled msg w (returns a v) = restored w v
  settled msg w (throws e v) = discard api e (warn msg (caught (restored w v)))
  settled msg w (raises v) =
      discard api (pg_exception (exception_of api w v)) (warn msg (caught (surfaced_world api w v)))
  settled msg w terminates = w

  cleanup_outcome :
      (func : Cpp P (Unit {0})) (msg : ℕ) (w : World P) (o : Outcome P (Unit {0}))
      → func (armed w) ≡ o
      → CleanupIsTame w o
      → (ffi_guard_noexcept api func msg w ≡ returns tt (settled msg w o))
        × Settles msg w o (settled msg w o)
  unfolding ffi_guard_noexcept settled surface make_pg_exception
  cleanup_outcome func msg w (returns a v) e t = ground arith
  cleanup_outcome func msg w (throws (pg_exception x) v) e t = ground arith
  cleanup_outcome func msg w (throws (std_exception x) v) e t = ground arith
  cleanup_outcome func msg w (throws foreign_exception v) e t = ground arith
  cleanup_outcome func msg w (raises v) e t = ground arith
  cleanup_outcome func msg w terminates e t = absurd t

  -- A callable that returns, throws or raises at the handler of the guard lets ffi_guard_noexcept
  -- return with the handlers put back and with one warning more exactly if the callable failed.
  pub ffi_guard_noexcept-Settles :
      (func : Cpp P (Unit {0})) (msg : ℕ) (w : World P)
      → CleanupIsTame w (func (armed w))
      → (u : World P) × (ffi_guard_noexcept api func msg w ≡ returns tt u)
        × Settles msg w (func (armed w)) u
  ffi_guard_noexcept-Settles func msg w t =
      let (e, s) = cleanup_outcome func msg w (func (armed w)) refl t in
      (settled msg w (func (armed w)), e, s)

  exit_outcome :
      {A : Type 0} (func : Cpp P (Unit {0})) (msg : ℕ) (scope : Cpp P A) (w : World P)
      (o : Outcome P A)
      → scope w ≡ o
      → ((v : World P) → CleanupIsTame v (func (armed v)))
      → ExitEnds func msg o (scope_exit api func msg scope w)
  unfolding scope_exit
  exit_outcome func msg scope w (returns a v) e t =
      let (u, q, s) = ffi_guard_noexcept-Settles func msg v (t v) in (u, ground arith, s)
  exit_outcome func msg scope w (throws x v) e t =
      let (u, q, s) = ffi_guard_noexcept-Settles func msg v (t v) in (u, ground arith, s)
  exit_outcome func msg scope w (raises v) e t = rw (e, scope_exit) refl
  exit_outcome func msg scope w terminates e t = rw (e, scope_exit) refl

  -- A scope with a scope_exit whose cleanup returns, throws or raises at its own handler is left
  -- in the way its block was left, after a return or an exception the cleanup has run once with
  -- the handlers put back, and a failure of the cleanup adds its warning and nothing else is
  -- thrown.
  pub scope_exit-ExitEnds :
      {A : Type 0} (func : Cpp P (Unit {0})) (msg : ℕ) (scope : Cpp P A) (w : World P)
      → ((v : World P) → CleanupIsTame v (func (armed v)))
      → ExitEnds func msg (scope w) (scope_exit api func msg scope w)
  scope_exit-ExitEnds func msg scope w t = exit_outcome func msg scope w (scope w) refl t

  fail_outcome :
      {A : Type 0} (func : Cpp P (Unit {0})) (msg : ℕ) (scope : Cpp P A) (w : World P)
      (o : Outcome P A)
      → scope w ≡ o
      → Counts w o
      → ((v : World P) → CleanupIsTame v (func (armed v)))
      → FailEnds func msg o (scope_fail api func msg scope w)
  unfolding scope_fail
  fail_outcome func msg scope w (returns a v) e c t = ground arith
  fail_outcome func msg scope w (throws x v) e c t =
      let (u, q, s) = ffi_guard_noexcept-Settles func msg v (t v) in (u, ground arith, s)
  fail_outcome func msg scope w (raises v) e c t = ground arith
  fail_outcome func msg scope w terminates e c t = ground arith

  -- A scope with a scope_fail whose block counts its exceptions, and whose cleanup returns, throws
  -- or raises at its own handler, runs the cleanup once if the block throws and not at all if it
  -- returns, and is left in the way its block was left.
  pub scope_fail-FailEnds :
      {A : Type 0} (func : Cpp P (Unit {0})) (msg : ℕ) (scope : Cpp P A) (w : World P)
      → Counts w (scope w)
      → ((v : World P) → CleanupIsTame v (func (armed v)))
      → FailEnds func msg (scope w) (scope_fail api func msg scope w)
  scope_fail-FailEnds func msg scope w c t = fail_outcome func msg scope w (scope w) refl c t

-- The state after a guarded cleanup, for the two ways in which Postgres leaves one.
module _ {P : Type 0} (api : ErrorApi P) (func : Cpp P (Unit {0})) (msg : ℕ) (w v : World P) where
  pub ffi_guard_noexcept_returns :
      func (armed w) ≡ returns tt v → ffi_guard_noexcept api func msg w ≡ returns tt (restored w v)
  unfolding ffi_guard_noexcept
  ffi_guard_noexcept_returns e = ground arith

  abbrev pub warned_world : World P
  warned_world = record (caught (surfaced_world api w v)) {
    warnings = msg ∷ v.warnings;
    pg = api.delete_context (exception_of api w v).error_cxt (surfaced_world api w v).pg;
  }

  pub ffi_guard_noexcept_raises :
      func (armed w) ≡ raises v
      → v.exception_stack ≡ w.frames
      → ffi_guard_noexcept api func msg w ≡ returns tt warned_world
  unfolding ffi_guard_noexcept surface make_pg_exception
  ffi_guard_noexcept_raises e h = ground arith
