-- ===== src/Spi/Stack.antt =====
-- executor.hpp: the stack of live executors after the scope of an executor, on every way out.
use cppgres.Common.{ℕ, suc, ◌≡◌, refl, ◌∙◌, ap, sym, true, some, ◌∷◌}
use cppgres.World.{
  Exn, pg_exception, World, Outcome, returns, throws, raises, terminates, Cpp, at_scope_end,
  at_scope_end_returns, at_scope_end_throws, std_exception, non_atomic_required,
  at_scope_end_returns_fails, at_scope_end_throws_fails,
}
use cppgres.Guard.{ErrorApi, restored}
use cppgres.Guard.Restore.{armed}
use cppgres.Guard.Border.{ffi_guard_returns, ffi_guard_raises, exception_of, surfaced_world}
use cppgres.Spi.Executor.{
  Spi, SpiApi, Executor, tail, pop, construct, destroy, with_executor, construct_nonatomic,
  require_nonatomic, destroy_base, opt_nonatomic,
}

module _ {P : Type 0} where
  -- A call of Postgres: it returns or raises, and does not touch the stack of executors.
  abbrev pub IsServerCall : World (Spi P) → Outcome (Spi P) (Unit {0}) → Type 0
  IsServerCall w (returns a v) = v.pg.executors ≡ w.pg.executors
  IsServerCall w (throws e v) = ⊥
  IsServerCall w (raises v) =
      (v.pg.executors ≡ w.pg.executors) × (v.exception_stack ≡ w.exception_stack)
  IsServerCall w terminates = ⊥

  -- C++ code that leaves the stack as it found it.
  abbrev pub KeepsStack : {A : Type 0} → World (Spi P) → Outcome (Spi P) A → Type 0
  KeepsStack w (returns a v) = v.pg.executors ≡ w.pg.executors
  KeepsStack w (throws e v) = v.pg.executors ≡ w.pg.executors
  KeepsStack w (raises v) = ⊥
  KeepsStack w terminates = Unit

-- What Postgres promises of SPI_connect_ext and SPI_finish, and of handling an error.
pub record StackLaws {P : Type 0} (errors : ErrorApi (Spi P)) (api : SpiApi P) : Type 0 where
  pub connects : (flags : ℕ) (w : World (Spi P)) → IsServerCall w (api.connect_ext flags w)
  pub finishes : (w : World (Spi P)) → IsServerCall w (api.finish w)
  pub context_neutral : (c : ℕ) (p : Spi P) → (errors.with_context c p).executors ≡ p.executors
  pub flush_neutral : (p : Spi P) → (errors.flush_error_state p).executors ≡ p.executors

module _ {P : Type 0} (errors : ErrorApi (Spi P)) (api : SpiApi P)
    (law : StackLaws errors api) where
  abbrev Constructed : ℕ → World (Spi P) → Outcome (Spi P) Executor → Type 0
  Constructed this w (returns e v) = (e.this ≡ this) × (v.pg.executors ≡ this ∷ w.pg.executors)
  Constructed this w (throws x v) = v.pg.executors ≡ w.pg.executors
  Constructed this w (raises v) = ⊥
  Constructed this w terminates = ⊥

  construct_outcome :
      (this flags : ℕ) (w : World (Spi P)) (o : Outcome (Spi P) (Unit {0}))
      → api.connect_ext flags (armed w) ≡ o
      → IsServerCall (armed w) o
      → Constructed this w (construct errors api this flags w)
  unfolding construct
  construct_outcome this flags w (returns a v) e h =
      rw (ffi_guard_returns errors (api.connect_ext flags) w v a e, construct)
        (refl, ap (◌∷◌ this) h)
  construct_outcome this flags w (throws x v) e h = absurd h
  construct_outcome this flags w (raises v) e h =
      rw (ffi_guard_raises errors (api.connect_ext flags) w v e h.1, construct)
        (law.flush_neutral _ ∙ law.context_neutral _ v.pg ∙ h.0)
  construct_outcome this flags w terminates e h = absurd h

  -- The destructor pops, or ends the process: it is noexcept, and SPI_finish may fail.
  data Destroyed (w : World (Spi P)) (o : Outcome (Spi P) (Unit {0})) : Type 0 where
    popped :
        (u : World (Spi P))
        → o ≡ returns tt u
        → u.pg.executors ≡ tail w.pg.executors
        → Destroyed w o
    failed : (x : Exn) (u : World (Spi P)) → o ≡ throws x u → Destroyed w o

  destroy_outcome :
      (e : Executor) (w : World (Spi P)) (o : Outcome (Spi P) (Unit {0}))
      → api.finish (armed w) ≡ o
      → IsServerCall (armed w) o
      → Destroyed w (destroy errors api e w)
  unfolding destroy
  destroy_outcome e w (returns a v) q h =
      popped (pop errors api (restored w v))
        (rw (ffi_guard_returns errors api.finish w v a q, destroy) refl) (ap tail h)
  destroy_outcome e w (throws x v) q h = absurd h
  destroy_outcome e w (raises v) q h =
      failed (pg_exception (exception_of errors w v)) (surfaced_world errors w v)
        (rw (ffi_guard_raises errors api.finish w v q h.1, destroy) refl)
  destroy_outcome e w terminates q h = absurd h

  ended :
      {A : Type 0} (e : Executor) (w v : World (Spi P)) (o : Outcome (Spi P) A)
      → v.pg.executors ≡ e.this ∷ w.pg.executors
      → KeepsStack v o
      → KeepsStack w (at_scope_end o (destroy errors api e))
  ended e w v (returns a x) s k = elim (destroy_outcome e x _ refl (law.finishes (armed x))) [
    | popped u q t ↦ rw (at_scope_end_returns (destroy errors api e) x u q a) (t ∙ ap tail (k ∙ s))
    | failed y u q ↦ rw (at_scope_end_returns_fails (destroy errors api e) x y u q a) tt
  ]
  ended e w v (throws z x) s k = elim (destroy_outcome e x _ refl (law.finishes (armed x))) [
    | popped u q t ↦ rw (at_scope_end_throws (destroy errors api e) x u q z) (t ∙ ap tail (k ∙ s))
    | failed y u q ↦ rw (at_scope_end_throws_fails (destroy errors api e) x y u q z) tt
  ]
  ended e w v (raises x) s k = absurd k
  ended e w v terminates s k = tt

  scope_after :
      {A : Type 0} (this flags : ℕ) (block : Executor → Cpp (Spi P) A) (w : World (Spi P))
      (o : Outcome (Spi P) Executor)
      → ((e : Executor) (v : World (Spi P)) → KeepsStack v (block e v))
      → construct errors api this flags w ≡ o
      → Constructed this w o
      → KeepsStack w (with_executor errors api this flags block w)
  unfolding with_executor
  scope_after this flags block w (returns e v) k q h =
      rw (q, with_executor)
        (ended e w v (block e v) (h.1 ∙ ap (λ t. t ∷ w.pg.executors) (sym h.0)) (k e v))
  scope_after this flags block w (throws x v) k q h = rw (q, with_executor) h
  scope_after this flags block w (raises v) k q h = absurd h
  scope_after this flags block w terminates k q h = absurd h

  -- A block that declares an spi_executor and leaves the stack of live executors alone ends,
  -- returning or throwing, with the stack as it was before the declaration, or ends the process,
  -- as it does when SPI_finish fails in the destructor; the calls of SPI are taken to return or
  -- raise without touching the stack.
  pub with_executor-KeepsStack :
      {A : Type 0} (this flags : ℕ) (block : Executor → Cpp (Spi P) A) (w : World (Spi P))
      → ((e : Executor) (v : World (Spi P)) → KeepsStack v (block e v))
      → KeepsStack w (with_executor errors api this flags block w)
  with_executor-KeepsStack this flags block w k =
      scope_after this flags block w _ k refl
        (construct_outcome this flags w _ refl (law.connects flags (armed w)))

  -- A constructor that gives no executor and leaves the stack as it found it.
  abbrev pub Refused : World (Spi P) → Outcome (Spi P) Executor → Type 0
  Refused w (returns e v) = ⊥
  Refused w (throws x v) = v.pg.executors ≡ w.pg.executors
  Refused w (raises v) = ⊥
  Refused w terminates = Unit

  thrown_away :
      (e : Executor) (w v : World (Spi P)) (x : Exn)
      → v.pg.executors ≡ e.this ∷ w.pg.executors
      → Refused w (at_scope_end (throws x v) (destroy errors api e))
  thrown_away e w v x s = elim (destroy_outcome e v _ refl (law.finishes (armed v))) [
    | popped u q t ↦ rw (at_scope_end_throws (destroy errors api e) v u q x) (t ∙ ap tail s)
    | failed y u q ↦ rw (at_scope_end_throws_fails (destroy errors api e) v y u q x) tt
  ]

  nonatomic_after :
      (this : ℕ) (w : World (Spi P)) (o : Outcome (Spi P) Executor)
      → construct errors api this opt_nonatomic w ≡ o
      → Constructed this w o
      → Refused w (construct_nonatomic errors api this (some true) w)
  unfolding construct_nonatomic require_nonatomic destroy_base
  nonatomic_after this w (returns e v) q h =
      let t = record v { uncaught = suc v.uncaught } in
      rw (q, construct_nonatomic)
        (thrown_away e w t (std_exception non_atomic_required)
          (h.1 ∙ ap (λ t. t ∷ w.pg.executors) (sym h.0)))
  nonatomic_after this w (throws x v) q h = rw (q, construct_nonatomic) h
  nonatomic_after this w (raises v) q h = absurd h
  nonatomic_after this w terminates q h = absurd h

  -- The constructor of spi_nonatomic_executor in an atomic context never returns: it throws with
  -- the stack of live executors as it was, or ends the process when SPI_finish fails.
  pub construct_nonatomic-Refused :
      (this : ℕ) (w : World (Spi P)) → Refused w (construct_nonatomic errors api this (some true) w)
  construct_nonatomic-Refused this w =
      nonatomic_after this w _ refl
        (construct_outcome this opt_nonatomic w _ refl (law.connects opt_nonatomic (armed w)))
