-- ===== src/Xact/Choice.antt =====
-- xact.hpp: which call of Postgres ends a scope of `internal_subtransaction`.
use cppgres.Common.{ℕ, ◌≡◌, refl, Bool, true, false, Option, if◌then◌else◌, arith}
use cppgres.World.{
  World, Outcome, returns, throws, raises, terminates, Cpp, ◌>>◌, modify, at_scope_end,
}
use cppgres.Guard.{ErrorApi, ffi_guard, ffi_guard_noexcept, restored}
use cppgres.Guard.Restore.{armed}
use cppgres.Guard.Scopes.{Counts}
use cppgres.Guard.Border.{ffi_guard_returns}
use cppgres.Xact.Subtransaction.{
  SubxactApi, Subtransaction, finishing_failed, restore, initial, construct, commit, finisher,
  destroy, with_subtransaction,
}

module _ {P : Type 0} (errors : ErrorApi P) (api : SubxactApi P) where
  -- The context and the owner that `w` had are the current ones again.
  abbrev pub finish_with : Cpp P (Unit {0}) → World P → Cpp P (Unit {0})
  finish_with f w =
      ffi_guard_noexcept errors f finishing_failed
      >> modify (λ u. record u {
        current_memory_context = w.current_memory_context;
        current_resource_owner = w.current_resource_owner;
      })

  -- How the scope ends, by the way in which its block did: a block that returns is committed
  -- or rolled back as the flag says, one that throws is rolled back. The scope was entered in `w`.
  abbrev pub EndsWith : {A : Type 0} → World P → Bool → Outcome P A → Outcome P A → Type 0
  EndsWith w flag (returns a v) r =
      r ≡ at_scope_end (returns a v) (finish_with (if flag then api.release else api.roll_back) w)
  EndsWith w flag (throws e v) r = r ≡ at_scope_end (throws e v) (finish_with api.roll_back w)
  EndsWith w flag (raises v) r = r ≡ raises v
  EndsWith w flag terminates r = r ≡ terminates

  chosen :
      {A : Type 0} (w v : World P) (flag : Bool) (o : Outcome P A)
      → v.uncaught ≡ w.uncaught
      → Counts v o
      → EndsWith w flag o (at_scope_end o (destroy errors api (initial errors api flag w)))
  unfolding destroy finisher initial restore
  chosen w v true (returns a x) k c = ground arith
  chosen w v false (returns a x) k c = ground arith
  chosen w v true (throws e x) k c = ground arith
  chosen w v false (throws e x) k c = ground arith
  chosen w v flag (raises x) k c = refl
  chosen w v flag terminates k c = refl

  chosen_after :
      {A : Type 0} (m : Cpp P A) (name : Option ℕ) (flag : Bool) (w v : World P)
      → construct errors api name flag w ≡ returns (initial errors api flag w) v
      → v.uncaught ≡ w.uncaught
      → Counts v (m v)
      → EndsWith w flag (m v) (with_subtransaction errors api name flag (λ s u. (m u, s)) w)
  unfolding with_subtransaction
  chosen_after m name flag w v e k c = rw (e, with_subtransaction) (chosen w v flag (m v) k c)

  -- When the subtransaction was begun without a change to the number of exceptions in flight, and
  -- the block counts its exceptions, a block that returns is released or rolled back as the flag
  -- at construction says, one that throws is rolled back whatever the flag says, and the memory
  -- context and the owner that were current before the scope are put back after it.
  pub with_subtransaction-EndsWith :
      {A : Type 0} (m : Cpp P A) (name : Option ℕ) (flag : Bool) (w v : World P)
      → api.begin name (armed w) ≡ returns tt v
      → v.uncaught ≡ w.uncaught
      → ((u : World P) → Counts u (m u))
      → EndsWith w flag
          (m (record (restored w v) { current_memory_context = w.current_memory_context }))
          (with_subtransaction errors api name flag (λ s u. (m u, s)) w)
  unfolding construct initial
  with_subtransaction-EndsWith m name flag w v e k c =
      chosen_after m name flag w _
        (rw (ffi_guard_returns errors (api.begin name) w v tt e, construct) refl) k (c _)

  -- An object that was committed or rolled back by hand is left alone by its destructor.
  finished_inert :
      (s t : Subtransaction) (w v u : World P)
      → t.finished ≡ true
      → destroy errors api t u ≡ returns tt u
  unfolding destroy
  finished_inert s t w v u f = simp f

  commit_outcome :
      (s t : Subtransaction) (w v u : World P) (o : Outcome P (Unit {0}))
      → ffi_guard errors api.release w ≡ o
      → commit errors api s w ≡ returns t v
      → (v.current_memory_context ≡ s.ctx)
        × (v.current_resource_owner ≡ s.owner)
        × (t.finished ≡ true)
  unfolding commit restore
  commit_outcome s t w v u (returns a x) e h = ground arith
  commit_outcome s t w v u (throws y x) e h = ground arith
  commit_outcome s t w v u (raises x) e h = ground arith
  commit_outcome s t w v u terminates e h = ground arith

  -- When commit of an internal_subtransaction returns, the memory context and the resource owner
  -- are those at its construction, and the destructor of the object then does nothing in any
  -- state.
  pub commit_once :
      (s t : Subtransaction) (w v u : World P)
      → commit errors api s w ≡ returns t v
      → (v.current_memory_context ≡ s.ctx)
        × (v.current_resource_owner ≡ s.owner)
        × (destroy errors api t u ≡ returns tt u)
  commit_once s t w v u h =
      let (c, r, f) = commit_outcome s t w v u _ refl h in (c, r, finished_inert s t w v u f)
