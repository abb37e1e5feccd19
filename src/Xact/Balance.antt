-- ===== src/Xact/Balance.antt =====
-- `internal_subtransaction` of xact.hpp: the depth of subtransactions over its scope.
use cppgres.Guard.Scopes.{ffi_guard_noexcept_returns, ffi_guard_noexcept_raises, warned_world}
use cppgres.Common.{
  ℕ, suc, ◌≡◌, refl, ap, ◌∙◌, ◌⊎◌, inl, inr, Bool, false, not, ◌||◌, Option, List, ◌∷◌, ltb,
  Bool-cases, arith,
}
use cppgres.World.{
  World, Outcome, returns, throws, raises, terminates, Cpp, at_scope_end, at_scope_end_returns,
  at_scope_end_throws,
}
use cppgres.Guard.{ErrorApi, ffi_guard_noexcept, restored}
use cppgres.Guard.Restore.{armed}
use cppgres.Guard.Border.{ffi_guard_raises, ffi_guard_returns}
use cppgres.Xact.Subtransaction.{
  SubxactApi, Subtransaction, finishing_failed, restore, initial, construct, commit, finisher,
  destroy, with_subtransaction,
}

module _ {P : Type 0} (depth : P → ℕ) where
  -- A call that begins a subtransaction, which becomes the one that owns resources, or refuses
  -- before it has begun any, and leaves the depth and the owner alone.
  abbrev pub Begins : World P → Outcome P (Unit {0}) → Type 0
  Begins w (returns a v) =
      (depth v.pg ≡ suc (depth w.pg)) × (v.uncaught ≡ w.uncaught) × (v.warnings ≡ w.warnings)
  Begins w (throws e v) = ⊥
  Begins w (raises v) =
      (depth v.pg ≡ depth w.pg)
      × (v.uncaught ≡ w.uncaught)
      × (v.exception_stack ≡ w.exception_stack)
      × (v.current_resource_owner ≡ w.current_resource_owner)
  Begins w terminates = ⊥

  -- A call that ends the innermost one, or fails and leaves the depth alone.
  abbrev pub Finishes : World P → Outcome P (Unit {0}) → Type 0
  Finishes w (returns a v) =
      (suc (depth v.pg) ≡ depth w.pg) × (v.uncaught ≡ w.uncaught) × (v.warnings ≡ w.warnings)
  Finishes w (throws e v) = ⊥
  Finishes w (raises v) =
      (depth v.pg ≡ depth w.pg)
      × (v.uncaught ≡ w.uncaught)
      × (v.warnings ≡ w.warnings)
      × (v.exception_stack ≡ w.exception_stack)
  Finishes w terminates = ⊥

  -- A block that leaves the depth as it found it, and counts exceptions right.
  abbrev pub Keeps : {A : Type 0} → World P → Outcome P A → Type 0
  Keeps w (returns a v) = (depth v.pg ≡ depth w.pg) × (v.uncaught ≡ w.uncaught)
  Keeps w (throws e v) = (depth v.pg ≡ depth w.pg) × (v.uncaught ≡ suc w.uncaught)
  Keeps w (raises v) = ⊥
  Keeps w terminates = ⊥

  -- The way out of a scope: the depth is as before, or ending the subtransaction was reported to
  -- have failed; the memory context and the resource owner are as before.
  abbrev pub Leaves : World P → World P → Type 0
  Leaves w v =
      ((depth v.pg ≡ depth w.pg)
        ⊎ ((depth v.pg ≡ suc (depth w.pg))
            × ((ws : List ℕ) × (v.warnings ≡ finishing_failed ∷ ws))))
      × (v.current_memory_context ≡ w.current_memory_context)
      × (v.current_resource_owner ≡ w.current_resource_owner)

  abbrev pub LeavesScope : {A : Type 0} → World P → Outcome P A → Type 0
  LeavesScope w (returns a v) = Leaves w v
  LeavesScope w (throws e v) = Leaves w v
  LeavesScope w (raises v) = ⊥
  LeavesScope w terminates = ⊥

-- What Postgres promises of the calls, and that the handling of an error leaves the depth alone.
pub record Subxacts {P : Type 0} (errors : ErrorApi P) (api : SubxactApi P) (depth : P → ℕ)
    : Type 0 where
  pub begins : (name : Option ℕ) (w : World P) → Begins depth w (api.begin name w)
  pub releases : (w : World P) → Finishes depth w (api.release w)
  pub rolls_back : (w : World P) → Finishes depth w (api.roll_back w)
  pub context_neutral : (c : ℕ) (p : P) → depth (errors.with_context c p) ≡ depth p
  pub flush_neutral : (p : P) → depth (errors.flush_error_state p) ≡ depth p
  pub delete_neutral : (c : ℕ) (p : P) → depth (errors.delete_context c p) ≡ depth p

module _ {P : Type 0} (errors : ErrorApi P) (api : SubxactApi P) (depth : P → ℕ)
    (law : Subxacts errors api depth) where
  -- What the noexcept guard leaves of a finishing call.
  abbrev Ended : World P → World P → Type 0
  Ended w u =
      (u.uncaught ≡ w.uncaught)
      × (((suc (depth u.pg) ≡ depth w.pg) × (u.warnings ≡ w.warnings))
          ⊎ ((depth u.pg ≡ depth w.pg) × (u.warnings ≡ finishing_failed ∷ w.warnings)))

  guarded_finish :
      (f : Cpp P (Unit {0})) (w : World P) (o : Outcome P (Unit {0}))
      → f (armed w) ≡ o
      → Finishes depth (armed w) o
      → (u : World P) × (ffi_guard_noexcept errors f finishing_failed w ≡ returns tt u) × Ended w u
  guarded_finish f w (returns a v) e h =
      (restored w v, ffi_guard_noexcept_returns errors f finishing_failed w v e, ground arith)
  guarded_finish f w (throws x v) e h = absurd h
  guarded_finish f w (raises v) e h = (
    warned_world errors f finishing_failed w v,
    ffi_guard_noexcept_raises errors f finishing_failed w v e h.3,
    (
      omega (arith, h.1),
      inr (
        law.delete_neutral _ _ ∙ law.flush_neutral _ ∙ law.context_neutral _ v.pg ∙ h.0,
        ap (◌∷◌ finishing_failed) h.2,
      ),
    ),
  )
  guarded_finish f w terminates e h = absurd h

  finisher-Finishes :
      (s : Subtransaction) (w v : World P) → Finishes depth v (finisher errors api s w v)
  unfolding finisher
  finisher-Finishes s w v = elim (Bool-cases (ltb s.uncaught w.uncaught || not s.should_commit)) [
    | inl h ↦ rw h (law.rolls_back v)
    | inr h ↦ rw h (law.releases v)
  ]

  destroy_as :
      (s : Subtransaction) (w u : World P)
      → s.finished ≡ false
      → ffi_guard_noexcept errors (finisher errors api s w) finishing_failed w ≡ returns tt u
      → destroy errors api s w ≡ returns tt (restore errors api s u)
  unfolding destroy
  destroy_as s w u f e = simp (f, e)

  -- The destructor of an object that has not finished.
  pub destroy_unfinished :
      (s : Subtransaction) (w : World P)
      → s.finished ≡ false
      → (u : World P) × (destroy errors api s w ≡ returns tt u)
        × Ended w u
        × (u.current_memory_context ≡ s.ctx)
        × (u.current_resource_owner ≡ s.owner)
  unfolding restore
  destroy_unfinished s w f =
      let (u, e, h) =
        guarded_finish (finisher errors api s w) w _ refl (finisher-Finishes s w (armed w)) in
      (restore errors api s u, destroy_as s w u f e, h, refl, refl)

  -- The constructor: an object and one more subtransaction, or the error and as many as before.
  abbrev pub Constructed : Bool → World P → Outcome P Subtransaction → Type 0
  Constructed commit w (returns s v) =
      (s ≡ initial errors api commit w)
      × (depth v.pg ≡ suc (depth w.pg))
      × (v.uncaught ≡ w.uncaught)
  Constructed commit w (throws e v) =
      (depth v.pg ≡ depth w.pg)
      × (v.uncaught ≡ suc w.uncaught)
      × (v.current_memory_context ≡ w.current_memory_context)
      × (v.current_resource_owner ≡ w.current_resource_owner)
  Constructed commit w (raises v) = ⊥
  Constructed commit w terminates = ⊥

  construct_outcome :
      (name : Option ℕ) (commit : Bool) (w : World P) (o : Outcome P (Unit {0}))
      → api.begin name (armed w) ≡ o
      → Begins depth (armed w) o
      → Constructed commit w (construct errors api name commit w)
  unfolding construct
  construct_outcome name commit w (returns a v) e h =
      rw (ffi_guard_returns errors (api.begin name) w v a e, construct) (refl, h.0, h.1)
  construct_outcome name commit w (throws x v) e h = absurd h
  construct_outcome name commit w (raises v) e h =
      rw (ffi_guard_raises errors (api.begin name) w v e h.2, construct)
        (law.flush_neutral _ ∙ law.context_neutral _ v.pg ∙ h.0, omega (arith, h.1), refl, h.3)
  construct_outcome name commit w terminates e h = absurd h

  pub construct-Constructed :
      (name : Option ℕ) (commit : Bool) (w : World P)
      → Constructed commit w (construct errors api name commit w)
  construct-Constructed name commit w =
      construct_outcome name commit w _ refl (law.begins name (armed w))

  -- The end of the scope, after a block that kept the depth at one more than `w` had.
  end_of_scope :
      {A : Type 0} (s : Subtransaction) (w v : World P) (o : Outcome P A)
      → s.finished ≡ false
      → s.ctx ≡ w.current_memory_context
      → s.owner ≡ w.current_resource_owner
      → depth v.pg ≡ suc (depth w.pg)
      → Keeps depth v o
      → LeavesScope depth w (at_scope_end o (destroy errors api s))
  end_of_scope s w v (returns a x) f c r d k =
      let (u, e, h, m, q) = destroy_unfinished s x f in
      rw (at_scope_end_returns (destroy errors api s) x u e a) (ground arith, m ∙ c, q ∙ r)
  end_of_scope s w v (throws y x) f c r d k =
      let (u, e, h, m, q) = destroy_unfinished s x f in
      rw (at_scope_end_throws (destroy errors api s) x u e y) (ground arith, m ∙ c, q ∙ r)
  end_of_scope s w v (raises x) f c r d k = absurd k
  end_of_scope s w v terminates f c r d k = absurd k

  scope_after :
      {A : Type 0} (m : Cpp P A) (name : Option ℕ) (commit : Bool) (w : World P)
      (o : Outcome P Subtransaction)
      → ((v : World P) → Keeps depth v (m v))
      → construct errors api name commit w ≡ o
      → Constructed commit w o
      → LeavesScope depth w (with_subtransaction errors api name commit (λ s v. (m v, s)) w)
  unfolding with_subtransaction initial
  scope_after m name commit w (returns s v) k e h =
      rw (e, with_subtransaction)
        (end_of_scope s w v (m v) (ap (λ t. t.finished) h.0) (ap (λ t. t.ctx) h.0)
          (ap (λ t. t.owner) h.0) h.1 (k v))
  scope_after m name commit w (throws x v) k e h = rw (e, with_subtransaction) (inl h.0, h.2, h.3)
  scope_after m name commit w (raises v) k e h = absurd h
  scope_after m name commit w terminates k e h = absurd h

  -- A scope of internal_subtransaction whose block keeps the nesting depth of Postgres and counts
  -- its exceptions ends, returning or throwing, at the depth it began at, unless a WARNING says
  -- that finishing failed and the depth is one more; the memory context and the resource owner are
  -- those at its begin on every path, although a subtransaction has an owner of its own.
  -- Conditions: Postgres moves the depth as its calls promise, and where it refuses to begin a
  -- subtransaction it leaves the depth and the owner alone.
  pub with_subtransaction-LeavesScope :
      {A : Type 0} (m : Cpp P A) (name : Option ℕ) (commit : Bool) (w : World P)
      → ((v : World P) → Keeps depth v (m v))
      → LeavesScope depth w (with_subtransaction errors api name commit (λ s v. (m v, s)) w)
  with_subtransaction-LeavesScope m name commit w k =
      scope_after m name commit w _ k refl (construct-Constructed name commit w)
