-- ===== src/Xact/Subtransaction.antt =====
-- `internal_subtransaction` of xact.hpp.
use cppgres.Common.{ℕ, Bool, true, false, not, ◌||◌, Option, ltb, if◌then◌else◌}
use cppgres.World.{World, Outcome, returns, Cpp, pure, ◌>>=◌, ◌>>◌, modify, at_scope_end}
use cppgres.Guard.{ErrorApi, ffi_guard, ffi_guard_noexcept}

-- BeginInternalSubTransaction (with a name or nullptr), ReleaseCurrentSubTransaction and
-- RollbackAndReleaseCurrentSubTransaction.
pub record SubxactApi (P : Type 0) : Type 0 where
  pub begin : Option ℕ → Cpp P (Unit {0})
  pub release : Cpp P (Unit {0})
  pub roll_back : Cpp P (Unit {0})

pub record Subtransaction : Type 0 where
  pub ctx : ℕ
  pub owner : ℕ
  pub should_commit : Bool
  pub uncaught : ℕ
  pub finished : Bool

-- "cppgres: finishing internal subtransaction failed"
abbrev pub finishing_failed : ℕ
finishing_failed = 1

module _ {P : Type 0} (errors : ErrorApi P) (api : SubxactApi P) where
  open api use {begin, release, roll_back}

  -- restore()
  unfoldable pub restore : Subtransaction → World P → World P
  restore s w = record w { current_memory_context = s.ctx; current_resource_owner = s.owner }

  -- the member initialisers
  unfoldable pub initial : Bool → World P → Subtransaction
  initial commit w = record {
    ctx = w.current_memory_context;
    owner = w.current_resource_owner;
    should_commit = commit;
    uncaught = w.uncaught;
    finished = false;
  }

  -- internal_subtransaction(commit) and internal_subtransaction(name, commit)
  unfoldable pub construct : Option ℕ → Bool → Cpp P Subtransaction
  unfolding initial
  construct name commit w =
      (do
        ffi_guard errors (begin name)
        modify (λ v. record v { current_memory_context = (initial commit w).ctx })
        pure (initial commit w))
        w

  -- commit(), rollback(): the object is changed only after Postgres returned
  unfoldable pub commit : Subtransaction → Cpp P Subtransaction
  unfolding restore
  commit s = do ffi_guard errors release; modify (restore s); pure (record s { finished = true })

  unfoldable pub rollback : Subtransaction → Cpp P Subtransaction
  unfolding restore
  rollback s = do
    ffi_guard errors roll_back
    modify (restore s)
    pure (record s { finished = true })

  -- what the destructor calls in Postgres
  unfoldable pub finisher : Subtransaction → World P → Cpp P (Unit {0})
  finisher s w = if ltb s.uncaught w.uncaught || not s.should_commit then roll_back else release

  -- ~internal_subtransaction()
  unfoldable pub destroy : Subtransaction → Cpp P (Unit {0})
  unfolding finisher restore
  destroy s w =
      if s.finished
      then returns tt w
      else (ffi_guard_noexcept errors (finisher s w) finishing_failed >> modify (restore s)) w

  -- A block that declares a subtransaction; the rest of the block may commit it or roll it back.
  unfoldable pub with_subtransaction :
      {A : Type 0}
      → Option ℕ
      → Bool
      → (Subtransaction → World P → Outcome P A × Subtransaction)
      → Cpp P A
  unfolding construct destroy
  with_subtransaction name should_commit block =
      construct name should_commit >>= λ s w. let (o, t) = block s w in at_scope_end o (destroy t)
