-- ===== src/Bgw/Handles.antt =====
-- bgw.hpp: the variables that `get_pid` and `start` pass to Postgres without initialising them.
use cppgres.Common.{
  ℕ, ◌≡◌, ◌≢◌, refl, sym, ◌∙◌, true, false, not, ◌==◌, Bool-cases, inl, inr, ==-eq_false,
}
use cppgres.World.{World, Outcome, returns, throws, raises, terminates, Cpp, ◌>>=◌}
use cppgres.Guard.{ErrorApi, ffi_guard, restored}
use cppgres.Guard.Restore.{armed}
use cppgres.Guard.Border.{ffi_guard_returns}
use cppgres.Bgw.{
  Spec, Status, started, not_yet_started, stopped, postmaster_is_dead, WorkerApi, pid_or_throw,
  get_pid, start, terminate,
}

-- Two answers of GetBackgroundWorkerPid that differ in the pid at most, and not for a worker that
-- was started.
abbrev pub SameAnswer : {P : Type 0} → Outcome P (Status × ℕ) → Outcome P (Status × ℕ) → Type 0
SameAnswer (returns (s, c) v) o = (d : ℕ) × (o ≡ returns (s, d) v) × (s ≡ started → c ≡ d)
SameAnswer (throws e v) o = o ≡ throws e v
SameAnswer (raises v) o = o ≡ raises v
SameAnswer terminates o = o ≡ terminates

module _ {P : Type 0} (errors : ErrorApi P) (api : WorkerApi P) where
  ffi_guard-same :
      {A : Type 0} (f g : Cpp P A) (w : World P)
      → f (armed w) ≡ g (armed w)
      → ffi_guard errors f w ≡ ffi_guard errors g w
  unfolding ffi_guard
  ffi_guard-same f g w e = rw e refl

  pid_or_throw-same :
      (s : Status) (c d : ℕ) (v : World P)
      → (s ≡ started → c ≡ d)
      → pid_or_throw (s, c) v ≡ pid_or_throw (s, d) v
  unfolding pid_or_throw
  pid_or_throw-same started c d v h = rw (h refl) refl
  pid_or_throw-same not_yet_started c d v h = refl
  pid_or_throw-same stopped c d v h = refl
  pid_or_throw-same postmaster_is_dead c d v h = refl

  asked : ℕ → ℕ → Cpp P ℕ
  unfolding pid_or_throw
  asked i h = do answer ← ffi_guard errors (api.get_pid h i); pid_or_throw answer

  asked-same :
      (i j h : ℕ) (w : World P) (o : Outcome P (Status × ℕ))
      → api.get_pid h i (armed w) ≡ o
      → SameAnswer o (api.get_pid h j (armed w))
      → asked i h w ≡ asked j h w
  unfolding asked
  asked-same i j h w (returns (s, c) v) e (d, q, k) =
      rw
        (
          ffi_guard_returns errors (api.get_pid h i) w v (s, c) e,
          ffi_guard_returns errors (api.get_pid h j) w v (s, d) q,
        )
        (pid_or_throw-same s c d (restored w v) k)
  asked-same i j h w (throws x v) e q =
      rw (ffi_guard-same (api.get_pid h i) (api.get_pid h j) w (e ∙ sym q)) refl
  asked-same i j h w (raises v) e q =
      rw (ffi_guard-same (api.get_pid h i) (api.get_pid h j) w (e ∙ sym q)) refl
  asked-same i j h w terminates e q =
      rw (ffi_guard-same (api.get_pid h i) (api.get_pid h j) w (e ∙ sym q)) refl

  -- If GetBackgroundWorkerPid stores the pid of a worker that was started, the outcome of get_pid
  -- does not depend on what stood in the variable that it passes uninitialised.
  pub get_pid-Determined :
      (i j h : ℕ) (w : World P)
      → SameAnswer (api.get_pid h i (armed w)) (api.get_pid h j (armed w))
      → get_pid errors api i h w ≡ get_pid errors api j h w
  unfolding get_pid asked
  get_pid-Determined i j h w same = elim (Bool-cases (not (h == 0))) [
    | inl e ↦ rw e (asked-same i j h w _ refl same)
    | inr e ↦ rw e refl
  ]

  -- When Postgres refuses to register a dynamic worker and leaves the variable for the handle
  -- alone, start returns what stood in that uninitialised variable as the handle, and terminate
  -- passes it on to Postgres if it is not null.
  pub refused_start :
      (i : ℕ) (spec : Spec) (w v : World P)
      → i ≢ 0
      → api.register_dynamic spec i (armed w) ≡ returns (false, i) v
      → (do h ← start errors api i true spec; terminate errors api h) w
        ≡ ffi_guard errors (api.terminate i) (restored w v)
  unfolding start terminate
  refused_start i spec w v n e =
      rw
        (ffi_guard_returns errors (api.register_dynamic spec i) w v (false, i) e, ==-eq_false i 0 n)
        refl
