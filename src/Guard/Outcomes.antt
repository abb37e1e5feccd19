-- ===== src/Guard/Outcomes.antt =====
-- What code built from guarded calls of guard.hpp leaves: conditions on the part of the state that Postgres keeps, composed call by call.
use cppgres.Common.{ℕ, ◌≡◌, refl, ==_self}
use cppgres.World.{
  World, Outcome, returns, throws, raises, terminates, Cpp, pure, ◌>>=◌, at_scope_end, modify,
}
use cppgres.Guard.{ErrorApi, ffi_guard, surface, make_pg_exception}
use cppgres.Guard.Restore.{armed, Restored}

module _ {P : Type 0} where
  -- The code returns with `Q` or throws with `E`; no Postgres error leaves, and the process goes on.
  abbrev pub Ends : {A : Type 0} → (A → P → Type 0) → (P → Type 0) → Outcome P A → Type 0
  Ends Q E (returns a v) = Q a v.pg
  Ends Q E (throws e v) = E v.pg
  Ends Q E (raises v) = ⊥
  Ends Q E terminates = ⊥

  -- A call of Postgres: it returns with `Q`, or raises with `E` at the handler on top.
  abbrev pub Calls : {A : Type 0} → (A → P → Type 0) → (P → Type 0) → World P → Outcome P A → Type 0
  Calls Q E w (returns a v) = Q a v.pg
  Calls Q E w (throws e v) = ⊥
  Calls Q E w (raises v) = E v.pg × (v.exception_stack ≡ w.exception_stack)
  Calls Q E w terminates = ⊥

  -- A destructor that always returns leaves the way out as it is.
  abbrev pub settled : {A : Type 0} → (World P → World P) → Outcome P A → Outcome P A
  settled f (returns a v) = returns a (f v)
  settled f (throws e v) = throws e (f v)
  settled f (raises v) = raises v
  settled f terminates = terminates

  pub at_scope_end-settled :
      {A : Type 0} (f : World P → World P) (o : Outcome P A)
      → at_scope_end o (modify f) ≡ settled f o
  at_scope_end-settled f (returns a v) = refl
  at_scope_end-settled f (throws e v) = refl
  at_scope_end-settled f (raises v) = refl
  at_scope_end-settled f terminates = refl

-- One call after another.
module _ {P A B : Type 0} (Q : A → P → Type 0) (R : B → P → Type 0) (E : P → Type 0) where
  Ends-outcome :
      (k : A → Cpp P B) (m : Cpp P A) (w : World P) (o : Outcome P A)
      → m w ≡ o
      → Ends Q E o
      → ((a : A) (v : World P) → Q a v.pg → Ends R E (k a v))
      → Ends R E ((m >>= k) w)
  Ends-outcome k m w (returns a v) e h next = rw e (next a v h)
  Ends-outcome k m w (throws x v) e h next = rw e h
  Ends-outcome k m w (raises v) e h next = absurd h
  Ends-outcome k m w terminates e h next = absurd h

  pub Ends-then :
      (k : A → Cpp P B) (m : Cpp P A) (w : World P)
      → Ends Q E (m w)
      → ((a : A) (v : World P) → Q a v.pg → Ends R E (k a v))
      → Ends R E ((m >>= k) w)
  Ends-then k m w = Ends-outcome k m w (m w) refl

-- A call of Postgres whose result is wrapped.
module _ {P A B : Type 0} (Q : A → P → Type 0) (R : B → P → Type 0) (E : P → Type 0) where
  Calls-outcome :
      (f : A → B) (m : Cpp P A) (w : World P) (o : Outcome P A)
      → m w ≡ o
      → Calls Q E w o
      → ((a : A) (p : P) → Q a p → R (f a) p)
      → Calls R E w ((m >>= λ a. pure (f a)) w)
  Calls-outcome f m w (returns a v) e c wrap = rw e (wrap a v.pg c)
  Calls-outcome f m w (throws x v) e c wrap = absurd c
  Calls-outcome f m w (raises v) e c wrap = rw e c
  Calls-outcome f m w terminates e c wrap = absurd c

  pub Calls-wrapped :
      (f : A → B) (m : Cpp P A) (w : World P)
      → Calls Q E w (m w)
      → ((a : A) (p : P) → Q a p → R (f a) p)
      → Calls R E w ((m >>= λ a. pure (f a)) w)
  Calls-wrapped f m w = Calls-outcome f m w (m w) refl

-- The error functions keep a condition on what Postgres keeps.
abbrev pub KeptByErrors : {P : Type 0} → ErrorApi P → (P → Type 0) → Type 0
KeptByErrors {P} errors E =
    (c : ℕ) (p : P) → E p → E (errors.flush_error_state (errors.with_context c p))

module _ {P A : Type 0} (Q : A → P → Type 0) (E : P → Type 0) (errors : ErrorApi P)
    (kept : KeptByErrors errors E) where
  guarded_outcome :
      (func : Cpp P A) (w : World P) (o : Outcome P A)
      → func (armed w) ≡ o
      → Calls Q E (armed w) o
      → Ends Q E (ffi_guard errors func w)
  unfolding ffi_guard surface make_pg_exception
  guarded_outcome func w (returns a v) e c = rw e c
  guarded_outcome func w (throws x v) e c = absurd c
  guarded_outcome func w (raises v) e c = rw (e, c.1, ==_self w.frames) (kept _ v.pg c.0)
  guarded_outcome func w terminates e c = absurd c

  -- A guarded call returns as the call does, and throws where it raises.
  pub guarded :
      (func : Cpp P A) (w : World P)
      → Calls Q E (armed w) (func (armed w))
      → Ends Q E (ffi_guard errors func w)
  guarded func w = guarded_outcome func w (func (armed w)) refl

module _ {P A : Type 0} (Q R : A → P → Type 0) (E F : P → Type 0) where
  pub Ends-weaken :
      (o : Outcome P A)
      → ((a : A) (p : P) → Q a p → R a p)
      → ((p : P) → E p → F p)
      → Ends Q E o
      → Ends R F o
  Ends-weaken (returns a v) f g h = f a v.pg h
  Ends-weaken (throws e v) f g h = g v.pg h
  Ends-weaken (raises v) f g h = h
  Ends-weaken terminates f g h = h

-- A guarded call whose argument is converted under the guard by calls with guards of their own.
module _ {P A B : Type 0} (Q : A → P → Type 0) (R : B → P → Type 0) (E : P → Type 0)
    (errors : ErrorApi P) (kept : KeptByErrors errors E) (k : A → Cpp P B) (m : Cpp P A)
    (w : World P) where
  called_last :
      (a : A) (v : World P) (o : Outcome P B)
      → m (armed w) ≡ returns a v
      → v.exception_stack ≡ w.frames
      → k a v ≡ o
      → Calls R E v o
      → Ends R E (ffi_guard errors (m >>= k) w)
  unfolding ffi_guard surface make_pg_exception
  called_last a v (returns b u) e s f c = rw (e, f) c
  called_last a v (throws x u) e s f c = absurd c
  called_last a v (raises u) e s f c = rw (e, f, c.1, s, ==_self w.frames) (kept _ u.pg c.0)
  called_last a v terminates e s f c = absurd c

  converted :
      (o : Outcome P A)
      → m (armed w) ≡ o
      → Ends Q E o
      → Restored (armed w) o
      → ((a : A) (v : World P) → Q a v.pg → Calls R E v (k a v))
      → Ends R E (ffi_guard errors (m >>= k) w)
  unfolding ffi_guard
  converted (returns a v) e h s next = called_last a v (k a v) e s.0 refl (next a v h)
  converted (throws x v) e h s next = rw e h
  converted (raises v) e h s next = absurd h
  converted terminates e h s next = absurd h

  pub guarded_after :
      Ends Q E (m (armed w))
      → Restored (armed w) (m (armed w))
      → ((a : A) (v : World P) → Q a v.pg → Calls R E v (k a v))
      → Ends R E (ffi_guard errors (m >>= k) w)
  guarded_after = converted (m (armed w)) refl

module _ {P A : Type 0} (Q R : A → P → Type 0) (E : P → Type 0) (w : World P) where
  pub Calls-weaken :
      (o : Outcome P A) → ((a : A) (p : P) → Q a p → R a p) → Calls Q E w o → Calls R E w o
  Calls-weaken (returns a v) f h = f a v.pg h
  Calls-weaken (throws e v) f h = h
  Calls-weaken (raises v) f h = h
  Calls-weaken terminates f h = h
