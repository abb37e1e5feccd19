-- ===== src/Memory/Tracking/Assignment.antt =====
-- The assignments of `tracking_memory_context` of memory.hpp.
use cppgres.Common.{
  ℕ, ◌≡◌, ◌≢◌, refl, sym, ap, true, Option, none, some, [], ◌∷◌, ==_self, ==-eq_false,
  if◌then◌else◌, get_elem?, set, arith,
}
use cppgres.Memory.Tracking.{
  Store, reached, dangling, holds, use_count, copy_assign, reset, copy_assigns, resets, step, run,
}
use cppgres.Memory.Tracking.Counts.{placed, dangles}

assigned :
    (st : Store) (i j s : ℕ) (h : Option ℕ)
    → i ≢ j
    → get_elem? st.objects i ≡ some (some (some s))
    → get_elem? st.objects j ≡ some (some h)
    → copy_assign st i j ≡ reached (record st { objects = set st.objects i (some h) })
unfolding copy_assign
assigned st i j s h ne p q = rw (copy_assign, p, q, ==-eq_false i j ne) refl

none_left :
    (st : Store) (i s : ℕ) (h : Option ℕ)
    → get_elem? st.objects i ≡ some (some (some s))
    → h ≢ some s
    → use_count s st.objects ≡ 1
    → use_count s (set st.objects i (some h)) ≡ 0
none_left st i s h p o u = omega (
  arith,
  placed s i st.objects (some (some s)) (some h) p,
  u,
  other h o,
  ap {B = ℕ} (λ b. if b then 1 else 0) (==_self s),
)
  where
    other : (h : Option ℕ) → h ≢ some s → holds s (some h) ≡ 0
    other none o = refl
    other (some t) o = rw (==-eq_false s t (λ e. o (ap some (sym e)))) refl

-- When a tracker that is the only holder of its state, whose callback is still registered, is
-- assigned another tracker with a different state or none, the next reset of the context writes to
-- the freed state.
pub assignment_dangles :
    (st : Store) (i j s : ℕ) (h : Option ℕ)
    → i ≢ j
    → get_elem? st.objects i ≡ some (some (some s))
    → get_elem? st.objects j ≡ some (some h)
    → h ≢ some s
    → use_count s st.objects ≡ 1
    → get_elem? st.armed s ≡ some true
    → run st (copy_assigns i j ∷ resets ∷ []) ≡ dangling
unfolding run step reset
assignment_dangles st i j s h ne p q o u g =
    rw (run, assigned st i j s h ne p q)
      (rw
        (dangles (set st.objects i (some h)) st.armed 0 s s (omega arith) g
          (none_left st i s h p o u))
        refl)
