-- ===== src/Syscache/Pins.antt =====
-- syscache.hpp: the pins on tuples over the life of an object.
use cppgres.Common.{ℕ, suc, ◌≡◌, ◌∙◌, Option, none, some, List}
use cppgres.World.{World, Outcome, returns, throws, raises, terminates, Cpp}
use cppgres.Guard.{ErrorApi, ffi_guard}
use cppgres.Guard.Restore.{armed}
use cppgres.Guard.Outcomes.{Ends, Calls, Ends-then, guarded, settled, at_scope_end-settled}
use cppgres.Syscache.{CacheApi, valid_tuple, construct, destroy, with_syscache}

-- How often each tuple is pinned. `X` is why an exception may leave: there is no such tuple, a call
-- failed, or what the user of the tuple allows. A search that finds a tuple pins it once more, releasing takes
-- a pin away.
module _ {P : Type 0} (pins : P → ℕ → ℕ) where
  abbrev pub SamePins : P → P → Type 0
  SamePins p q = (t : ℕ) → pins q t ≡ pins p t

  abbrev pub Pinned : ℕ → P → P → Type 0
  Pinned t p q = (pins q t ≡ suc (pins p t)) × ((u : ℕ) → ¬ (u ≡ t) → pins q u ≡ pins p u)

  abbrev pub Found : Type 0 → P → Option ℕ → P → Type 0
  Found X p none q = X × SamePins p q
  Found X p (some t) q = Pinned t p q

  pub record PinLaws (X : Type 0) (errors : ErrorApi P) (api : CacheApi P) : Type 0 where
    pub searches :
        (c : ℕ) (keys : List ℕ) (w : World P)
        → Calls (Found X w.pg) (λ p. X × SamePins w.pg p) w (api.search c keys w)
    pub releases : (t : ℕ) (p q : P) → Pinned t p q → SamePins p (api.release t q)
    pub errors_keep :
        (c : ℕ) (p : P) → SamePins p (errors.flush_error_state (errors.with_context c p))

module _ {P A : Type 0} (pins : P → ℕ → ℕ) (errors : ErrorApi P) (api : CacheApi P) (X : Type 0)
    (laws : PinLaws pins X errors api) (Q : A → Type 0) where
  open laws use {searches, releases, errors_keep}

  construct-Pinned :
      (c : ℕ) (keys : List ℕ) (w : World P)
      → Ends
          (λ t. Pinned pins t w.pg)
          (λ p. X × SamePins pins w.pg p)
          (construct errors api c keys w)
  unfolding construct valid_tuple
  construct-Pinned c keys w =
      Ends-then (Found pins X w.pg) (λ t. Pinned pins t w.pg) (λ p. X × SamePins pins w.pg p) _
        (ffi_guard errors (api.search c keys)) w
        (guarded (Found pins X w.pg) (λ p. X × SamePins pins w.pg p) errors
          (λ d p h. (h.0, λ t. errors_keep d p t ∙ h.1 t)) (api.search c keys) w
          (searches c keys (armed w)))
        found
    where
      found :
          (o : Option ℕ) (v : World P)
          → Found pins X w.pg o v.pg
          → Ends (λ t. Pinned pins t w.pg) (λ p. X × SamePins pins w.pg p) (valid_tuple o v)
      found none v h = h
      found (some t) v h = h

  released :
      (t : ℕ) (p : P) (o : Outcome P A)
      → Ends (λ a q. Q a × Pinned pins t p q) (λ q. X × Pinned pins t p q) o
      → Ends
          (λ a q. Q a × SamePins pins p q)
          (λ q. X × SamePins pins p q)
          (settled (destroy errors api t) o)
  unfolding destroy
  released t p (returns a v) h = (h.0, releases t p v.pg h.1)
  released t p (throws e v) h = (h.0, releases t p v.pg h.1)
  released t p (raises v) h = h
  released t p terminates h = h

  -- A block with a tuple of the system cache leaves every tuple pinned as often as before, whether
  -- it returns, throws or finds no tuple, if what it runs keeps the pins.
  pub with_syscache-SamePins :
      (c : ℕ) (keys : List ℕ) (block : ℕ → Cpp P A) (w : World P)
      → ((t : ℕ) (v : World P)
          → Pinned pins t w.pg v.pg
          → Ends (λ a q. Q a × Pinned pins t w.pg q) (λ q. X × Pinned pins t w.pg q) (block t v))
      → Ends
          (λ a q. Q a × SamePins pins w.pg q)
          (λ p. X × SamePins pins w.pg p)
          (with_syscache errors api c keys block w)
  unfolding with_syscache
  with_syscache-SamePins c keys block w keeps =
      Ends-then (λ t. Pinned pins t w.pg) (λ a q. Q a × SamePins pins w.pg q)
        (λ p. X × SamePins pins w.pg p) _ (construct errors api c keys) w
        (construct-Pinned c keys w)
        (λ t v h.
          rw (at_scope_end-settled (destroy errors api t) (block t v))
            (released t w.pg (block t v) (keeps t v h)))
