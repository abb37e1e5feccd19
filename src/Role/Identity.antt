-- ===== src/Role/Identity.antt =====
-- The security_context of role.hpp: who the code runs as, inside and after.
use cppgres.Common.{ℕ, ◌≡◌, refl, ◌∙◌, sym}
use cppgres.World.{World, Outcome, returns, throws, raises, terminates, Cpp}
use cppgres.Guard.{ErrorApi}
use cppgres.Guard.Outcomes.{at_scope_end-settled, settled}
use cppgres.Role.{RoleApi, with_security_context}

module _ {P : Type 0} (api : RoleApi P) where
  -- What was set is what is read.
  abbrev pub SetsIdentity : Type 0
  SetsIdentity =
      (user ctx : ℕ) (p : P)
      → api.get_user_id_and_sec_context (api.set_user_id_and_sec_context user ctx p) ≡ (user, ctx)

  -- Where the block starts.
  abbrev pub entered : ℕ → ℕ → World P → World P
  entered role context w = record w { pg = api.set_user_id_and_sec_context role context w.pg }

  -- The block left in the given way; after the scope the user and the
  -- security context of `w` are back, unless an error jumped over the scope.
  abbrev pub LeavesAs : {A : Type 0} → World P → Outcome P A → Outcome P A → Type 0
  LeavesAs w (returns a v) o =
      (u : World P) × (o ≡ returns a u)
      × (api.get_user_id_and_sec_context u.pg ≡ api.get_user_id_and_sec_context w.pg)
  LeavesAs w (throws e v) o =
      (u : World P) × (o ≡ throws e u)
      × (api.get_user_id_and_sec_context u.pg ≡ api.get_user_id_and_sec_context w.pg)
  LeavesAs w (raises v) o = o ≡ raises v
  LeavesAs w terminates o = o ≡ terminates

module _ {P A : Type 0} (errors : ErrorApi P) (api : RoleApi P) (sets : SetsIdentity api) where
  left_as :
      (user ctx : ℕ) (w : World P) (o : Outcome P A)
      → api.get_user_id_and_sec_context w.pg ≡ (user, ctx)
      → LeavesAs api w o
          (settled (λ v. record v { pg = api.set_user_id_and_sec_context user ctx v.pg }) o)
  left_as user ctx w (returns a v) e = (_, refl, sets user ctx v.pg ∙ sym e)
  left_as user ctx w (throws x v) e = (_, refl, sets user ctx v.pg ∙ sym e)
  left_as user ctx w (raises v) e = refl
  left_as user ctx w terminates e = refl

  -- A block under a security_context starts as the role and with the flags that were asked for,
  -- and when it returns or throws, the user and the security context that stood before the scope
  -- are back, whatever the block did to them; the scope is left in the way the block was left, and
  -- an error or an end of the process that jumps over it stays as it is. Condition: Postgres reads
  -- back the identity that was set.
  pub with_security_context-LeavesAs :
      (role context : ℕ) (block : Cpp P A) (w : World P)
      → (api.get_user_id_and_sec_context (entered api role context w).pg ≡ (role, context))
        × LeavesAs api w
            (block (entered api role context w))
            (with_security_context errors api role context block w)
  unfolding with_security_context
  with_security_context-LeavesAs role context block w =
      let (user, ctx) = api.get_user_id_and_sec_context w.pg in
      (
        sets role context w.pg,
        rw
            (at_scope_end-settled
              (λ v. record v { pg = api.set_user_id_and_sec_context user ctx v.pg })
              (block (entered api role context w)))
            (left_as user ctx w (block (entered api role context w)) refl),
      )
