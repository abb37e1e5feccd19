-- ===== src/Xact/Nested.antt =====
-- xact.hpp: what a scope of `transaction` does to the transaction around it.
use cppgres.Common.{ℕ, suc, ◌≡◌, Bool, true, false, arith, ◌<◌}
use cppgres.World.{World, returns, Cpp, at_scope_end, at_scope_end_returns}
use cppgres.Guard.{ErrorApi, ffi_guard, restored}
use cppgres.Guard.Restore.{armed}
use cppgres.Guard.Border.{ffi_guard_returns}
use cppgres.Xact.Transaction
use cppgres.Xact.Transaction.{XactApi}

-- What Postgres promises of the calls of a transaction where none fails. `single` says that a
-- transaction runs for one statement, outside of a block of BEGIN and END: only then does the end of
-- the command end the transaction, and with it the active snapshots that are left.
pub record Snapshots {P : Type 0} (api : XactApi P) : Type 0 where
  pub snapshots : P → ℕ
  pub single : P → Bool
  pub sets :
      (w : World P)
      → api.is_transaction_state w.pg ≡ false
      → (v : World P) × (api.set_statement_timestamp w ≡ returns tt v)
        × (api.is_transaction_state v.pg ≡ false)
  pub starts :
      (w : World P)
      → api.is_transaction_state w.pg ≡ false
      → (v : World P) × (api.start_transaction_command w ≡ returns tt v) × (single v.pg ≡ true)
  pub pushes :
      (w : World P)
      → (single w.pg ≡ true)
      → (v : World P) × (api.push_active_snapshot w ≡ returns tt v)
        × (snapshots v.pg ≡ suc (snapshots w.pg))
        × (single v.pg ≡ true)
  pub pops :
      (w : World P)
      → 0 < snapshots w.pg
      → (single w.pg ≡ true)
      → (v : World P) × (api.pop_active_snapshot w ≡ returns tt v)
        × (suc (snapshots v.pg) ≡ snapshots w.pg)
        × (single v.pg ≡ true)
  pub commits :
      (w : World P)
      → (single w.pg ≡ true)
      → (v : World P) × (api.commit_transaction_command w ≡ returns tt v)
        × (snapshots v.pg ≡ 0)
        × (api.is_transaction_state v.pg ≡ false)
  pub aborts :
      (w : World P)
      → (single w.pg ≡ true)
      → (v : World P) × (api.abort_current_transaction w ≡ returns tt v)
        × (snapshots v.pg ≡ 0)
        × (api.is_transaction_state v.pg ≡ false)

module _ {P : Type 0} (errors : ErrorApi P) (api : XactApi P) (law : Snapshots api) where
  open law use {snapshots, single}

  abbrev pub Ended : World P → Type 0
  Ended u = (snapshots u.pg ≡ 0) × (api.is_transaction_state u.pg ≡ false)

  ended :
      (flag : Bool) (w v : World P)
      → api.pop_active_snapshot (armed w) ≡ returns tt v
      → (single v.pg ≡ true)
      → (u : World P) × (Transaction.destroy errors api
            (record { should_commit = flag; released = false })
            w
          ≡ returns tt u)
        × Ended u
  unfolding Transaction.destroy Transaction.ending
  ended true w v e s =
      let (u, q, k, l) = law.commits v s in
      (restored w u, ffi_guard_returns errors _ w u tt (simp (e, q)), (k, l))
  ended false w v e s =
      let (u, q, k, l) = law.aborts v s in
      (restored w u, ffi_guard_returns errors _ w u tt (simp (e, q)), (k, l))

  scope_end :
      {A : Type 0} (flag : Bool) (a : A) (w : World P)
      → 0 < snapshots w.pg
      → (single w.pg ≡ true)
      → (u : World P) × (at_scope_end
            (returns a w)
            (Transaction.destroy errors api (record { should_commit = flag; released = false }))
          ≡ returns a u)
        × Ended u
  scope_end flag a w pos s =
      let (v, e, d, k) = law.pops (armed w) pos s in
      let (u, q, h) = ended flag w v e k in
      (
        u,
        at_scope_end_returns
            (Transaction.destroy errors api (record { should_commit = flag; released = false })) w u
            q a,
        h,
      )

  start_in_one :
      (w : World P)
      → api.is_transaction_state w.pg ≡ true
      → ffi_guard errors (Transaction.start_unless_in_one errors api) w ≡ returns tt w
  unfolding Transaction.start_unless_in_one
  start_in_one w h = ffi_guard_returns errors _ w (armed w) tt (simp h)

  start_fresh :
      (w : World P)
      → api.is_transaction_state w.pg ≡ false
      → (v : World P) × (ffi_guard errors (Transaction.start_unless_in_one errors api) w
          ≡ returns tt v)
        × (0 < snapshots v.pg)
        × (single v.pg ≡ true)
  unfolding Transaction.start_unless_in_one
  start_fresh w h =
      let (a, p, k) = law.sets (armed w) h in
      let (b, q, l) = law.starts a k in
      let (c, r, m, s) = law.pushes b l in
      (restored w c, ffi_guard_returns errors _ w c tt (simp (h, p, q, r)), omega (arith, m), s)

  module _ {A : Type 0} (m : Cpp P A)
      (keeps : (v : World P)
        → (single v.pg ≡ true)
        → (a : A) × (x : World P) × (m v ≡ returns a x)
          × (snapshots x.pg ≡ snapshots v.pg)
          × (single x.pg ≡ true))
      (flag : Bool) where
    -- The block after the constructor, and the destructor.
    rest_of_scope :
        (w v : World P)
        → ffi_guard errors (Transaction.start_unless_in_one errors api) w ≡ returns tt v
        → 0 < snapshots v.pg
        → (single v.pg ≡ true)
        → (a : A) × (u : World P) × (Transaction.with_transaction errors api flag
              (λ t x. (m x, t))
              w
            ≡ returns a u)
          × Ended u
    unfolding Transaction.with_transaction Transaction.construct
    rest_of_scope w v e pos s =
        let (a, x, q, k, t) = keeps v s in
        let (u, r, h) = scope_end flag a x (omega (arith, k, pos)) t in
        (a, u, rw (e, Transaction.with_transaction, Transaction.construct) (rw q r), h)

    -- Outside a transaction, a scope of transaction whose block returns and keeps the number of
    -- active snapshots returns and leaves no transaction running and no snapshot active, provided
    -- that the calls of Postgres succeed as documented.
    pub with_transaction_fresh :
        (w : World P)
        → api.is_transaction_state w.pg ≡ false
        → (a : A) × (u : World P) × (Transaction.with_transaction errors api flag
              (λ t x. (m x, t))
              w
            ≡ returns a u)
          × (snapshots u.pg ≡ 0)
          × (api.is_transaction_state u.pg ≡ false)
    with_transaction_fresh w h =
        let (v, e, k, s) = start_fresh w h in
        let (a, u, q, t) = rest_of_scope w v e k s in (a, u, q, t.0, t.1)

    -- Inside a running transaction of a single statement (outside of a block of BEGIN and END)
    -- with an active snapshot, a scope of transaction whose block returns, stays in this
    -- transaction and keeps the number of active snapshots returns with the transaction that was
    -- running ended and no snapshot active, whether it commits or rolls back, provided that the
    -- calls of Postgres succeed as documented.
    pub with_transaction_nested :
        (w : World P)
        → api.is_transaction_state w.pg ≡ true
        → (single w.pg ≡ true)
        → 0 < snapshots w.pg
        → (a : A) × (u : World P) × (Transaction.with_transaction errors api flag
              (λ t x. (m x, t))
              w
            ≡ returns a u)
          × (snapshots u.pg ≡ 0)
          × (api.is_transaction_state u.pg ≡ false)
    with_transaction_nested w h s pos =
        let (a, u, q, t) = rest_of_scope w w (start_in_one w h) pos s in (a, u, q, t.0, t.1)
