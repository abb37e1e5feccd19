-- ===== src/Xact/Examples.antt =====
-- Scopes of xact.hpp over a Postgres that keeps the depth of subtransactions, the number of active snapshots, and whether it is in a transaction.
use cppgres.Common.{
  if◌then◌else◌, ◌&&◌, not, ℕ, zero, suc, ◌-◌, ◌≡◌, refl, Bool, true, false, none, arith,
}
use cppgres.World.{World, Outcome, returns, raises, Cpp, throw, std_exception, out_of_range, pure}
use cppgres.Guard.{ffi_guard}
use cppgres.Guard.Restore.{armed}
use cppgres.Samples.{backend, plain_errors}
use cppgres.Xact.Subtransaction.{SubxactApi, Subtransaction, commit, destroy, with_subtransaction}
use cppgres.Xact.Transaction.{XactApi, with_transaction}
use cppgres.Xact.Balance.{Subxacts, LeavesScope, with_subtransaction-LeavesScope, Finishes}
use cppgres.Xact.Choice.{EndsWith, with_subtransaction-EndsWith, commit_once}
use cppgres.Xact.Nested.{Snapshots, with_transaction_fresh, with_transaction_nested}

-- A subtransaction has an owner of its own, 77. Ending one fails if there is none.
finish : ℕ → World ℕ → Outcome ℕ (Unit {0})
finish zero w = raises w
finish (suc n) w = returns tt (record w { pg = n })

abbrev subxacts : SubxactApi ℕ
subxacts = record {
  begin = λ name w. returns tt (record w { pg = suc w.pg; current_resource_owner = 77 });
  release = λ w. finish w.pg w;
  roll_back = λ w. finish w.pg w;
}

finish-Finishes : (n : ℕ) (w : World ℕ) → w.pg ≡ n → Finishes (λ d. d) w (finish n w)
unfolding finish
finish-Finishes zero w h = (refl, refl, refl, refl)
finish-Finishes (suc n) w h = (omega arith, refl, refl)

abbrev subxacts_law : Subxacts plain_errors subxacts (λ d. d)
subxacts_law = record {
  begins = λ name w. (refl, refl, refl);
  releases = λ w. finish-Finishes w.pg w refl;
  rolls_back = λ w. finish-Finishes w.pg w refl;
  context_neutral = λ c p. refl;
  flush_neutral = λ p. refl;
  delete_neutral = λ c p. refl;
}

abbrev failing_block : Cpp ℕ ℕ
failing_block = throw (std_exception out_of_range)

with_subtransaction-LeavesScope_example :
    LeavesScope
      (λ d. d)
      (backend 3)
      (with_subtransaction plain_errors subxacts none true
        (λ s v. (failing_block v, s))
        (backend 3))
with_subtransaction-LeavesScope_example =
    with_subtransaction-LeavesScope plain_errors subxacts (λ d. d) subxacts_law failing_block none
      true (backend 3) (λ v. (refl, refl))

with_subtransaction-EndsWith_example :
    EndsWith plain_errors subxacts
      (backend 3)
      true
      (failing_block (record (backend 4) { current_resource_owner = 77 }))
      (with_subtransaction plain_errors subxacts none true
        (λ s v. (failing_block v, s))
        (backend 3))
with_subtransaction-EndsWith_example =
    with_subtransaction-EndsWith plain_errors subxacts failing_block none true (backend 3)
      (record (armed (backend 3)) { pg = 4; current_resource_owner = 77 }) refl refl (λ v. refl)

abbrev open_one : Subtransaction
open_one = record { ctx = 4; owner = 5; should_commit = false; uncaught = 0; finished = false }

abbrev closed_one : Subtransaction
closed_one = record open_one { finished = true }

commits : commit plain_errors subxacts open_one (backend 4) ≡ returns closed_one (backend 3)
unfolding commit finish ffi_guard
commits = refl

commit_once_case :
    (4 ≡ open_one.ctx)
    × (5 ≡ open_one.owner)
    × (destroy plain_errors subxacts closed_one (backend 3) ≡ returns tt (backend 3))
commit_once_case =
    commit_once plain_errors subxacts open_one closed_one (backend 4) (backend 3) (backend 3)
      commits

-- The number of active snapshots, whether a transaction is running, and whether it is in a block.
record Session : Type 0 where
  snaps : ℕ
  active : Bool
  in_block : Bool

abbrev update : (Session → Session) → Cpp Session (Unit {0})
update f w = returns tt (record w { pg = f w.pg })

-- In a block, the end of a statement does not end the transaction.
abbrev end_statement : Session → Session
end_statement s = if s.in_block then s else record { snaps = 0; active = false; in_block = false }

abbrev xact_calls : XactApi Session
xact_calls = record {
  is_transaction_state = λ s. s.active;
  set_statement_timestamp = update (λ s. s);
  start_transaction_command = update (λ s. record s { active = true; in_block = false });
  push_active_snapshot = update (λ s. record s { snaps = suc s.snaps });
  pop_active_snapshot = update (λ s. record s { snaps = s.snaps - 1 });
  commit_transaction_command = update end_statement;
  abort_current_transaction = update end_statement;
}

ended :
    (n : ℕ) (a b : Bool)
    → (a && not b) ≡ true
    → ((end_statement (record { snaps = n; active = a; in_block = b })).snaps ≡ 0)
      × ((end_statement (record { snaps = n; active = a; in_block = b })).active ≡ false)
ended n true true h = cc
ended n true false h = (refl, refl)
ended n false b h = cc

abbrev snapshots_law : Snapshots xact_calls
snapshots_law = record {
  snapshots = λ s. s.snaps;
  single = λ s. s.active && not s.in_block;
  sets = λ w idle. (_, refl, idle);
  starts = λ w idle. (_, refl, refl);
  pushes = λ w s. (_, refl, refl, s);
  pops = λ w pos s. (_, refl, omega arith, s);
  commits = λ w s. (
    _,
    refl,
    (ended w.pg.snaps w.pg.active w.pg.in_block s).0,
    (ended w.pg.snaps w.pg.active w.pg.in_block s).1,
  );
  aborts = λ w s. (
    _,
    refl,
    (ended w.pg.snaps w.pg.active w.pg.in_block s).0,
    (ended w.pg.snaps w.pg.active w.pg.in_block s).1,
  );
}

abbrev idle : World Session
idle = backend (record { snaps = 0; active = false; in_block = false })

abbrev busy : World Session
busy = backend (record { snaps = 1; active = true; in_block = false })

with_transaction_fresh_case :
    (a : ℕ) × (u : World Session) × (with_transaction plain_errors xact_calls true
        (λ t x. (pure 7 x, t))
        idle
      ≡ returns a u)
    × (u.pg.snaps ≡ 0)
    × (u.pg.active ≡ false)
with_transaction_fresh_case =
    with_transaction_fresh plain_errors xact_calls snapshots_law (pure 7)
      (λ v s. (7, v, refl, refl, s)) true idle refl

with_transaction_nested_example :
    (a : ℕ) × (u : World Session) × (with_transaction plain_errors xact_calls true
        (λ t x. (pure 7 x, t))
        busy
      ≡ returns a u)
    × (u.pg.snaps ≡ 0)
    × (u.pg.active ≡ false)
with_transaction_nested_example =
    with_transaction_nested plain_errors xact_calls snapshots_law (pure 7)
      (λ v s. (7, v, refl, refl, s)) true busy refl refl (omega arith)
