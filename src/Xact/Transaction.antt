-- ===== src/Xact/Transaction.antt =====
-- `transaction` of xact.hpp.
use cppgres.Common.{Bool, true, false, if◌then◌else◌}
use cppgres.World.{World, Outcome, returns, Cpp, pure, ◌>>=◌, ◌>>◌, at_scope_end}
use cppgres.Guard.{ErrorApi, ffi_guard}

-- IsTransactionState and the calls that start and end a transaction command or an active snapshot.
pub record XactApi (P : Type 0) : Type 0 where
  pub is_transaction_state : P → Bool
  pub set_statement_timestamp : Cpp P (Unit {0})
  pub start_transaction_command : Cpp P (Unit {0})
  pub push_active_snapshot : Cpp P (Unit {0})
  pub pop_active_snapshot : Cpp P (Unit {0})
  pub commit_transaction_command : Cpp P (Unit {0})
  pub abort_current_transaction : Cpp P (Unit {0})

pub record Transaction : Type 0 where
  pub should_commit : Bool
  pub released : Bool

module _ {P : Type 0} (errors : ErrorApi P) (api : XactApi P) where
  open api use {
    is_transaction_state, set_statement_timestamp, start_transaction_command, push_active_snapshot,
    pop_active_snapshot, commit_transaction_command, abort_current_transaction,
  }

  unfoldable pub start_unless_in_one : Cpp P (Unit {0})
  start_unless_in_one w =
      if is_transaction_state w.pg
      then returns tt w
      else (do set_statement_timestamp; start_transaction_command; push_active_snapshot) w

  -- transaction(commit)
  unfoldable pub construct : Bool → Cpp P Transaction
  unfolding start_unless_in_one
  construct commit = do
    ffi_guard errors start_unless_in_one
    pure (record { should_commit = commit; released = false })

  -- the last call of an ending
  unfoldable pub ending : Bool → Cpp P (Unit {0})
  ending commit = if commit then commit_transaction_command else abort_current_transaction

  -- ~transaction(), which is noexcept although ffi_guard may throw
  unfoldable pub destroy : Transaction → Cpp P (Unit {0})
  unfolding ending
  destroy t w =
      if t.released
      then returns tt w
      else ffi_guard errors (do pop_active_snapshot; ending t.should_commit) w

  -- commit(), rollback()
  unfoldable pub commit : Transaction → Cpp P Transaction
  unfolding ending
  commit t = do
    ffi_guard errors (do pop_active_snapshot; ending true)
    pure (record t { released = true })

  unfoldable pub rollback : Transaction → Cpp P Transaction
  unfolding ending
  rollback t = do
    ffi_guard errors (do pop_active_snapshot; ending false)
    pure (record t { released = true })

  -- A block that declares a transaction.
  unfoldable pub with_transaction :
      {A : Type 0} → Bool → (Transaction → World P → Outcome P A × Transaction) → Cpp P A
  unfolding construct destroy
  with_transaction should_commit block =
      construct should_commit >>= λ t w. let (o, u) = block t w in at_scope_end o (destroy u)
