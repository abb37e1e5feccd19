-- ===== src/Xact/Ids.antt =====
-- transaction_id of xact.hpp: the numbers of transactions.
use cppgres.Common.{ℕ, Bool, false, not, ◌==◌, if◌then◌else◌}
use cppgres.World.{Cpp, pure}
use cppgres.Guard.{ErrorApi, ffi_guard}

-- The calls of Postgres; the order of the numbers goes around.
pub record IdsApi (P : Type 0) : Type 0 where
  pub get_current_transaction_id : Cpp P ℕ
  pub get_current_transaction_id_if_any : Cpp P ℕ
  pub precedes : ℕ → ℕ → Bool
  pub precedes_or_equals : ℕ → ℕ → Bool
  pub follows : ℕ → ℕ → Bool
  pub follows_or_equals : ℕ → ℕ → Bool
  pub transaction_did_abort : ℕ → Cpp P Bool
  pub transaction_did_commit : ℕ → Cpp P Bool

-- transaction_id(), is_valid() and operator==
unfoldable pub invalid_id : ℕ
invalid_id = 0

unfoldable pub is_valid : ℕ → Bool
is_valid id = not (id == 0)

unfoldable pub same_id : ℕ → ℕ → Bool
same_id a b = a == b

-- The four comparisons.
pub data Comparison : Type 0 where
  before at_most behind at_least : Comparison

module _ {P : Type 0} (errors : ErrorApi P) (api : IdsApi P) where
  -- current(acquire)
  unfoldable pub current : Bool → Cpp P ℕ
  current acquire =
      ffi_guard errors
        (if acquire then api.get_current_transaction_id else api.get_current_transaction_id_if_any)

  -- operator<, operator<=, operator> and operator>=
  unfoldable pub compare : Comparison → ℕ → ℕ → Bool
  compare before a b = api.precedes a b
  compare at_most a b = api.precedes_or_equals a b
  compare behind a b = api.follows a b
  compare at_least a b = api.follows_or_equals a b

  -- did_abort() and did_commit(), whose calls have no guard
  unfoldable pub did_abort : ℕ → Cpp P Bool
  unfolding is_valid
  did_abort id = if is_valid id then api.transaction_did_abort id else pure false

  unfoldable pub did_commit : ℕ → Cpp P Bool
  unfolding is_valid
  did_commit id = if is_valid id then api.transaction_did_commit id else pure false
