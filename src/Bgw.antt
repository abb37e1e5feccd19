-- ===== src/Bgw.antt =====
-- bgw.hpp: the specification of a background worker, its start, and the handle of a worker that was started.
pub mod Texts
pub mod Handles
mod Examples
use cppgres.Common.{
  ℕ, zero, suc, ◌+◌, ◌-◌, ◌*◌, ◌/◌, ◌%◌, Bool, not, ◌||◌, Option, none, some, List, [], ◌∷◌, ◌==◌,
  if◌then◌else◌, length, ℤ,
}
use Prim.Native.Nat.{min, bit_or}
use cppgres.World.{
  World, Cpp, pure, ◌>>=◌, ◌>>◌, throw, std_exception, no_handle, worker_stopped,
  worker_not_started, postmaster_died, static_in_child, not_bg_worker,
}
use cppgres.Guard.{ErrorApi, ffi_guard}

-- The struct BackgroundWorker of Postgres. A text is an array of characters, as long as its sizeof.
pub record Spec : Type 0 where
  pub bgw_name : List ℕ
  pub bgw_type : List ℕ
  pub bgw_flags : ℤ
  pub bgw_start_time : ℕ
  pub bgw_restart_time : ℤ
  pub bgw_library_name : List ℕ
  pub bgw_function_name : List ℕ
  pub bgw_main_arg : ℕ
  pub bgw_extra : List ℕ
  pub bgw_notify_pid : ℤ

abbrev pub map_some : {A B : Type 0} → (A → B) → Option A → Option B
map_some f none = none
map_some f (some a) = some (f a)

-- std::copy_n, which neither reads nor writes out of bounds where it succeeds
unfoldable pub copy_n : ℕ → List ℕ → List ℕ → Option (List ℕ)
copy_n zero text buffer = some buffer
copy_n (suc n) (c ∷ text) (b ∷ buffer) = map_some (◌∷◌ c) (copy_n n text buffer)
copy_n (suc n) [] buffer = none
copy_n (suc n) (c ∷ text) [] = none

-- The assignment to a character of an array.
unfoldable pub store : List ℕ → ℕ → ℕ → Option (List ℕ)
store [] i c = none
store (b ∷ buffer) zero c = some (c ∷ buffer)
store (b ∷ buffer) (suc i) c = map_some (◌∷◌ b) (store buffer i c)

-- std::min(name.size(), sizeof(buffer) - 1), the copy, and the zero behind it
unfoldable pub write_text : List ℕ → List ℕ → Option (List ℕ)
unfolding copy_n store
write_text text buffer =
    let n = min (length text) (length buffer - 1) in
    elim (copy_n n text buffer) [ none ↦ none | some copied ↦ store copied n 0 ]

-- The text that a character array is read as: up to its first zero, which it has to have.
unfoldable pub read_text : List ℕ → Option (List ℕ)
read_text [] = none
read_text (c ∷ buffer) = if c == 0 then some [] else map_some (◌∷◌ c) (read_text buffer)

-- The five texts.
pub data Text : Type 0 where
  name type library_name function_name extra : Text

abbrev pub buffer_of : Text → Spec → List ℕ
buffer_of name w = w.bgw_name
buffer_of type w = w.bgw_type
buffer_of library_name w = w.bgw_library_name
buffer_of function_name w = w.bgw_function_name
buffer_of extra w = w.bgw_extra

abbrev pub with_buffer : Text → Spec → List ℕ → Spec
with_buffer name w b = record w { bgw_name = b }
with_buffer type w b = record w { bgw_type = b }
with_buffer library_name w b = record w { bgw_library_name = b }
with_buffer function_name w b = record w { bgw_function_name = b }
with_buffer extra w b = record w { bgw_extra = b }

-- name(text), type(text), library_name(text), function_name(text) and extra(text)
unfoldable pub set_text : Text → List ℕ → Spec → Option Spec
unfolding write_text
set_text t text w = map_some (with_buffer t w) (write_text text (buffer_of t w))

-- name(), type(), library_name(), function_name() and extra()
unfoldable pub get_text : Text → Spec → Option (List ℕ)
unfolding read_text
get_text t w = read_text (buffer_of t w)

-- background_worker(), over the zeroed structure
unfoldable pub make : ℤ → Spec → Spec
make my_proc_pid zeroed = record zeroed { bgw_notify_pid = my_proc_pid }

-- start_time(time), restart_time(time), flags(flags), main_arg(datum) and notify_pid(pid)
unfoldable pub start_time : ℕ → Spec → Spec
start_time time w = record w { bgw_start_time = time }

unfoldable pub restart_time : ℤ → Spec → Spec
restart_time time w = record w { bgw_restart_time = time }

unfoldable pub flags : ℤ → Spec → Spec
flags value w = record w { bgw_flags = value }

unfoldable pub main_arg : ℕ → Spec → Spec
main_arg d w = record w { bgw_main_arg = d }

unfoldable pub notify_pid : ℤ → Spec → Spec
notify_pid pid w = record w { bgw_notify_pid = pid }

-- BgwHandleStatus
pub data Status : Type 0 where
  started not_yet_started stopped postmaster_is_dead : Status

-- The calls of Postgres. A call that stores through a pointer takes what stood at the pointer, and
-- gives what stands there afterwards; `get_pid` is GetBackgroundWorkerPid.
pub record WorkerApi (P : Type 0) : Type 0 where
  pub register : Spec → Cpp P (Unit {0})
  pub register_dynamic : Spec → ℕ → Cpp P (Bool × ℕ)
  pub wait_for_startup : ℕ → ℕ → Cpp P (Status × ℕ)
  pub wait_for_shutdown : ℕ → Cpp P Status
  pub terminate : ℕ → Cpp P (Unit {0})
  pub get_pid : ℕ → ℕ → Cpp P (Status × ℕ)
  pub type_by_pid : ℕ → Cpp P ℕ
  pub is_under_postmaster : P → Bool
  pub is_postmaster_environment : P → Bool
  pub is_bg_worker : P → Bool
  pub my_bgworker_entry : P → Spec
  pub unblock_signals : Cpp P (Unit {0})
  pub block_signals : Cpp P (Unit {0})
  pub initialize_connection : List ℕ → Option (List ℕ) → ℕ → Cpp P (Unit {0})
  pub initialize_connection_by_oid : ℕ → ℕ → ℕ → Cpp P (Unit {0})
  pub bypass_allow_connection_flag : ℕ
  pub bypass_role_login_check_flag : ℕ

-- The flags of a connection.
pub data ConnectionFlag : Type 0 where
  no_flag bypass_allow_connection bypass_role_login_check : ConnectionFlag

module _ {P : Type 0} where
  -- the switch of handle::get_pid()
  pid_or_throw : Status × ℕ → Cpp P ℕ
  pid_or_throw (started, pid) = pure pid
  pid_or_throw (stopped, pid) = throw (std_exception worker_stopped)
  pid_or_throw (not_yet_started, pid) = throw (std_exception worker_not_started)
  pid_or_throw (postmaster_is_dead, pid) = throw (std_exception postmaster_died)

module _ {P : Type 0} (errors : ErrorApi P) (api : WorkerApi P) where
  -- A handle is a pointer, or nullptr, which is 0. `indeterminate` is what stands in a variable
  -- that is not initialised.
  module _ (indeterminate : ℕ) where
    -- handle::wait_for_startup()
    unfoldable pub wait_for_startup : ℕ → Cpp P ℕ
    wait_for_startup h =
        if not (h == 0)
        then (do answer ← ffi_guard errors (api.wait_for_startup h indeterminate); pure answer.1)
        else throw (std_exception no_handle)

    -- handle::get_pid()
    unfoldable pub get_pid : ℕ → Cpp P ℕ
    unfolding pid_or_throw
    get_pid h =
        if not (h == 0)
        then (do answer ← ffi_guard errors (api.get_pid h indeterminate); pid_or_throw answer)
        else throw (std_exception no_handle)

    -- handle::worker_type()
    unfoldable pub worker_type : ℕ → Cpp P ℕ
    unfolding get_pid
    worker_type h = do pid ← get_pid h; ffi_guard errors (api.type_by_pid pid)

    -- start(dynamic)
    unfoldable pub start : Bool → Spec → Cpp P ℕ
    start dynamic spec w =
        if not dynamic
        then (if api.is_under_postmaster w.pg || not (api.is_postmaster_environment w.pg)
            then throw (std_exception static_in_child) w
            else (do ffi_guard errors (api.register spec); pure 0) w)
        else (do answer ← ffi_guard errors (api.register_dynamic spec indeterminate); pure answer.1)
            w

  -- handle::wait_for_shutdown(), handle::terminate()
  unfoldable pub wait_for_shutdown : ℕ → Cpp P (Unit {0})
  wait_for_shutdown h =
      if not (h == 0)
      then (do status ← ffi_guard errors (api.wait_for_shutdown h); pure tt)
      else throw (std_exception no_handle)

  unfoldable pub terminate : ℕ → Cpp P (Unit {0})
  terminate h =
      if not (h == 0) then ffi_guard errors (api.terminate h) else throw (std_exception no_handle)

  -- current_background_worker()
  unfoldable pub current_background_worker : Cpp P Spec
  current_background_worker w =
      if not (api.is_bg_worker w.pg)
      then throw (std_exception not_bg_worker) w
      else pure (api.my_bgworker_entry w.pg) w

  unfoldable pub unblock_signals : Cpp P (Unit {0})
  unblock_signals = ffi_guard errors api.unblock_signals

  unfoldable pub block_signals : Cpp P (Unit {0})
  block_signals = ffi_guard errors api.block_signals

  -- flag()
  unfoldable pub flag : ConnectionFlag → ℕ
  flag no_flag = 0
  flag bypass_allow_connection = api.bypass_allow_connection_flag
  flag bypass_role_login_check = api.bypass_role_login_check_flag

  -- (flags.flag() | ... | 0)
  unfoldable pub all_flags : List ConnectionFlag → ℕ
  unfolding flag
  all_flags [] = 0
  all_flags (f ∷ fs) = bit_or (flag f) (all_flags fs)

  -- connect(dbname, user, flags...) and connect(db, user, flags...)
  unfoldable pub connect : List ℕ → Option (List ℕ) → List ConnectionFlag → Cpp P (Unit {0})
  unfolding all_flags
  connect dbname user fs = ffi_guard errors (api.initialize_connection dbname user (all_flags fs))

  unfoldable pub connect_by_oid : ℕ → Option ℕ → List ConnectionFlag → Cpp P (Unit {0})
  unfolding all_flags
  connect_by_oid db user fs =
      ffi_guard errors
        (api.initialize_connection_by_oid db (elim user [ none ↦ 0 | some u ↦ u ]) (all_flags fs))
