-- ===== src/Bgw/Examples.antt =====
-- Tests of the background workers, and concrete cases of the theorems about them.
use cppgres.Common.{
  ◌≡◌, refl, false, true, some, [], ◌∷◌, ◌==◌, if◌then◌else◌, length, replicate, pos, arith,
}
use cppgres.World.{returns, ◌>>=◌}
use cppgres.Samples.{backend, plain_errors}
use cppgres.Guard.{ffi_guard}
use cppgres.Bgw.{
  Spec, name, WorkerApi, started, stopped, set_text, get_text, get_pid, start, terminate,
}
use cppgres.Bgw.Texts.{SameExcept, set_text-Fits}
use cppgres.Bgw.Handles.{get_pid-Determined, refused_start}

abbrev a_spec : Spec
a_spec = record {
  bgw_name = replicate 4 7;
  bgw_type = replicate 4 7;
  bgw_flags = pos 0;
  bgw_start_time = 0;
  bgw_restart_time = pos 0;
  bgw_library_name = replicate 8 7;
  bgw_function_name = replicate 4 7;
  bgw_main_arg = 0;
  bgw_extra = replicate 8 7;
  bgw_notify_pid = pos 0;
}

-- A Postgres in which the worker 1 runs under the pid 42, every other one was stopped, and no
-- dynamic worker can be registered.
abbrev api : WorkerApi (Unit {0})
api = record {
  register = λ s w. returns tt w;
  register_dynamic = λ s old w. returns (false, old) w;
  wait_for_startup = λ h old w. returns (started, 42) w;
  wait_for_shutdown = λ h w. returns stopped w;
  terminate = λ h w. returns tt w;
  get_pid = λ h old w. if h == 1 then returns (started, 42) w else returns (stopped, old) w;
  type_by_pid = λ p w. returns 3 w;
  is_under_postmaster = λ p. true;
  is_postmaster_environment = λ p. true;
  is_bg_worker = λ p. true;
  my_bgworker_entry = λ p. a_spec;
  unblock_signals = λ w. returns tt w;
  block_signals = λ w. returns tt w;
  initialize_connection = λ d u f w. returns tt w;
  initialize_connection_by_oid = λ d u f w. returns tt w;
  bypass_allow_connection_flag = 1;
  bypass_role_login_check_flag = 2;
}

-- Five characters do not fit into an array of four: three are kept, in front of the zero.
cut_name :
    (v : Spec) × (set_text name (1 ∷ 2 ∷ 3 ∷ 4 ∷ 5 ∷ []) a_spec ≡ some v)
    × (get_text name v ≡ some (1 ∷ 2 ∷ 3 ∷ []))
unfolding set_text get_text
cut_name = (_, refl, refl)

set_text-Fits_example :
    (v : Spec) × (set_text name (1 ∷ 2 ∷ 3 ∷ 4 ∷ 5 ∷ []) a_spec ≡ some v)
    × (get_text name v ≡ some (1 ∷ 2 ∷ 3 ∷ []))
    × (length v.bgw_name ≡ 4)
    × SameExcept name a_spec v
set_text-Fits_example = set_text-Fits name (1 ∷ 2 ∷ 3 ∷ 4 ∷ 5 ∷ []) a_spec (omega arith)

get_pid-Determined_case :
    get_pid plain_errors api 10 2 (backend tt) ≡ get_pid plain_errors api 11 2 (backend tt)
get_pid-Determined_case =
    get_pid-Determined plain_errors api 10 11 2 (backend tt) (11, refl, λ e. cc)

refused_start_case :
    (do h ← start plain_errors api 99 true a_spec; terminate plain_errors api h) (backend tt)
    ≡ ffi_guard plain_errors (api.terminate 99) (backend tt)
refused_start_case = refused_start plain_errors api 99 a_spec (backend tt) _ (λ e. cc) refl
