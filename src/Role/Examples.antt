-- ===== src/Role/Examples.antt =====
-- A Postgres that keeps a user and a security context, as a concrete case of the scope.
use cppgres.Common.{ℕ, ◌≡◌, refl, true, false}
use cppgres.World.{throw, std_exception, out_of_range, returns}
use cppgres.Samples.{backend, plain_errors}
use cppgres.Role.{
  RoleApi, with_security_context, from_datum, both_flags, flag_bits, security_local_user_id_change,
  security_noforce_rls,
}
use cppgres.Role.Identity.{LeavesAs, entered, with_security_context-LeavesAs}

abbrev api : RoleApi (ℕ × ℕ)
api = record {
  get_current_role_id = λ p. 0;
  get_user_id = λ p. p.0;
  get_role_oid = λ n w. returns 10 w;
  get_user_name_from_id = λ r w. returns 70 w;
  is_member_of_role = λ r s w. returns true w;
  is_member_of_role_nosuper = λ r s w. returns false w;
  get_user_id_and_sec_context = λ p. p;
  set_user_id_and_sec_context = λ u c p. (u, c);
}

-- The scope in a scope; the inner block throws.
with_security_context-LeavesAs_example :
    (api.get_user_id_and_sec_context (entered api 20 2 (backend (10, 0))).pg ≡ (20, 2))
    × LeavesAs api
        (backend (10, 0))
        (with_security_context plain_errors api 30 0
          (throw {A = ℕ} (std_exception out_of_range))
          (entered api 20 2 (backend (10, 0))))
        (with_security_context plain_errors api 20 2
          (with_security_context plain_errors api 30 0 (throw (std_exception out_of_range)))
          (backend (10, 0)))
with_security_context-LeavesAs_example =
    with_security_context-LeavesAs plain_errors api (λ u c p. refl) 20 2
      (with_security_context plain_errors api 30 0 (throw (std_exception out_of_range)))
      (backend (10, 0))

-- A datum is cut to 32 bits, and two flags are joined.
cut : from_datum 4294967306 ≡ 10
unfolding from_datum
cut = refl

joined : both_flags (flag_bits security_local_user_id_change) (flag_bits security_noforce_rls) ≡ 5
unfolding both_flags flag_bits
joined = refl
