-- ===== src/Function/Calls.antt =====
-- `current_postgres_function` of function.hpp: the stack of running calls over a call of postgres_function.
use cppgres.Common.{
  ℕ, suc, ◌≡◌, refl, ◌∙◌, Bool, true, false, List, [], ◌∷◌, length, leb, if◌then◌else◌,
}
use cppgres.World.{
  What, pg_exception, std_exception, foreign_exception, World, Outcome, returns, throws, raises,
  terminates, Cpp, throw, invalid_type, ◌>>◌, too_few_arguments,
}
use cppgres.Guard.{ErrorApi, report, exception_guard, rethrow}
use cppgres.Datum.Nullable.{Result, NullableDatum}
use cppgres.Datum.Types.{Oid, CppType}
use cppgres.Function.{
  Backend, Call, SetApi, Func, procedure, valued, set_of, records_of, check, check_type,
  check_expects_set, check_return, convert_argument, convert_arguments, with_call,
  checked_arguments, invoke, push, returns_set, return_type_of, valid, argument_type, argument,
}
use cppgres.Function.Keeping.{
  Kept, CallLaws, FuncKeeps, Kept-after, Kept-wider, body-Keeps, lift-Keeps, call_popped,
}

module _ {P : Type 0} (is_composite : Oid → Bool) (errors : ErrorApi (Backend P)) (api : SetApi P)
    (law : CallLaws errors api) where
  reported :
      (text : What) (w : World (Backend P)) → Kept Unit w (report errors {A = Unit {0}} text w)
  unfolding report
  reported text w = (tt, law.report_neutral text w.pg)

  check-Kept :
      (b : Bool) (text : What) (w : World (Backend P))
      → Kept Unit w (check is_composite errors b text w)
  unfolding check
  check-Kept true text w = refl
  check-Kept false text w = reported text w

  named_or_refused :
      (b : Bool) (text : What) (w : World (Backend P))
      → Kept Unit w
          (if b then report errors {A = Unit {0}} text w else throw (std_exception invalid_type) w)
  named_or_refused true text w = reported text w
  named_or_refused false text w = refl

  check_type-Kept :
      (b : Bool) (o : Oid) (text : What) (w : World (Backend P))
      → Kept Unit w (check_type is_composite errors b o text w)
  unfolding check_type
  check_type-Kept true o text w = refl
  check_type-Kept false o text w = named_or_refused (valid o) text w

  module _ {A : Type 0} (convert : CppType → NullableDatum → Oid → Result A) where
    arguments-Kept :
        (ts : List CppType) (c : Call) (i : ℕ) (w : World (Backend P))
        → Kept Unit w (convert_arguments is_composite errors convert ts c i w)
    unfolding convert_arguments convert_argument
    arguments-Kept [] c i w = refl
    arguments-Kept (t ∷ ts) c i w =
        Kept-after is_composite errors api law Unit w _ _
          (Kept-after is_composite errors api law Unit w _ _
            (check_type-Kept _ (argument_type c i) _ w)
            (λ _ v. Kept-wider is_composite errors api law Unit v _ (
              lift-Keeps is_composite errors api law (convert t (argument c i) (argument_type c i))
                v)))
          (λ a v.
            Kept-after is_composite errors api law Unit v _ _ (arguments-Kept ts c (suc i) v)
              (λ as' x. refl))

    expects-Kept :
        (func : Func P A) (c : Call) (w : World (Backend P))
        → Kept Unit w (check_expects_set is_composite errors func c w)
    unfolding check_expects_set
    expects-Kept (procedure f) c w = refl
    expects-Kept (valued t f) c w = refl
    expects-Kept (set_of ts f) c w = check-Kept _ _ w
    expects-Kept (records_of f) c w = check-Kept _ _ w

    return-Kept :
        (func : Func P A) (b : Bool) (o : Oid) (w : World (Backend P))
        → Kept Unit w (check_return is_composite errors func b o w)
    unfolding check_return
    return-Kept (procedure f) true o w = reported _ w
    return-Kept (procedure f) false o w = check_type-Kept _ o _ w
    return-Kept (valued t f) true o w = reported _ w
    return-Kept (valued t f) false o w = check_type-Kept _ o _ w
    return-Kept (set_of ts f) true o w = check_type-Kept _ o _ w
    return-Kept (set_of ts f) false o w = check_type-Kept _ o _ w
    return-Kept (records_of f) true o w = check_type-Kept _ o _ w
    return-Kept (records_of f) false o w = check_type-Kept _ o _ w

    checked-Kept :
        (func : Func P A) (ts : List CppType) (c : Call) (w : World (Backend P))
        → Kept Unit w (checked_arguments is_composite errors api convert func ts c w)
    unfolding checked_arguments
    checked-Kept func ts c w =
        let typ = return_type_of c in
        let enough = leb (length ts) (length c.args) in
        Kept-after is_composite errors api law Unit w _ _ (expects-Kept func c w) (λ _ v.
          Kept-after is_composite errors api law Unit v
            (check_return is_composite errors func (returns_set c) typ v)
            (λ _.
              check is_composite errors enough too_few_arguments
              >> convert_arguments is_composite errors convert ts c 0)
            (return-Kept func (returns_set c) typ v)
            (λ _ x.
              Kept-after is_composite errors api law Unit x
                (check is_composite errors enough too_few_arguments x) _
                (check-Kept enough too_few_arguments x) (λ _ y. arguments-Kept ts c 0 y)))

    -- What leaves the exception guard: nothing is thrown, and the stack is as before.
    abbrev pub Answers : {T : Type 0} → World (Backend P) → Outcome (Backend P) T → Type 0
    Answers w (returns a v) = v.pg.calls ≡ w.pg.calls
    Answers w (throws e v) = ⊥
    Answers w (raises v) = v.pg.calls ≡ w.pg.calls
    Answers w terminates = ⊥

    guarded-Answers :
        {T : Type 0} (m : Cpp (Backend P) T) (w : World (Backend P)) (o : Outcome (Backend P) T)
        → m w ≡ o
        → Kept Unit w o
        → Answers w (exception_guard errors m w)
    unfolding exception_guard rethrow report
    guarded-Answers m w (returns a v) e k = rw (e, exception_guard, Answers) k
    guarded-Answers m w (throws (pg_exception x) v) e k =
        rw (e, exception_guard, Answers) (law.rethrow_neutral _ _ ∙ law.callback_neutral _ v.pg ∙ k)
    guarded-Answers m w (throws (std_exception x) v) e k =
        rw (e, exception_guard, Answers) (law.report_neutral _ v.pg ∙ k)
    guarded-Answers m w (throws foreign_exception v) e k =
        rw (e, exception_guard, Answers) (law.report_neutral _ v.pg ∙ k)
    guarded-Answers m w (raises v) e k = rw (e, exception_guard, Answers) k.1
    guarded-Answers m w terminates e k = absurd k

    -- A call of postgres_function returns or raises a Postgres error, throws nothing, and leaves
    -- the stack of running calls as it was, whether its checks refuse the call, the arguments
    -- cannot be converted, the wrapped function throws or it succeeds; the wrapped function is
    -- taken to keep the stack to raise no Postgres error past its guards and not to end the
    -- process, and no interrupt to be pending.
    pub invoke-Answers :
        (func : Func P A) (ts : List CppType) (c : Call) (w : World (Backend P))
        → FuncKeeps func
        → Answers w (invoke is_composite errors api convert func ts c w)
    unfolding invoke with_call
    invoke-Answers func ts c w k = guarded-Answers _ w _ refl (
        Kept-after is_composite errors api law Unit w _ _ (checked-Kept func ts c w) (λ args v.
          Kept-wider is_composite errors api law Unit v _ (
            call_popped is_composite errors api law c.fcinfo v _
              (body-Keeps is_composite errors api law func args c k (push c.fcinfo v)))))
