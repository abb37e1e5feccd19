-- ===== src/Function/Values.antt =====
-- `postgres_function` of function.hpp: which calls reach the wrapped function, and what they give back.
use cppgres.Common.{
  ℕ, ◌≡◌, refl, ◌∙◌, ap, Bool, true, false, none, some, List, ◌∷◌, length, leb, ◌≤◌, arith,
}
use cppgres.World.{
  World, Outcome, returns, throws, raises, Cpp, after, too_few_arguments, ◌>>=◌, ◌>>◌, pure,
  terminates, at_scope_end, modify,
}
use cppgres.Guard.{ErrorApi, exception_guard}
use cppgres.Datum.Nullable.{Result, NullableDatum}
use cppgres.Datum.Types.{Oid, CppType, is}
use cppgres.Function.{
  Backend, Call, Answer, SetApi, Func, valued, check, check_type, check_expects_set, check_return,
  convert_arguments, with_call, run_body, checked_arguments, invoke, push, pop, answer, returns_set,
  return_type_of,
}
use cppgres.Function.Arguments.{
  converted, Stops, thrown, raised, arguments_returned, arguments_stopped,
}

module _ {P : Type 0} (is_composite : Oid → Bool) (errors : ErrorApi (Backend P)) (api : SetApi P)
    {A : Type 0} (convert : CppType → NullableDatum → Oid → Result A) where
  -- A call whose return type and arguments are accepted runs the function with its call on the stack.
  checked_value :
      (t : CppType) (f : List A → Cpp (Backend P) NullableDatum) (ts : List CppType) (c : Call)
      (w : World (Backend P))
      → returns_set c ≡ false
      → is is_composite t (return_type_of c) ≡ true
      → length ts ≤ length c.args
      → checked_arguments is_composite errors api convert (valued t f) ts c w
        ≡ convert_arguments is_composite errors convert ts c 0 w
  unfolding checked_arguments check_expects_set check_return check_type check
  checked_value t f ts c w s r l = rw (s, r, leb_true (length ts) (length c.args) l) refl
    where
      leb_true : (a b : ℕ) → a ≤ b → leb a b ≡ true
      leb_true a b h = ground arith

  pub guard_cong :
      {T : Type 0} (m n : Cpp (Backend P) T) (w : World (Backend P))
      → m w ≡ n w
      → exception_guard errors m w ≡ exception_guard errors n w
  unfolding exception_guard
  guard_cong m n w e = ap (λ o. exception_guard errors (λ x. o) w) e

  abbrev call_of : Func P A → Call → List A → Cpp (Backend P) Answer
  call_of func c args = with_call c.fcinfo (run_body is_composite errors api func args c)

  abbrev whole_call : Func P A → List CppType → Call → Cpp (Backend P) Answer
  whole_call func ts c =
      checked_arguments is_composite errors api convert func ts c >>= call_of func c

  invoke_accepted :
      (t : CppType) (f : List A → Cpp (Backend P) NullableDatum) (ts : List CppType) (c : Call)
      (args : List A) (w : World (Backend P)) (o : Outcome (Backend P) NullableDatum)
      → returns_set c ≡ false
      → is is_composite t (return_type_of c) ≡ true
      → length ts ≤ length c.args
      → converted is_composite convert ts c 0 ≡ some args
      → f args (push c.fcinfo w) ≡ o
      → invoke is_composite errors api convert (valued t f) ts c w
        ≡ exception_guard errors
            (λ x. at_scope_end (after (λ d. pure (answer c d)) o) (modify pop))
            w
  unfolding invoke with_call run_body exception_guard
  invoke_accepted t f ts c args w o s r l a h =
      guard_cong (whole_call (valued t f) ts c)
        (λ x. at_scope_end (after (λ d. pure (answer c d)) o) (modify pop)) w
        (ap (after (call_of (valued t f) c)) (
            checked_value t f ts c w s r l
            ∙ arguments_returned is_composite errors convert ts c 0 w args a)
          ∙ ap (λ o. at_scope_end (after (λ x. pure (answer c x)) o) (modify pop)) h)

  -- The call was made in `w`: the world in which the function runs, with the call on the stack, and
  -- the world after a function that left `v`, with the stack as it was.
  abbrev pub called_in : ℕ → World (Backend P) → World (Backend P)
  called_in fc w = record w { pg = record w.pg { calls = fc ∷ w.pg.calls } }

  abbrev pub left_in : World (Backend P) → World (Backend P) → World (Backend P)
  left_in w v = record v { pg = record v.pg { calls = w.pg.calls } }

  -- What Postgres gets for a value: the value, with fc->isnull left alone; for a null, zero with
  -- fc->isnull set.
  abbrev pub Given : Call → NullableDatum → Answer → Type 0
  Given c d a =
      (d.isnull ≡ false → (a.datum ≡ d.value) × (a.isnull ≡ c.isnull))
      × (d.isnull ≡ true → (a.datum ≡ 0) × (a.isnull ≡ true))

  answer-Given : (c : Call) (d : NullableDatum) → Given c d (answer c d)
  unfolding answer
  answer-Given c d = ((λ e. rw e (refl, refl)), λ e. rw e (refl, refl))

  popped : (fc : ℕ) (w v : World (Backend P)) → v.pg.calls ≡ fc ∷ w.pg.calls → pop v ≡ left_in w v
  popped fc w v e = rw e refl

  -- A call of a function that returns no set, whose return type is accepted, with arguments
  -- enough, all of them of accepted types and convertible, runs the function on the converted
  -- arguments with the call on top of the stack; if it returns with the stack as it found it, the
  -- call gives its value with fc->isnull as it was, or zero with fc->isnull set if it returned a
  -- null, and leaves the stack as it was before the call.
  pub invoke_value :
      (t : CppType) (f : List A → Cpp (Backend P) NullableDatum) (ts : List CppType) (c : Call)
      (args : List A) (d : NullableDatum) (w v : World (Backend P))
      → returns_set c ≡ false
      → is is_composite t (return_type_of c) ≡ true
      → length ts ≤ length c.args
      → converted is_composite convert ts c 0 ≡ some args
      → f args (called_in c.fcinfo w) ≡ returns d v
      → v.pg.calls ≡ c.fcinfo ∷ w.pg.calls
      → (a : Answer) × (invoke is_composite errors api convert (valued t f) ts c w
          ≡ returns a (left_in w v))
        × Given c d a
  unfolding exception_guard
  invoke_value t f ts c args d w v s r l a h k = (
    answer c d,
    invoke_accepted t f ts c args w (returns d v) s r l a h
        ∙ ap (returns (answer c d)) (popped c.fcinfo w v k),
    answer-Given c d,
  )

  abbrev NoValue : {T : Type 0} → Outcome (Backend P) T → Type 0
  NoValue (returns a v) = ⊥
  NoValue (throws e v) = Unit
  NoValue (raises v) = Unit
  NoValue terminates = Unit

  stopped : {T : Type 0} (o : Outcome (Backend P) T) → Stops o → NoValue o
  stopped o (thrown x v e) = rw e tt
  stopped o (raised v e) = rw e tt

  NoValue-after :
      {S T : Type 0} (f : S → Cpp (Backend P) T) (o : Outcome (Backend P) S)
      → ((a : S) (v : World (Backend P)) → NoValue (f a v))
      → NoValue (after f o)
  NoValue-after f (returns a v) h = h a v
  NoValue-after f (throws e v) h = tt
  NoValue-after f (raises v) h = tt
  NoValue-after f terminates h = tt

  refused_arguments :
      (t : CppType) (f : List A → Cpp (Backend P) NullableDatum) (ts : List CppType) (c : Call)
      (w : World (Backend P))
      → converted is_composite convert ts c 0 ≡ none
      → NoValue (checked_arguments is_composite errors api convert (valued t f) ts c w)
  unfolding checked_arguments check_expects_set
  refused_arguments t f ts c w n =
      NoValue-after _
        (check_return is_composite errors (valued t f) (returns_set c) (return_type_of c) w)
        (λ _ v.
          NoValue-after _
            (check is_composite errors (leb (length ts) (length c.args)) too_few_arguments v)
            (λ _ x. stopped _ (arguments_stopped is_composite errors convert ts c 0 x n)))

  same_checks :
      (t : CppType) (f g : List A → Cpp (Backend P) NullableDatum) (ts : List CppType) (c : Call)
      (w : World (Backend P))
      → checked_arguments is_composite errors api convert (valued t f) ts c w
        ≡ checked_arguments is_composite errors api convert (valued t g) ts c w
  unfolding checked_arguments check_expects_set check_return
  same_checks t f g ts c w =
      ap
        (λ m.
          (m
              >> (check is_composite errors (leb (length ts) (length c.args)) too_few_arguments
                  >> convert_arguments is_composite errors convert ts c 0))
            w)
        (same_return (returns_set c))
    where
      same_return :
          (b : Bool)
          → check_return is_composite errors (valued t f) b (return_type_of c)
            ≡ check_return is_composite errors (valued t g) b (return_type_of c)
      same_return true = refl
      same_return false = refl

  never_run :
      {S T : Type 0} (k l : S → Cpp (Backend P) T) (o : Outcome (Backend P) S)
      → NoValue o
      → after k o ≡ after l o
  never_run k l (returns a v) h = absurd h
  never_run k l (throws e v) h = refl
  never_run k l (raises v) h = refl
  never_run k l terminates h = refl

  -- A call of which some argument has a type that is not accepted or a value that cannot be
  -- converted ends in the same way and the same state whatever function is wrapped.
  pub invoke_refused :
      (t : CppType) (f g : List A → Cpp (Backend P) NullableDatum) (ts : List CppType) (c : Call)
      (w : World (Backend P))
      → converted is_composite convert ts c 0 ≡ none
      → invoke is_composite errors api convert (valued t f) ts c w
        ≡ invoke is_composite errors api convert (valued t g) ts c w
  unfolding invoke exception_guard
  invoke_refused t f g ts c w n =
      guard_cong (whole_call (valued t f) ts c) (whole_call (valued t g) ts c) w (
        never_run (call_of (valued t f) c) (call_of (valued t g) c) _
          (refused_arguments t f ts c w n)
        ∙ ap (after (call_of (valued t g) c)) (same_checks t f g ts c w))
