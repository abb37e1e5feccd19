-- ===== src/Function/Arguments.antt =====
-- `postgres_function` of function.hpp: the conversion of the arguments.
use cppgres.Common.{
  ℕ, suc, ◌≡◌, refl, ◌∙◌, ap, Bool, true, false, Option, none, some, List, [], ◌∷◌, if◌then◌else◌,
}
use cppgres.World.{
  World, Outcome, Exn, returns, throws, raises, Cpp, after, std_exception, throw, What,
  invalid_type, unexpected_argument_type, ◌>>=◌, pure,
}
use cppgres.Guard.{ErrorApi, report}
use cppgres.Datum.Nullable.{Result, ok, err, NullableDatum}
use cppgres.Datum.Types.{Oid, CppType, is}
use cppgres.Function.{
  Backend, Call, check_type, convert_argument, convert_arguments, lift, argument_type, argument,
  valid,
}

module _ (is_composite : Oid → Bool) {A : Type 0}
    (convert : CppType → NullableDatum → Oid → Result A) where
  abbrev pub prefixed : Result A → Option (List A) → Option (List A)
  prefixed (ok a) (some rest) = some (a ∷ rest)
  prefixed (ok a) none = none
  prefixed (err x) o = none

  -- The arguments, if each one has a type that is accepted and a value that can be converted.
  abbrev pub converted : List CppType → Call → ℕ → Option (List A)
  converted [] c i = some []
  converted (t ∷ ts) c i =
      let rest = converted ts c (suc i) in
      if is is_composite t (argument_type c i)
      then prefixed (convert t (argument c i) (argument_type c i)) rest
      else none

module _ {P : Type 0} where
  -- Ways out without a value.
  pub data Stops {T : Type 0} (o : Outcome (Backend P) T) : Type 0 where
    thrown : (x : Exn) (v : World (Backend P)) → o ≡ throws x v → Stops o
    raised : (v : World (Backend P)) → o ≡ raises v → Stops o

module _ {P : Type 0} (is_composite : Oid → Bool) (errors : ErrorApi (Backend P)) {A : Type 0}
    (convert : CppType → NullableDatum → Oid → Result A) where
  abbrev Converts : Option (List A) → World (Backend P) → Outcome (Backend P) (List A) → Type 0
  Converts (some as') w o = o ≡ returns as' w
  Converts none w o = Stops o

  Stops-after :
      {S T : Type 0} (f : S → Cpp (Backend P) T) (o : Outcome (Backend P) S)
      → Stops o
      → Stops (after f o)
  Stops-after f o (thrown x v e) = thrown x v (rw e refl)
  Stops-after f o (raised v e) = raised v (rw e refl)

  refused_type :
      (o : Oid) (text : What) (w : World (Backend P))
      → Stops (check_type is_composite errors false o text w)
  unfolding check_type report
  refused_type o text w = named (valid o)
    where
      named :
          (b : Bool)
          → Stops (
              if b
              then report errors {A = Unit {0}} text w
              else throw (std_exception invalid_type) w)
      named true = raised _ refl
      named false = thrown _ _ refl

  one-Converts :
      (t : CppType) (c : Call) (i : ℕ) (w : World (Backend P)) (rest : Option (List A))
      (m : Cpp (Backend P) (List A)) (b : Bool) (r : Result A)
      → is is_composite t (argument_type c i) ≡ b
      → convert t (argument c i) (argument_type c i) ≡ r
      → Converts rest w (m w)
      → Converts (if b then prefixed is_composite convert r rest else none) w (
          (convert_argument is_composite errors convert t c i >>= λ a. m >>= λ as'. pure (a ∷ as'))
            w)
  unfolding convert_argument check_type lift
  one-Converts t c i w (some as') m true (ok a) e f h = rw (e, f, h) refl
  one-Converts t c i w none m true (ok a) e f h = rw (e, f) (Stops-after _ (m w) h)
  one-Converts t c i w rest m true (err x) e f h = rw (e, f) (thrown _ _ refl)
  one-Converts t c i w rest m false r e f h = rw e (
      Stops-after _ _
        (Stops-after _ _ (refused_type (argument_type c i) unexpected_argument_type w)))

  arguments_converted :
      (ts : List CppType) (c : Call) (i : ℕ) (w : World (Backend P))
      → Converts
          (converted is_composite convert ts c i)
          w
          (convert_arguments is_composite errors convert ts c i w)
  unfolding convert_arguments
  arguments_converted [] c i w = refl
  arguments_converted (t ∷ ts) c i w =
      one-Converts t c i w (converted is_composite convert ts c (suc i))
        (convert_arguments is_composite errors convert ts c (suc i)) _ _ refl refl
        (arguments_converted ts c (suc i) w)

  pub arguments_returned :
      (ts : List CppType) (c : Call) (i : ℕ) (w : World (Backend P)) (args : List A)
      → converted is_composite convert ts c i ≡ some args
      → convert_arguments is_composite errors convert ts c i w ≡ returns args w
  arguments_returned ts c i w args e =
      read (converted is_composite convert ts c i) e (arguments_converted ts c i w)
    where
      read :
          (o : Option (List A)) {r : Outcome (Backend P) (List A)}
          → o ≡ some args
          → Converts o w r
          → r ≡ returns args w
      read none e k = cc
      read (some as') e k = k ∙ ap (λ x. returns x w) (some_inj e)
        where
          some_inj : some as' ≡ some args → as' ≡ args
          some_inj e = cc

  pub arguments_stopped :
      (ts : List CppType) (c : Call) (i : ℕ) (w : World (Backend P))
      → converted is_composite convert ts c i ≡ none
      → Stops (convert_arguments is_composite errors convert ts c i w)
  arguments_stopped ts c i w e =
      read (converted is_composite convert ts c i) e (arguments_converted ts c i w)
    where
      read :
          (o : Option (List A)) {r : Outcome (Backend P) (List A)}
          → o ≡ none
          → Converts o w r
          → Stops r
      read none e k = k
      read (some as') e k = absurd (not_none e)
        where
          not_none : some as' ≡ none → ⊥
          not_none e = cc
