-- ===== src/Function/Outgoing/Checks.antt =====
-- `function<Ret, Args...>` of function.hpp: which functions of Postgres the constructor accepts.
use mathlib.Core.Path.{subst}
use cppgres.Common.{
  ℕ, ◌≡◌, refl, ◌∙◌, Bool, true, false, not, ◌&&◌, ◌||◌, ap, List, [], ◌∷◌, ◌==◌, if◌then◌else◌,
  length,
}
use cppgres.World.{
  What, World, Cpp, pure, ◌>>◌, throw, std_exception, invalid_type, wrong_number_of_values,
  unexpected_argument_type, unexpected_return_type,
}
use cppgres.Guard.{ErrorApi, ffi_guard}
use cppgres.Guard.Restore.{armed}
use cppgres.Guard.Outcomes.{Ends, Calls, KeptByErrors, Ends-then, Ends-weaken, guarded}
use cppgres.Datum.Types.{Oid, number, same_oid, invalid_oid, unknown_oid}
use cppgres.Memory.Contexts.{MemoryApi}
use cppgres.Syscache.{CacheApi}
use cppgres.Syscache.Pins.{SamePins, Pinned, PinLaws, with_syscache-SamePins}
use cppgres.Function.Outgoing.{
  ProcRow, OutgoingApi, Function, procoid, differs, name, throw_types, check_types,
  check_return_type, checked_function, construct,
}

-- The type that C++ wants is the one of the function, or unknown.
abbrev pub agrees : Oid → Oid → Bool
agrees wanted actual = same_oid wanted unknown_oid || same_oid actual wanted

abbrev pub all_agree : List Oid → List Oid → Bool
all_agree (wanted ∷ types) (actual ∷ argtypes) = agrees wanted actual && all_agree types argtypes
all_agree _ _ = true

-- The row is that of a function with the types of the class.
abbrev pub accepts : List Oid → Oid → ProcRow → Bool
accepts arg_types ret_type row =
    (length row.proargtypes == length arg_types)
    && (all_agree arg_types row.proargtypes && agrees ret_type row.prorettype)

differs-agrees : (wanted actual : Oid) → not (differs wanted actual) ≡ agrees wanted actual
unfolding differs
differs-agrees wanted actual = de_morgan (same_oid wanted unknown_oid) (same_oid actual wanted)
  where
    de_morgan : (a b : Bool) → not (not a && not b) ≡ (a || b)
    de_morgan true b = refl
    de_morgan false true = refl
    de_morgan false false = refl

-- The same, by the test of the code.
abbrev all_match : List Oid → List Oid → Bool
all_match (wanted ∷ types) (actual ∷ argtypes) =
    not (differs wanted actual) && all_match types argtypes
all_match _ _ = true

abbrev passes : List Oid → Oid → ProcRow → Bool
passes arg_types ret_type row =
    (length row.proargtypes == length arg_types)
    && (all_match arg_types row.proargtypes && not (differs ret_type row.prorettype))

match-agree : (types argtypes : List Oid) → all_match types argtypes ≡ all_agree types argtypes
match-agree [] argtypes = refl
match-agree (a ∷ types) [] = refl
match-agree (a ∷ types) (b ∷ argtypes) =
    ap (λ x. x && all_match types argtypes) (differs-agrees a b)
    ∙ ap (λ x. agrees a b && x) (match-agree types argtypes)

passes-accepts :
    (arg_types : List Oid) (ret_type : Oid) (row : ProcRow)
    → passes arg_types ret_type row ≡ accepts arg_types ret_type row
passes-accepts arg_types ret_type row =
    ap
      (λ x.
        (length row.proargtypes == length arg_types)
        && (x && not (differs ret_type row.prorettype)))
      (match-agree arg_types row.proargtypes)
    ∙ ap
        (λ x.
          (length row.proargtypes == length arg_types)
          && (all_agree arg_types row.proargtypes && x))
        (differs-agrees ret_type row.prorettype)

module _ {P : Type 0} (errors : ErrorApi P) (memory : MemoryApi P) (cache : CacheApi P)
    (api : OutgoingApi P) (X : Type 0) (I : P → Type 0) (kept : KeptByErrors errors I)
    (formats : (o : Oid) (w : World P) → I w.pg → Calls (λ u. I) I w (api.format_type o w)) where
  -- Naming types keeps the invariant, and the message is thrown in the end.
  name-Keeps : (o : Oid) (w : World P) → I w.pg → Ends (λ u. I) I (name errors memory cache api o w)
  unfolding name
  name-Keeps o w i = named (same_oid o invalid_oid)
    where
      named :
          (b : Bool)
          → Ends
              (λ u. I)
              I
              ((if b
                  then throw (std_exception invalid_type)
                  else ffi_guard errors (api.format_type o))
                w)
      named true = i
      named false = guarded (λ u. I) I errors kept (api.format_type o) w (formats o (armed w) i)

  throw_types-Throws :
      (a b : Oid) (text : What) (w : World P)
      → X
      → I w.pg
      → Ends (λ u p. ⊥) (λ p. X × I p) (throw_types errors memory cache api a b text w)
  unfolding throw_types
  throw_types-Throws a b text w x i =
      Ends-weaken (λ u p. ⊥) (λ u p. ⊥) I (λ p. X × I p) _ (λ u p h. h) (λ p h. (x, h))
        (Ends-then (λ u. I) (λ u p. ⊥) I
          (λ u. name errors memory cache api b >> throw (std_exception text))
          (name errors memory cache api a) w (name-Keeps a w i)
          (λ u v h.
            Ends-then (λ u. I) (λ u p. ⊥) I (λ u. throw (std_exception text))
              (name errors memory cache api b) v (name-Keeps b v h) (λ u y k. k)))

  -- One test of a type.
  tested :
      (d : Bool) (a b : Oid) (text : What) (w : World P)
      → (d ≡ true → X)
      → I w.pg
      → Ends
          (λ u p. (not d ≡ true) × I p)
          (λ p. X × I p)
          ((if d then throw_types errors memory cache api a b text else pure tt) w)
  tested false a b text w x i = (refl, i)
  tested true a b text w x i =
      Ends-weaken (λ u p. ⊥) (λ u p. (false ≡ true) × I p) (λ p. X × I p) (λ p. X × I p) _
        (λ u p h. absurd h) (λ p h. h) (throw_types-Throws a b text w (x refl) i)

  check_types-Match :
      (types argtypes : List Oid) (w : World P)
      → (all_match types argtypes ≡ false → X)
      → I w.pg
      → Ends
          (λ u p. (all_match types argtypes ≡ true) × I p)
          (λ p. X × I p)
          (check_types errors memory cache api types argtypes w)
  unfolding check_types
  check_types-Match [] argtypes w x i = (refl, i)
  check_types-Match (a ∷ types) [] w x i = (refl, i)
  check_types-Match (a ∷ types) (b ∷ argtypes) w x i =
      Ends-then (λ u p. (not (differs a b) ≡ true) × I p)
        (λ u p. (all_match (a ∷ types) (b ∷ argtypes) ≡ true) × I p) (λ p. X × I p)
        (λ u. check_types errors memory cache api types argtypes)
        (if differs a b
          then throw_types errors memory cache api a b unexpected_argument_type
          else pure tt)
        w (tested (differs a b) a b unexpected_argument_type w (λ e. x (rw e refl)) i)
        (λ u v (m, h).
          Ends-weaken (λ u p. (all_match types argtypes ≡ true) × I p)
            (λ u p. (all_match (a ∷ types) (b ∷ argtypes) ≡ true) × I p) (λ p. X × I p)
            (λ p. X × I p) _ (λ u p (k, g). (rw (m, k) refl, g)) (λ p k. k)
            (check_types-Match types argtypes v (λ e. x (rw (m, e) refl)) h))

  abbrev Accepted : List Oid → Oid → Oid → ProcRow → Function → Type 0
  Accepted arg_types ret_type oid row f =
      (passes arg_types ret_type row ≡ true)
      × (f ≡ record { oid = oid; rettype = row.prorettype; strict = row.proisstrict })

  checked_function-Accepted :
      (arg_types : List Oid) (ret_type oid : Oid) (row : ProcRow) (w : World P)
      → (passes arg_types ret_type row ≡ false → X)
      → I w.pg
      → Ends
          (λ f p. Accepted arg_types ret_type oid row f × I p)
          (λ p. X × I p)
          (checked_function errors memory cache api arg_types ret_type oid row w)
  unfolding checked_function check_return_type
  checked_function-Accepted arg_types ret_type oid row w x i =
      let E : P → Type 0 = λ p. X × I p in
      let Done : Function → P → Type 0 = λ f p. Accepted arg_types ret_type oid row f × I p in
      let many : Bool = length row.proargtypes == length arg_types in
      let f : Function = record { oid = oid; rettype = row.prorettype; strict = row.proisstrict } in
      let ret : Bool = differs ret_type row.prorettype in
      let check_return : Cpp P (Unit {0}) =
        if ret
        then throw_types errors memory cache api ret_type row.prorettype unexpected_return_type
        else pure tt in
      Ends-then (λ u p. (many ≡ true) × I p) Done E
        (λ u.
          check_types errors memory cache api arg_types row.proargtypes >> (check_return >> pure f))
        (if not many then throw (std_exception wrong_number_of_values) else pure tt) w
        (counted many (λ e. x (rw e refl)))
        (λ u v (m, h).
          Ends-then (λ u p. (all_match arg_types row.proargtypes ≡ true) × I p) Done E
            (λ u. check_return >> pure f)
            (check_types errors memory cache api arg_types row.proargtypes) v
            (check_types-Match arg_types row.proargtypes v (λ e. x (rw (m, e) refl)) h)
            (λ u y (a, g).
              Ends-then (λ u p. (not ret ≡ true) × I p) Done E (λ u. pure f) check_return y
                (tested ret ret_type row.prorettype unexpected_return_type y
                  (λ e. x (rw (m, a, e) refl)) g)
                (λ u z (n, k). ((rw (m, a, n) refl, refl), k))))
    where
      counted :
          (b : Bool)
          → (b ≡ false → X)
          → Ends
              (λ u p. (b ≡ true) × I p)
              (λ p. X × I p)
              ((if not b then throw (std_exception wrong_number_of_values) else pure tt) w)
      counted true x = (refl, i)
      counted false x = (x refl, i)

-- The functions of Postgres keep the pins, and the tuple that is found has the row of the function.
module _ {P : Type 0} (errors : ErrorApi P) (memory : MemoryApi P) (cache : CacheApi P)
    (api : OutgoingApi P) (pins : P → ℕ → ℕ) (X : Type 0) (laws : PinLaws pins X errors cache) where
  abbrev pub FormatsKeepPins : Type 0
  FormatsKeepPins =
      (t : ℕ) (p : P) (o : Oid) (w : World P)
      → Pinned pins t p w.pg
      → Calls (λ u. Pinned pins t p) (Pinned pins t p) w (api.format_type o w)

  abbrev pub RowIs : ProcRow → World P → Type 0
  RowIs row w = (t : ℕ) (p : P) → Pinned pins t w.pg p → api.proc_row t p ≡ row

  -- The constructor by the test of the code.
  construct-Passes :
      (arg_types : List Oid) (ret_type oid : Oid) (row : ProcRow) (w : World P)
      → FormatsKeepPins
      → RowIs row w
      → (passes arg_types ret_type row ≡ false → X)
      → Ends
          (λ f p.
            ((passes arg_types ret_type row ≡ true)
              × (f ≡ record { oid = oid; rettype = row.prorettype; strict = row.proisstrict }))
            × SamePins pins w.pg p)
          (λ p. X × SamePins pins w.pg p)
          (construct errors memory cache api arg_types ret_type oid w)
  unfolding construct
  construct-Passes arg_types ret_type oid row w formats is_row x =
      with_syscache-SamePins pins errors cache X laws
        (λ f.
          (passes arg_types ret_type row ≡ true)
          × (f ≡ record { oid = oid; rettype = row.prorettype; strict = row.proisstrict }))
        procoid (number oid ∷ [])
        (λ tuple v.
          checked_function errors memory cache api arg_types ret_type oid (api.proc_row tuple v.pg)
            v)
        w
        (λ t v pinned. rw (is_row t v.pg pinned) (
          checked_function-Accepted errors memory cache api X (Pinned pins t w.pg)
            (λ c p h. (laws.errors_keep c p t ∙ h.0, λ u n. laws.errors_keep c p u ∙ h.1 u n))
            (λ o. formats t w.pg o) arg_types ret_type oid row v x pinned))

  -- The constructor of function<Ret, Args...> returns only for a function of Postgres with the
  -- number and types of its arguments and its return type, where unknown stands for any, and then
  -- keeps its return type and whether it is strict; it throws only for another function or when a
  -- call fails; in both cases no tuple of the cache stays pinned.
  pub construct-Accepts :
      (arg_types : List Oid) (ret_type oid : Oid) (row : ProcRow) (w : World P)
      → FormatsKeepPins
      → RowIs row w
      → (accepts arg_types ret_type row ≡ false → X)
      → Ends
          (λ f p.
            ((accepts arg_types ret_type row ≡ true)
              × (f ≡ record { oid = oid; rettype = row.prorettype; strict = row.proisstrict }))
            × SamePins pins w.pg p)
          (λ p. X × SamePins pins w.pg p)
          (construct errors memory cache api arg_types ret_type oid w)
  construct-Accepts arg_types ret_type oid row w formats is_row =
      subst
        (λ b.
          (b ≡ false → X)
          → Ends
              (λ f p.
                ((b ≡ true)
                  × (f ≡ record { oid = oid; rettype = row.prorettype; strict = row.proisstrict }))
                × SamePins pins w.pg p)
              (λ p. X × SamePins pins w.pg p)
              (construct errors memory cache api arg_types ret_type oid w))
        (passes-accepts arg_types ret_type row)
        (construct-Passes arg_types ret_type oid row w formats is_row)
