-- ===== src/Aggregate/Combined.antt =====
-- aggregate.hpp: the combination of the states of two partial aggregations.
mod Examples
use cppgres.Common.{
  ℕ, ◌≡◌, refl, sym, ap, ◌∙◌, Bool, true, false, not, Option, none, some, List, ◌++◌,
}
use cppgres.World.{World, Cpp, pure, ◌>>=◌}
use cppgres.Guard.{ErrorApi}
use cppgres.Guard.Restore.{armed}
use cppgres.Guard.Outcomes.{Ends, Calls, Ends-then, Ends-weaken, Calls-weaken}
use cppgres.Datum.Nullable.{NullableDatum}
use cppgres.Memory.Contexts.{MemoryApi, Layout, alloc, construct}
use cppgres.Aggregate.{Class, Value, aggregate_context, object_of, pointer_of, aggregate_combine}
use cppgres.Aggregate.Meaning.{
  Failing, Meaning, fold_rows, SameObjects, LeavesObjects, StandsFor, Computes,
}
use cppgres.Aggregate.Objects.{construct-MakesAt, construct-Makes, alloc-Answers}
use cppgres.Aggregate.Folds.{aggregate_context-Same, object_of-At, stands_still}

-- The objects at an address and at a second one that is fixed.
module _ {A : Type 0} where
  abbrev both : Option A → Option A → Option (A × A)
  both (some a) (some b) = some (a, b)
  both (some a) none = none
  both none o = none

  both-inv : (m n : Option A) (a b : A) → both m n ≡ some (a, b) → (m ≡ some a) × (n ≡ some b)
  both-inv (some x) (some y) a b e = (first e, second e)
    where
      first : ◌≡◌ {A = Option (A × A)} (some (x, y)) (some (a, b)) → some x ≡ some a
      first e = cc

      second : ◌≡◌ {A = Option (A × A)} (some (x, y)) (some (a, b)) → some y ≡ some b
      second e = cc
  both-inv (some x) none a b e = absurd (not_some e)
    where
      not_some : ◌≡◌ {A = Option (A × A)} none (some (a, b)) → ⊥
      not_some e = cc
  both-inv none n a b e = absurd (not_some e)
    where
      not_some : ◌≡◌ {A = Option (A × A)} none (some (a, b)) → ⊥
      not_some e = cc

-- Objects do not share memory: what is allocated is no object yet, and the constructor of the class
-- changes no object elsewhere.
module _ {P A In : Type 0} (F : Type 0) (object : P → ℕ → Option A) where
  pub record Apart (api : MemoryApi P) (agg : Class P A In) (meaning : Meaning A In) : Type 0 where
    pub allocs :
        (ctx n : ℕ) (w : World P)
        → Calls
            (λ x p. (object w.pg x ≡ none) × SameObjects object w.pg p)
            (Failing F)
            w
            (api.alloc ctx n w)
    pub allocs_aligned :
        (ctx n a : ℕ) (w : World P)
        → Calls
            (λ x p. (object w.pg x ≡ none) × SameObjects object w.pg p)
            (Failing F)
            w
            (api.alloc_aligned ctx n a w)
    pub makes :
        (x y : ℕ) (b : A) (w : World P)
        → ¬ (y ≡ x)
        → object w.pg y ≡ some b
        → Ends
            (λ u p. (object p x ≡ some meaning.init) × (object p y ≡ some b))
            (Failing F)
            (agg.make x w)

module _ {P A In : Type 0} (F : Type 0) (object : P → ℕ → Option A) (errors : ErrorApi P)
    (api : MemoryApi P) (check_call_context : Cpp P (Option ℕ)) (agg : Class P A In)
    (meaning : Meaning A In) (leaves : LeavesObjects object F api check_call_context)
    (computes : Computes object F agg meaning) (apart : Apart F object api agg meaning) where
  open computes use {by_pointer}

  abbrev At : A → ℕ → P → Type 0
  At a x p = object p x ≡ some a

  -- Seen together with the object at a second address, Postgres leaves the objects alone as well.
  abbrev seen : ℕ → P → ℕ → Option (A × A)
  seen y p x = both (object p x) (object p y)

  seen_same : (y : ℕ) (p q : P) → SameObjects object p q → SameObjects (seen y) p q
  seen_same y p q s x = rw (s x, s y) refl

  seen_leaves : (y : ℕ) → LeavesObjects (seen y) F api check_call_context
  seen_leaves y = record {
    allocs = λ ctx n w.
        (Calls-weaken (λ a. SameObjects object w.pg) (λ a. SameObjects (seen y) w.pg) (Failing F) w
          _ (λ a p. seen_same y w.pg p) (leaves.allocs ctx n w));
    allocs_aligned = λ ctx n a w.
        (Calls-weaken (λ a. SameObjects object w.pg) (λ a. SameObjects (seen y) w.pg) (Failing F) w
          _ (λ a p. seen_same y w.pg p) (leaves.allocs_aligned ctx n a w));
    registers = λ ctx cb w.
        Calls-weaken (λ a. SameObjects object w.pg) (λ a. SameObjects (seen y) w.pg) (Failing F) w _
          (λ a p. seen_same y w.pg p) (leaves.registers ctx cb w);
    writes = λ cb c p. seen_same y p _ (leaves.writes cb c p);
    checks = λ w.
        Calls-weaken (λ found p. ((ctx : ℕ) × (found ≡ some ctx)) × SameObjects object w.pg p)
          (λ found p. ((ctx : ℕ) × (found ≡ some ctx)) × SameObjects (seen y) w.pg p) (Failing F) w
          _ (λ found p h. (h.0, seen_same y w.pg p h.1)) (leaves.checks w);
  }

  -- A new object leaves the one at a second address as it is.
  new-Apart :
      (ctx y : ℕ) (b : A) (w : World P)
      → At b y w.pg
      → Ends
          (λ x p. At meaning.init x p × At b y p)
          (Failing F)
          (construct errors api ctx agg.layout agg.make w)
  new-Apart ctx y b w h =
      Ends-weaken (λ x p. seen y p x ≡ some (meaning.init, b))
        (λ x p. At meaning.init x p × At b y p) (Failing F) (Failing F) _
        (λ x p e. both-inv (object p x) (object p y) meaning.init b e) (λ p e. e)
        (construct-MakesAt F (seen y) errors api check_call_context (seen_leaves y) (λ x. ¬ (y ≡ x))
          (meaning.init, b) agg.make w
          (λ x v n s.
            Ends-weaken (λ u p. At meaning.init x p × At b y p)
              (λ u p. seen y p x ≡ some (meaning.init, b)) (Failing F) (Failing F) _
              (λ u p h. rw (h.0, h.1) refl) (λ p e. e)
              (apart.makes x y b v n
                (both-inv (object v.pg y) (object v.pg y) b b (s y ∙ joined (object w.pg y) h)).0))
          ctx agg.layout
          (alloc-Answers F object errors api check_call_context leaves
            (λ x p. (¬ (y ≡ x)) × SameObjects (seen y) w.pg p) ctx agg.layout 1 w
            (λ m.
              Calls-weaken New (λ x p. (¬ (y ≡ x)) × SameObjects (seen y) w.pg p) (Failing F)
                (armed w) _ elsewhere (apart.allocs ctx m (armed w)))
            (λ m a.
              Calls-weaken New (λ x p. (¬ (y ≡ x)) × SameObjects (seen y) w.pg p) (Failing F)
                (armed w) _ elsewhere (apart.allocs_aligned ctx m a (armed w)))))
    where
      New : ℕ → P → Type 0
      New x p = (object w.pg x ≡ none) × SameObjects object w.pg p

      joined : (o : Option A) → o ≡ some b → both o o ≡ some (b, b)
      joined o e = rw e refl

      elsewhere : (x : ℕ) (p : P) → New x p → (¬ (y ≡ x)) × SameObjects (seen y) w.pg p
      elsewhere x p (empty, s) =
          ((λ e. clash (sym h ∙ ap (object w.pg) e ∙ empty)), seen_same y w.pg p s)
        where
          clash : some b ≡ none → ⊥
          clash e = cc

  -- The object of one more state, with another object in place.
  second_of-Apart :
      (isnull : Bool) (value ctx y : ℕ) (a b : A) (w : World P)
      → StandsFor object meaning.init (record { value = value; isnull = isnull }) a w.pg
      → At b y w.pg
      → Ends
          (λ x p. At a x p × At b y p)
          (Failing F)
          (object_of errors api check_call_context agg ctx
            (record { value = value; isnull = isnull })
            w)
  unfolding object_of pointer_of
  second_of-Apart true value ctx y a b w at_a h = rw at_a (new-Apart ctx y b w h)
  second_of-Apart false value ctx y a b w at_a h = (at_a, h)

  -- The object of a state, with a second state that still stands for its value.
  first_of-Apart :
      (isnull : Bool) (value ctx : ℕ) (state : NullableDatum) (a b : A) (w : World P)
      → StandsFor object meaning.init state a w.pg
      → StandsFor object meaning.init (record { value = value; isnull = isnull }) b w.pg
      → Ends
          (λ x p.
            At a x p
            × StandsFor object meaning.init (record { value = value; isnull = isnull }) b p)
          (Failing F)
          (object_of errors api check_call_context agg ctx state w)
  first_of-Apart true value ctx state a b w at_a at_b =
      Ends-weaken (λ x p. At a x p) (λ x p. At a x p × (b ≡ meaning.init)) (Failing F) (Failing F) _
        (λ x p h. (h, at_b)) (λ p e. e)
        (object_of-At F object errors api check_call_context agg meaning leaves computes ctx state a
          w at_a)
  first_of-Apart false value ctx state a b w at_a at_b =
      second_of-Apart state.isnull state.value ctx value a b w at_a at_b

  -- A combining constructor that makes of the states of two runs the state of one run over both.
  abbrev pub Combines : Type 0
  Combines =
      (rows more : List In) (x y z : ℕ) (w : World P)
      → At (fold_rows meaning.step meaning.init rows) x w.pg
      → At (fold_rows meaning.step meaning.init more) y w.pg
      → Ends (λ u. At (fold_rows meaning.step meaning.init (rows ++ more)) z) (Failing F)
          (agg.make_combined x y z w)

  -- Combining the states of two partial aggregations, each given as a null (for no rows) or as the
  -- object of a state, gives an object that stands for the fold over the rows of both, if the
  -- class is combinable and its combining constructor does so, an allocation gives an address
  -- where no object stands, and the constructor of the class from no arguments gives the object of
  -- no rows there and leaves the other objects; it returns if no call fails.
  pub aggregate_combine-Refines :
      (rows more : List In) (state other : Value) (w : World P)
      → Combines
      → agg.combinable ≡ true
      → StandsFor object meaning.init state.datum (fold_rows meaning.step meaning.init rows) w.pg
      → StandsFor object meaning.init other.datum (fold_rows meaning.step meaning.init more) w.pg
      → Ends
          (At (fold_rows meaning.step meaning.init (rows ++ more)))
          (Failing F)
          (aggregate_combine errors api check_call_context agg state other w)
  unfolding aggregate_combine
  aggregate_combine-Refines rows more state other w combines can h k =
      let left : A = fold_rows meaning.step meaning.init rows in
      let right : A = fold_rows meaning.step meaning.init more in
      let whole : A = fold_rows meaning.step meaning.init (rows ++ more) in
      Ends-then (λ c. SameObjects object w.pg) (At whole) (Failing F) _
        (aggregate_context errors api check_call_context agg) w
        (aggregate_context-Same F object errors api check_call_context agg meaning leaves computes
          w)
        (λ ctx v s.
          simp (can, by_pointer.0, by_pointer.1)
            (Ends-then (λ x p. At left x p × StandsFor object meaning.init other.datum right p)
              (At whole) (Failing F) _ (object_of errors api check_call_context agg ctx state.datum)
              v
              (first_of-Apart other.datum.isnull other.datum.value ctx state.datum left right v
                (still state.datum left v.pg s h) (still other.datum right v.pg s k))
              (λ x u (at_x, stands).
                Ends-then (λ y p. At right y p × At left x p) (At whole) (Failing F) _
                  (object_of errors api check_call_context agg ctx other.datum) u
                  (second_of-Apart other.datum.isnull other.datum.value ctx x right left u stands
                    at_x)
                  (λ y z (at_y, at_x).
                    construct-Makes F object errors api check_call_context leaves whole
                      (agg.make_combined x y) z
                      (λ place t g. combines rows more x y place t (g x ∙ at_x) (g y ∙ at_y)) ctx
                      agg.layout))))
    where
      still :
          (d : NullableDatum) (a : A) (q : P)
          → SameObjects object w.pg q
          → StandsFor object meaning.init d a w.pg
          → StandsFor object meaning.init d a q
      still d a q s g =
          stands_still F object errors api check_call_context agg meaning leaves computes d.isnull
            d.value a w.pg q s g
