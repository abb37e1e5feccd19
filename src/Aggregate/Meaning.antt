-- ===== src/Aggregate/Meaning.antt =====
-- aggregate.hpp: what the class of an aggregate is meant to compute, and what the calls of Postgres leave alone.
use cppgres.Common.{ℕ, ◌≡◌, true, false, Option, some, List, [], ◌∷◌, if◌then◌else◌}
use cppgres.World.{World, Cpp, ◌>>=◌}
use cppgres.Guard.{ErrorApi}
use cppgres.Guard.Outcomes.{Ends, Calls}
use cppgres.Datum.Nullable.{NullableDatum}
use cppgres.Memory.Contexts.{Callback, MemoryApi}
use cppgres.Aggregate.{Class, Value, aggregate_sfunc, aggregate_ffunc}

-- The condition under which calls may fail: with an empty one, they all return.
abbrev pub Failing : Type 0 → {P : Type 0} → P → Type 0
Failing F p = F

-- What a class is meant to compute: the state that it starts with, a step for a row, and the result.
pub record Meaning (A In : Type 0) : Type 0 where
  pub init : A
  pub step : A → In → A
  pub final : A → NullableDatum

abbrev pub fold_rows : {A In : Type 0} → (A → In → A) → A → List In → A
fold_rows step a [] = a
fold_rows step a (r ∷ rows) = fold_rows step (step a r) rows

-- `object` is the state that stands at an address.
module _ {P A : Type 0} (object : P → ℕ → Option A) where
  abbrev pub SameObjects : P → P → Type 0
  SameObjects p q = (x : ℕ) → object q x ≡ object p x

  -- The calls of Postgres leave the objects alone, or raise; a callback stands at no object.
  pub record LeavesObjects (F : Type 0) (api : MemoryApi P) (check_call_context : Cpp P (Option ℕ))
      : Type 0 where
    pub allocs :
        (ctx n : ℕ) (w : World P) → Calls (λ a. SameObjects w.pg) (Failing F) w (api.alloc ctx n w)
    pub allocs_aligned :
        (ctx n a : ℕ) (w : World P)
        → Calls (λ a. SameObjects w.pg) (Failing F) w (api.alloc_aligned ctx n a w)
    pub registers :
        (ctx cb : ℕ) (w : World P)
        → Calls (λ a. SameObjects w.pg) (Failing F) w (api.register_reset_callback ctx cb w)
    pub writes : (cb : ℕ) (c : Callback) (p : P) → SameObjects p (api.write_callback cb c p)
    pub checks :
        (w : World P)
        → Calls
            (λ found p. ((ctx : ℕ) × (found ≡ some ctx)) × SameObjects w.pg p)
            (Failing F)
            w
            (check_call_context w)

  -- A state stands for a value: null for the initial one, otherwise as the address of its object.
  abbrev pub StandsFor : A → NullableDatum → A → P → Type 0
  StandsFor init state a p = if state.isnull then a ≡ init else (object p state.value ≡ some a)

module _ {P A In : Type 0} (object : P → ℕ → Option A) where
  -- The members of the class do what it is meant to compute, or throw.
  pub record Computes (F : Type 0) (agg : Class P A In) (meaning : Meaning A In) : Type 0 where
    pub by_pointer : (agg.convertible ≡ false) × (agg.finalizable ≡ true)
    pub makes :
        (x : ℕ) (w : World P)
        → Ends (λ a p. object p x ≡ some meaning.init) (Failing F) (agg.make x w)
    pub updates :
        (x : ℕ) (a : A) (row : In) (w : World P)
        → object w.pg x ≡ some a
        → Ends (λ u p. object p x ≡ some (meaning.step a row)) (Failing F) (agg.update x row w)
    pub finalizes :
        (x : ℕ) (a : A) (w : World P)
        → object w.pg x ≡ some a
        → Ends (λ d p. d ≡ meaning.final a) (Failing F) (agg.finalize x w)

module _ {P A In : Type 0} (errors : ErrorApi P) (api : MemoryApi P)
    (check_call_context : Cpp P (Option ℕ)) (agg : Class P A In) where
  -- Postgres calls the transition function for each row, with the state that it gave for the row
  -- before, and the final function at the end.
  unfoldable pub aggregated : Value → List In → Cpp P NullableDatum
  aggregated state [] = aggregate_ffunc errors api check_call_context agg state
  aggregated state (row ∷ rows) = do
    d ← aggregate_sfunc errors api check_call_context agg state row
    aggregated (record state { datum = record { value = d; isnull = false } }) rows
