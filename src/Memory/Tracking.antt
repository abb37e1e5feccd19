-- ===== src/Memory/Tracking.antt =====
-- `tracking_memory_context` of memory.hpp: objects that share a counter of the resets of one memory context, by a reset callback that points to the counter.
pub mod Counts
pub mod Safety
pub mod Assignment
mod Examples
use cppgres.Common.{
  ℕ, suc, Bool, true, false, ◌&&◌, ◌||◌, Option, none, some, List, [], ◌∷◌, ◌++◌, ◌==◌,
  if◌then◌else◌, length, get_elem?, set, replicate, weight, same,
}

-- The places of the objects: an object holds a callback_state, by its number, or none after a move.
-- `counters` are the counters of all states that were made; `armed` says of each whether the
-- callback that Postgres has would call track_reset with a pointer to it.
pub record Store : Type 0 where
  pub objects : List (Option (Option ℕ))
  pub counters : List ℕ
  pub armed : List Bool

-- A use of a place without an object is `misused`; `dangling` is a callback that writes to a state
-- which no object holds any more, so that it has been freed.
pub data Outcome : Type 0 where
  reached : Store → Outcome
  misused dangling : Outcome

-- state.use_count()
abbrev pub holds : ℕ → Option (Option ℕ) → ℕ
holds s none = 0
holds s (some none) = 0
holds s (some (some t)) = same s t

unfoldable pub use_count : ℕ → List (Option (Option ℕ)) → ℕ
use_count s = weight (holds s)

-- tracking_memory_context(C ctx), at a free place
unfoldable pub construct : Store → ℕ → Outcome
construct st i = elim (get_elem? st.objects i) [
  | some none ↦ reached (record {
    objects = set st.objects i (some (some (length st.armed)));
    counters = st.counters ++ (0 ∷ []);
    armed = st.armed ++ (true ∷ []);
  })
  | _ ↦ misused
]

-- tracking_memory_context(const tracking_memory_context &other)
unfoldable pub copy_construct : Store → ℕ → ℕ → Outcome
copy_construct st i j = elim (get_elem? st.objects i) [
  | some none ↦ elim (get_elem? st.objects j) [
    | some (some h) ↦ reached (record st { objects = set st.objects i (some h) })
    | _ ↦ misused
  ]
  | _ ↦ misused
]

-- tracking_memory_context(tracking_memory_context &&other)
unfoldable pub move_construct : Store → ℕ → ℕ → Outcome
move_construct st i j = elim (get_elem? st.objects i) [
  | some none ↦ elim (get_elem? st.objects j) [
    | some (some h) ↦
        reached (record st { objects = set (set st.objects j (some none)) i (some h) })
    | _ ↦ misused
  ]
  | _ ↦ misused
]

-- operator=(const tracking_memory_context &other)
unfoldable pub copy_assign : Store → ℕ → ℕ → Outcome
copy_assign st i j = elim (get_elem? st.objects i) [
  | some (some own) ↦ elim (get_elem? st.objects j) [
    | some (some h) ↦
        if i == j then reached st else reached (record st { objects = set st.objects i (some h) })
    | _ ↦ misused
  ]
  | _ ↦ misused
]

-- operator=(tracking_memory_context &&other)
unfoldable pub move_assign : Store → ℕ → ℕ → Outcome
move_assign st i j = elim (get_elem? st.objects i) [
  | some (some own) ↦ elim (get_elem? st.objects j) [
    | some (some h) ↦
        if i == j
        then reached st
        else reached (record st { objects = set (set st.objects j (some none)) i (some h) })
    | _ ↦ misused
  ]
  | _ ↦ misused
]

-- what the destructor does to the callback
unfoldable pub disarm : Option ℕ → Store → List Bool
unfolding use_count
disarm none st = st.armed
disarm (some s) st = if use_count s st.objects == 1 then set st.armed s false else st.armed

-- ~tracking_memory_context()
unfoldable pub destroy : Store → ℕ → Outcome
unfolding disarm
destroy st i = elim (get_elem? st.objects i) [
  | some (some h) ↦ reached (record st { objects = set st.objects i none; armed = disarm h st })
  | _ ↦ misused
]

-- a callback with a pointer to a freed state, among the states from a number on
unfoldable pub some_dangling : List (Option (Option ℕ)) → ℕ → List Bool → Bool
unfolding use_count
some_dangling objects s [] = false
some_dangling objects s (a ∷ as') =
    (a && use_count s objects == 0) || some_dangling objects (suc s) as'

-- track_reset on each state, after which Postgres has no callback left
counted : List Bool → List ℕ → List ℕ
counted (a ∷ as') (c ∷ cs) = (if a then suc c else c) ∷ counted as' cs
counted _ cs = cs

-- MemoryContextReset
unfoldable pub reset : Store → Outcome
unfolding some_dangling counted
reset st =
    if some_dangling st.objects 0 st.armed
    then dangling
    else reached (record st {
      counters = counted st.armed st.counters;
      armed = replicate (length st.armed) false;
    })

pub data Step : Type 0 where
  constructs destroys : ℕ → Step
  copy_constructs move_constructs copy_assigns move_assigns : ℕ → ℕ → Step
  resets : Step

unfoldable pub step : Store → Step → Outcome
unfolding construct destroy copy_construct move_construct copy_assign move_assign reset
step st (constructs i) = construct st i
step st (destroys i) = destroy st i
step st (copy_constructs i j) = copy_construct st i j
step st (move_constructs i j) = move_construct st i j
step st (copy_assigns i j) = copy_assign st i j
step st (move_assigns i j) = move_assign st i j
step st resets = reset st

unfoldable pub run : Store → List Step → Outcome
unfolding step
run st [] = reached st
run st (a ∷ rest) = elim (step st a) [
  | reached t ↦ run t rest
  | misused ↦ misused
  | dangling ↦ dangling
]
