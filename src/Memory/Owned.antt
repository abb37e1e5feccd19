-- ===== src/Memory/Owned.antt =====
-- `owned_memory_context` of memory.hpp: objects that delete their context unless it was moved away.
pub mod Conservation
mod Examples
use cppgres.Common.{
  ℕ, Bool, true, false, Option, none, some, List, [], ◌∷◌, ◌==◌, if◌then◌else◌, get_elem?, set,
  replicate,
}

pub record Owned : Type 0 where
  pub context : ℕ
  pub moved : Bool

-- The places where an object may live, the contexts that MemoryContextDelete was called on, and
-- those that a plain `memory_context` took over.
pub record Owners : Type 0 where
  pub objects : List (Option Owned)
  pub deleted : List ℕ
  pub released : List ℕ

-- `if (!moved) { delete_context(); }`
unfoldable pub drop_context : Owned → List ℕ → List ℕ
drop_context o deleted = if o.moved then deleted else o.context ∷ deleted

-- owned_memory_context(::MemoryContext), at a free place
unfoldable pub construct : Owners → ℕ → ℕ → Option Owners
construct s i context = elim (get_elem? s.objects i) [
  | some none ↦
      some (record s {
        objects = set s.objects i (some (record { context = context; moved = false }));
      })
  | _ ↦ none
]

-- `context(other.context), moved(other.moved)`, then `other.moved = true`
take_over : Owners → ℕ → ℕ → Owned → Owners
take_over s i j o = record s {
  objects = set (set s.objects j (some (record o { moved = true }))) i (some o);
}

-- owned_memory_context(owned_memory_context &&other), at a free place
unfoldable pub move_construct : Owners → ℕ → ℕ → Option Owners
unfolding take_over
move_construct s i j = elim (get_elem? s.objects i) [
  | some none ↦ elim (get_elem? s.objects j) [ some (some o) ↦ some (take_over s i j o) | _ ↦ none ]
  | _ ↦ none
]

-- operator=(owned_memory_context &&other); `this != &other` compares the places
unfoldable pub move_assign : Owners → ℕ → ℕ → Option Owners
unfolding take_over drop_context
move_assign s i j = elim (get_elem? s.objects i) [
  | some (some o) ↦ elim (get_elem? s.objects j) [
    | some (some other) ↦
        if i == j
        then some s
        else some (take_over (record s { deleted = drop_context o s.deleted }) i j other)
    | _ ↦ none
  ]
  | _ ↦ none
]

-- memory_context(owned_memory_context &&ctx): the context, and `ctx.moved = true`
unfoldable pub adopt : Owners → ℕ → Option Owners
unfolding drop_context
adopt s j = elim (get_elem? s.objects j) [
  | some (some o) ↦ some (record s {
    objects = set s.objects j (some (record o { moved = true }));
    released = drop_context o s.released;
  })
  | _ ↦ none
]

-- ~owned_memory_context
unfoldable pub destroy : Owners → ℕ → Option Owners
unfolding drop_context
destroy s i = elim (get_elem? s.objects i) [
  | some (some o) ↦
      some (record s { objects = set s.objects i none; deleted = drop_context o s.deleted })
  | _ ↦ none
]

-- What a program may do with such objects. `none` as a result is a use of a place that holds no
-- object, or a construction over one.
pub data Step : Type 0 where
  constructs : ℕ → ℕ → Step
  move_constructs move_assigns : ℕ → ℕ → Step
  adopts destroys : ℕ → Step

unfoldable pub step : Owners → Step → Option Owners
unfolding construct move_construct move_assign adopt destroy
step s (constructs i context) = construct s i context
step s (move_constructs i j) = move_construct s i j
step s (move_assigns i j) = move_assign s i j
step s (adopts j) = adopt s j
step s (destroys i) = destroy s i

unfoldable pub run : Owners → List Step → Option Owners
unfolding step
run s [] = some s
run s (a ∷ rest) = elim (step s a) [ none ↦ none | some t ↦ run t rest ]
