-- ===== src/Owner.antt =====
-- resource_owner.hpp: `resource_owner` and `executor_state`, which hold a handle of Postgres and free it at the end. The two classes differ in the calls that free.
pub mod Freed
mod Examples
use cppgres.Common.{
  ℕ, Bool, true, false, ◌&&◌, Option, none, some, List, [], ◌∷◌, ◌==◌, if◌then◌else◌, get_elem?,
  set,
}

-- The places of the objects with their handles (none inside is nullptr), the handles that were
-- freed, those whose freeing failed with a WARNING, and those that `release` handed out.
pub record Holders : Type 0 where
  pub objects : List (Option (Option ℕ))
  pub freed : List ℕ
  pub warned : List ℕ
  pub handed_out : List ℕ

-- resource_owner::dispose calls two functions of Postgres; the second is not reached if the first
-- one fails. Whether a call returns is a parameter.
unfoldable pub owner_freed : (ℕ → Bool) → (ℕ → Bool) → ℕ → Bool
owner_freed release_refs delete owner = release_refs owner && delete owner

-- executor_state::dispose calls one.
unfoldable pub state_freed : (ℕ → Bool) → ℕ → Bool
state_freed free estate = free estate

module _ (frees : ℕ → Bool) where
  -- dispose(), on the handle of an object that then holds nullptr
  unfoldable pub dispose : Option ℕ → Holders → Holders
  dispose none s = s
  dispose (some h) s =
      if frees h then record s { freed = h ∷ s.freed } else record s { warned = h ∷ s.warned }

  -- resource_owner(name, parent), executor_state(): Postgres returned a handle
  unfoldable pub construct : Holders → ℕ → ℕ → Option Holders
  construct s i h = elim (get_elem? s.objects i) [
    | some none ↦ some (record s { objects = set s.objects i (some (some h)) })
    | _ ↦ none
  ]

  -- `owner = other.owner; other.owner = nullptr`
  take_over : Holders → ℕ → ℕ → Option ℕ → Holders
  take_over s i j h = record s { objects = set (set s.objects j (some none)) i (some h) }

  -- resource_owner(resource_owner &&other), at a free place
  unfoldable pub move_construct : Holders → ℕ → ℕ → Option Holders
  unfolding take_over
  move_construct s i j = elim (get_elem? s.objects i) [
    | some none ↦ elim (get_elem? s.objects j) [
      | some (some h) ↦ some (take_over s i j h)
      | _ ↦ none
    ]
    | _ ↦ none
  ]

  -- operator=(resource_owner &&other)
  unfoldable pub move_assign : Holders → ℕ → ℕ → Option Holders
  unfolding take_over dispose
  move_assign s i j = elim (get_elem? s.objects i) [
    | some (some own) ↦ elim (get_elem? s.objects j) [
      | some (some other) ↦ if i == j then some s else some (take_over (dispose own s) i j other)
      | _ ↦ none
    ]
    | _ ↦ none
  ]

  hand_out : Option ℕ → Holders → Holders
  hand_out none s = s
  hand_out (some h) s = record s { handed_out = h ∷ s.handed_out }

  -- release()
  unfoldable pub release : Holders → ℕ → Option Holders
  unfolding hand_out
  release s i = elim (get_elem? s.objects i) [
    | some (some h) ↦ some (hand_out h (record s { objects = set s.objects i (some none) }))
    | _ ↦ none
  ]

  -- ~resource_owner, ~executor_state
  unfoldable pub destroy : Holders → ℕ → Option Holders
  unfolding dispose
  destroy s i = elim (get_elem? s.objects i) [
    | some (some h) ↦ some (dispose h (record s { objects = set s.objects i none }))
    | _ ↦ none
  ]

pub data Step : Type 0 where
  constructs : ℕ → ℕ → Step
  move_constructs move_assigns : ℕ → ℕ → Step
  releases destroys : ℕ → Step

module _ (frees : ℕ → Bool) where
  unfoldable pub step : Holders → Step → Option Holders
  unfolding construct move_construct move_assign release destroy
  step s (constructs i h) = construct frees s i h
  step s (move_constructs i j) = move_construct frees s i j
  step s (move_assigns i j) = move_assign frees s i j
  step s (releases i) = release frees s i
  step s (destroys i) = destroy frees s i

  unfoldable pub run : Holders → List Step → Option Holders
  unfolding step
  run s [] = some s
  run s (a ∷ rest) = elim (step s a) [ none ↦ none | some t ↦ run t rest ]
