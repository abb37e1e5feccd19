-- ===== src/Node.antt =====
-- node.hpp with its two tables: which node tags have a C++ type, and how a node is visited.
pub mod Rows
pub mod Tables
pub mod Coverage
pub mod Visit
mod Examples
use Prim.Native.String.{String}
use text.Mathlib.Text.{◌==◌ as str_eq}
use cppgres.Common.{
  ℕ, ◌+◌, ◌*◌, ◌/◌, ◌^◌, Bool, true, false, ◌&&◌, ◌||◌, Option, none, some, List, [], ◌∷◌,
  if◌then◌else◌,
}
use cppgres.World.{Exn, std_exception, World, Cpp, pure, ◌>>=◌, ◌>>◌, throw, unknown_node_tag}
use cppgres.Guard.{ErrorApi, ffi_guard}
use Rows.{Mapping, Dispatch, node_mapping, node_mapping_no_node_traits, node_dispatch, holds}
use Tables.{mapping_table, dispatch_table}

pub record Node : Type 0 where
  pub tag : String
  pub address : ℕ

-- The `case` label that a line of the dispatch table gives for a tag, at a version of Postgres.
unfoldable pub dispatches : ℕ → String → Dispatch → Bool
unfolding holds
dispatches version tag (node_dispatch name guard) = holds guard version && str_eq name tag

-- The switch of visit_node(void *, …) has a `case` for the tag.
unfoldable pub has_case : ℕ → String → List Dispatch → Bool
unfolding dispatches
has_case version tag [] = false
has_case version tag (row ∷ rows) = dispatches version tag row || has_case version tag rows

-- node_tag_traits<T_name> is specialised, by either macro.
unfoldable pub maps : ℕ → String → Mapping → Bool
unfolding holds
maps version tag (node_mapping name guard) = holds guard version && str_eq name tag
maps version tag (node_mapping_no_node_traits name guard) = holds guard version && str_eq name tag

unfoldable pub has_type : ℕ → String → List Mapping → Bool
unfolding maps
has_type version tag [] = false
has_type version tag (row ∷ rows) = maps version tag row || has_type version tag rows

-- node_traits<nodes::name>::is(::Node *)
unfoldable pub is_node : String → Node → Bool
is_node name node = str_eq node.tag name

-- node_traits<nodes::name>::allocate: `ptr` is what the context allocated, and the reference cast
-- writes the 32 bits of the tag over the lower half of the pointer variable (little-endian).
unfoldable pub allocate : ℕ → ℕ → ℕ
allocate ptr tag = ptr / 2 ^ 32 * 2 ^ 32 + tag

-- What a visitor accepts: the mapped node types, and perhaps `unknown_node`.
pub record Visitor (P : Type 0) : Type 0 where
  pub on_node : Node → Cpp P (Unit {0})
  pub on_unknown : Option (Node → Cpp P (Unit {0}))

module _ {P : Type 0} where
  -- the `if constexpr` below the switch
  visit_unknown : Option (Node → Cpp P (Unit {0})) → Node → Cpp P (Unit {0})
  visit_unknown (some f) node = f node
  visit_unknown none node = throw (std_exception unknown_node_tag)

  -- visit_node(void *, Visitor &&): `break` leaves the switch only
  unfoldable pub visit_node : ℕ → Visitor P → Node → Cpp P (Unit {0})
  unfolding visit_unknown
  visit_node version visitor node =
      (if has_case version node.tag dispatch_table then visitor.on_node node else pure tt)
      >> visit_unknown visitor.on_unknown node

  -- the callback that node_walker hands to the walker of Postgres
  unfoldable pub walk_callback : ℕ → Visitor P → Option Node → Cpp P Bool
  unfolding visit_node
  walk_callback version visitor none = pure false
  walk_callback version visitor (some node) = visit_node version visitor node >>= λ _. pure false

  -- node_walker<T>::operator()(::Node *, …); `walker` is a tree walker of Postgres
  unfoldable pub walk :
      ErrorApi P
      → ((Option Node → Cpp P Bool) → Node → Cpp P Bool)
      → ℕ
      → Visitor P
      → Node
      → Cpp P (Unit {0})
  unfolding walk_callback
  walk api walker version visitor node =
      ffi_guard api (walker (walk_callback version visitor) node) >>= λ _. pure tt

  -- node_walker<nodes::List>::operator(), on the cells of the list
  visit_cells : ℕ → Visitor P → List Node → Cpp P (Unit {0})
  unfolding visit_node
  visit_cells version visitor [] = pure tt
  visit_cells version visitor (node ∷ nodes) =
      visit_node version visitor node >> visit_cells version visitor nodes

  unfoldable pub walk_list : ℕ → Visitor P → String → List Node → Cpp P (Unit {0})
  unfolding visit_cells
  walk_list version visitor tag cells =
      if str_eq tag "List" then visit_cells version visitor cells else pure tt

  -- node_walker<nodes::RawStmt>::operator()
  unfoldable pub walk_raw_stmt : ℕ → Visitor P → Node → Cpp P (Unit {0})
  unfolding visit_node
  walk_raw_stmt version visitor stmt = visit_node version visitor stmt
