-- ===== src/Node/Visit.antt =====
-- visit_node, the walkers and node_traits::allocate of node.hpp: what a visit does.
use mathlib.Core.List.{append-nil, append_assoc}
use cppgres.Common.{
  ℕ, suc, ◌%◌, ◌^◌, ◌<◌, ◌≡◌, refl, true, none, some, List, [], ◌∷◌, ◌++◌, ◌↔◌, arith,
  if◌then◌else◌, Bool-cases, inl, inr,
}
use cppgres.World.{std_exception, World, returns, throws, Cpp, unknown_node_tag}
use cppgres.Node.{Node, Visitor, has_case, visit_node, walk_list, visit_cells, allocate}
use cppgres.Node.Tables.{dispatch_table}

module _ {P : Type 0} where
  -- visit_node throws an unknown node tag exception for a node that has a case, after the handler
  -- has returned, when the visitor takes no unknown_node.
  pub visit_node_known :
      (version : ℕ) (visitor : Visitor P) (node : Node) (w v : World P)
      → has_case version node.tag dispatch_table ≡ true
      → visitor.on_unknown ≡ none
      → visitor.on_node node w ≡ returns tt v
      → visit_node version visitor node w
        ≡ throws (std_exception unknown_node_tag) (record v { uncaught = suc v.uncaught })
  unfolding visit_node
  visit_node_known version visitor node w v c u h = rw (c, u, h) refl

  -- With a visitor that takes no unknown_node, a walk over a List ends with an unknown node tag
  -- exception at its first node if that node has a case and its handler returns; the nodes after
  -- it are not visited.
  pub walk_list_known :
      (version : ℕ) (visitor : Visitor P) (node : Node) (nodes : List Node) (w v : World P)
      → has_case version node.tag dispatch_table ≡ true
      → visitor.on_unknown ≡ none
      → visitor.on_node node w ≡ returns tt v
      → walk_list version visitor "List" (node ∷ nodes) w
        ≡ throws (std_exception unknown_node_tag) (record v { uncaught = suc v.uncaught })
  unfolding walk_list visit_cells
  walk_list_known version visitor node nodes w v c u h =
      rw (visit_node_known version visitor node w v c u h) refl

-- What a visitor is told: of a node under its type, or of an unknown node.
pub data Call : Type 0 where
  known : Node → Call
  unknown : Node → Call

abbrev note : Call → Cpp (List Call) (Unit {0})
note call w = returns tt (record w { pg = w.pg ++ (call ∷ []) })

-- A visitor that takes everything and keeps a record.
abbrev pub recorder : Visitor (List Call)
recorder = record {
  on_node = λ node. note (known node);
  on_unknown = some (λ node. note (unknown node));
}

abbrev pub calls : ℕ → List Node → List Call
calls version [] = []
calls version (node ∷ nodes) =
    let rest = calls version nodes in
    if has_case version node.tag dispatch_table
    then known node ∷ unknown node ∷ rest
    else unknown node ∷ rest

cells_recorded :
    (version : ℕ) (nodes : List Node) (w : World (List Call))
    → visit_cells version recorder nodes w
      ≡ returns tt (record w { pg = w.pg ++ calls version nodes })
unfolding visit_cells
cells_recorded version [] w = rw append-nil refl
cells_recorded version (node ∷ nodes) w =
    elim (Bool-cases (has_case version node.tag dispatch_table)) [
      | inl c ↦ rw (c, visit_node) (simp (cells_recorded version nodes, append_assoc))
      | inr c ↦ rw (c, visit_node) (simp (cells_recorded version nodes, append_assoc))
    ]

-- A walk over a List with a visitor that accepts everything returns and visits each cell once and
-- in order; a node with a case is reported first under its type and then again as unknown.
pub walk_list-calls :
    (version : ℕ) (nodes : List Node) (w : World (List Call))
    → walk_list version recorder "List" nodes w
      ≡ returns tt (record w { pg = w.pg ++ calls version nodes })
unfolding walk_list
walk_list-calls version nodes w = cells_recorded version nodes w

-- For a tag below 2 ^ 32, the pointer that node_traits::allocate returns is the one that was
-- allocated exactly if the lower half of that pointer is the tag by chance.
pub allocate-eq : (ptr tag : ℕ) → tag < 2 ^ 32 → (allocate ptr tag ≡ ptr) ↔ (ptr % 2 ^ 32 ≡ tag)
unfolding allocate
allocate-eq ptr tag h = (λ e. omega arith, λ e. omega arith)
