-- ===== src/Node/Coverage.antt =====
-- node_mapping_table.hpp against node_dispatch_table.hpp, as node.hpp uses them.
use Prim.Native.String.{String}
use text.Mathlib.Text.{◌==◌ as str_eq}
use text.Mathlib.TextEquality.{eq_iff}
use cppgres.Common.{
  ℕ, suc, ◌≤◌, ◌≡◌, refl, ap, ◌∙◌, sym, Bool, true, false, not, ◌&&◌, ◌||◌, List, [], ◌∷◌, map,
  if◌then◌else◌, arith,
}
use cppgres.Node.{has_case, has_type, dispatches}
use cppgres.Node.Rows.{Mapping, Dispatch, node_mapping, node_mapping_no_node_traits, node_dispatch}
use cppgres.Node.Tables.{mapping_table, dispatch_table}

-- The line that the dispatch table should have for a mapping.
dispatch_of : Mapping → Dispatch
dispatch_of (node_mapping name guard) = node_dispatch name guard
dispatch_of (node_mapping_no_node_traits name guard) = node_dispatch name guard

has_case-map :
    (version : ℕ) (tag : String) (rows : List Mapping)
    → has_case version tag (map dispatch_of rows) ≡ has_type version tag rows
unfolding has_case has_type dispatch_of
has_case-map version tag [] = refl
has_case-map version tag (node_mapping name guard ∷ rows) = rw (has_case-map version tag rows) refl
has_case-map version tag (node_mapping_no_node_traits name guard ∷ rows) =
    rw (has_case-map version tag rows) refl

tables_agree : map dispatch_of mapping_table ≡ dispatch_table
unfolding dispatch_of mapping_table dispatch_table
tables_agree = refl

-- At every version of Postgres and for every node tag, the switch of visit_node has a case for the
-- tag exactly if the mapping table gives the tag a C++ type.
pub has_case-has_type :
    (version : ℕ) (tag : String)
    → has_case version tag dispatch_table ≡ has_type version tag mapping_table
has_case-has_type version tag =
    ap (has_case version tag) (sym tables_agree) ∙ has_case-map version tag mapping_table

name_of : Dispatch → String
name_of (node_dispatch name guard) = name

abbrev pub cases_for : ℕ → String → List Dispatch → ℕ
cases_for version tag [] = 0
cases_for version tag (row ∷ rows) =
    let rest = cases_for version tag rows in if dispatches version tag row then suc rest else rest

named : String → List Dispatch → Bool
unfolding name_of
named name [] = false
named name (row ∷ rows) = str_eq (name_of row) name || named name rows

distinct : List Dispatch → Bool
unfolding named
distinct [] = true
distinct (row ∷ rows) = not (named (name_of row) rows) && distinct rows

dispatch_table-distinct : distinct dispatch_table ≡ true
unfolding distinct dispatch_table
dispatch_table-distinct = refl

cases_for_absent :
    (version : ℕ) (tag : String) (rows : List Dispatch)
    → named tag rows ≡ false
    → cases_for version tag rows ≡ 0
unfolding named dispatches
cases_for_absent version tag [] h = refl
cases_for_absent version tag (node_dispatch name guard ∷ rows) h =
    ground (arith, cases_for_absent version tag rows)

cases_for-distinct :
    (version : ℕ) (tag : String) (rows : List Dispatch)
    → distinct rows ≡ true
    → cases_for version tag rows ≤ 1
unfolding distinct dispatches name_of
cases_for-distinct version tag [] h = omega arith
cases_for-distinct version tag (node_dispatch name guard ∷ rows) h =
    ground (
      arith,
      eq_iff name tag,
      cases_for-distinct version tag rows,
      cases_for_absent version tag rows,
    )

-- At every version of Postgres no node tag has more than one case label in the switch of
-- visit_node.
pub cases_for-le_one : (version : ℕ) (tag : String) → cases_for version tag dispatch_table ≤ 1
cases_for-le_one version tag = cases_for-distinct version tag dispatch_table dispatch_table-distinct
