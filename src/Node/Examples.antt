-- ===== src/Node/Examples.antt =====
-- Visits of nodes of node.hpp at concrete tags.
use cppgres.Common.{ℕ, ◌≤◌, ◌≡◌, refl, true, false, none, [], ◌∷◌, ◌↔◌, ◌%◌, ◌^◌, arith}
use cppgres.World.{World, returns, throws, std_exception, unknown_node_tag, pure}
use cppgres.Node.{Node, Visitor, has_case, has_type, walk_list, allocate}
use cppgres.Node.Tables.{dispatch_table, mapping_table}
use cppgres.Node.Coverage.{has_case-has_type, cases_for-le_one, cases_for}
use cppgres.Node.Visit.{walk_list_known, walk_list-calls, allocate-eq, recorder, calls}

abbrev range_var : Node
range_var = record { tag = "RangeVar"; address = 4096 }

abbrev silent : Visitor ℕ
silent = record { on_node = λ node. pure tt; on_unknown = none }

abbrev backend : {P : Type 0} → P → World P
backend p = record {
  exception_stack = 1;
  error_context_stack = 9;
  current_memory_context = 4;
  current_resource_owner = 5;
  frames = 2;
  uncaught = 0;
  warnings = [];
  pg = p;
}

range_var_known : has_case 17 "RangeVar" dispatch_table ≡ true
unfolding has_case dispatch_table
range_var_known = refl

json_table_new : has_case 16 "JsonTablePath" dispatch_table ≡ false
unfolding has_case dispatch_table
json_table_new = refl

has_case-has_type_example :
    has_case 17 "DistinctExpr" dispatch_table ≡ has_type 17 "DistinctExpr" mapping_table
has_case-has_type_example = has_case-has_type 17 "DistinctExpr"

cases_for-le_one_case : cases_for 17 "RangeVar" dispatch_table ≤ 1
cases_for-le_one_case = cases_for-le_one 17 "RangeVar"

walk_list_known_example :
    walk_list 17 silent "List" (range_var ∷ range_var ∷ []) (backend 0)
    ≡ throws (std_exception unknown_node_tag) (record (backend 0) { uncaught = 1 })
walk_list_known_example =
    walk_list_known 17 silent range_var (range_var ∷ []) (backend 0) (backend 0) range_var_known
      refl refl

walk_list-calls_example :
    walk_list 17 recorder "List" (range_var ∷ []) (backend [])
    ≡ returns tt (record (backend []) { pg = calls 17 (range_var ∷ []) })
walk_list-calls_example = walk_list-calls 17 (range_var ∷ []) (backend [])

allocate-eq_case : (allocate 4096 30 ≡ 4096) ↔ (4096 % 2 ^ 32 ≡ 30)
allocate-eq_case = allocate-eq 4096 30 (omega arith)
