-- ===== src/Node/Tables/Dispatch4.antt =====
-- node_dispatch_table.hpp, lines 366 to 486.
use cppgres.Common.{List, [], ◌∷◌}
use cppgres.Node.Rows.{Dispatch, always, before, node_dispatch, since}

unfoldable pub dispatch_rows4 : List Dispatch
dispatch_rows4 =
    node_dispatch "BitmapAndPath" always
    ∷ node_dispatch "BitmapOrPath" always
    ∷ node_dispatch "TidPath" always
    ∷ node_dispatch "TidRangePath" (since 14)
    ∷ node_dispatch "SubqueryScanPath" always
    ∷ node_dispatch "ForeignPath" always
    ∷ node_dispatch "CustomPath" always
    ∷ node_dispatch "AppendPath" always
    ∷ node_dispatch "MergeAppendPath" always
    ∷ node_dispatch "GroupResultPath" always
    ∷ node_dispatch "MaterialPath" always
    ∷ node_dispatch "MemoizePath" (since 14)
    ∷ node_dispatch "UniquePath" always
    ∷ node_dispatch "GatherPath" always
    ∷ node_dispatch "GatherMergePath" always
    ∷ node_dispatch "NestPath" always
    ∷ node_dispatch "MergePath" always
    ∷ node_dispatch "HashPath" always
    ∷ node_dispatch "ProjectionPath" always
    ∷ node_dispatch "ProjectSetPath" always
    ∷ node_dispatch "SortPath" always
    ∷ node_dispatch "IncrementalSortPath" always
    ∷ node_dispatch "GroupPath" always
    ∷ node_dispatch "UpperUniquePath" (before 19)
    ∷ node_dispatch "AggPath" always
    ∷ node_dispatch "GroupingSetData" always
    ∷ node_dispatch "RollupData" always
    ∷ node_dispatch "GroupingSetsPath" always
    ∷ node_dispatch "MinMaxAggPath" always
    ∷ node_dispatch "WindowAggPath" always
    ∷ node_dispatch "SetOpPath" always
    ∷ node_dispatch "RecursiveUnionPath" always
    ∷ node_dispatch "LockRowsPath" always
    ∷ node_dispatch "ModifyTablePath" always
    ∷ node_dispatch "LimitPath" always
    ∷ node_dispatch "RestrictInfo" always
    ∷ node_dispatch "PlaceHolderVar" always
    ∷ node_dispatch "SpecialJoinInfo" always
    ∷ node_dispatch "OuterJoinClauseInfo" (since 16)
    ∷ node_dispatch "AppendRelInfo" always
    ∷ node_dispatch "RowIdentityVarInfo" (since 14)
    ∷ node_dispatch "PlaceHolderInfo" always
    ∷ node_dispatch "MinMaxAggInfo" always
    ∷ node_dispatch "AggClauseInfo" (since 19)
    ∷ node_dispatch "GroupingExprInfo" (since 19)
    ∷ node_dispatch "PlannerParamItem" always
    ∷ node_dispatch "AggInfo" (since 16)
    ∷ node_dispatch "AggTransInfo" (since 16)
    ∷ node_dispatch "UniqueRelInfo" (since 18)
    ∷ node_dispatch "PlannedStmt" always
    ∷ node_dispatch "Result" always
    ∷ node_dispatch "ProjectSet" always
    ∷ node_dispatch "ModifyTable" always
    ∷ node_dispatch "Append" always
    ∷ node_dispatch "MergeAppend" always
    ∷ node_dispatch "RecursiveUnion" always
    ∷ node_dispatch "BitmapAnd" always
    ∷ node_dispatch "BitmapOr" always
    ∷ node_dispatch "SeqScan" always
    ∷ node_dispatch "SampleScan" always
    ∷ node_dispatch "IndexScan" always
    ∷ node_dispatch "IndexOnlyScan" always
    ∷ node_dispatch "BitmapIndexScan" always
    ∷ node_dispatch "BitmapHeapScan" always
    ∷ node_dispatch "TidScan" always
    ∷ node_dispatch "TidRangeScan" (since 14)
    ∷ node_dispatch "SubqueryScan" always
    ∷ node_dispatch "FunctionScan" always
    ∷ node_dispatch "ValuesScan" always
    ∷ node_dispatch "TableFuncScan" always
    ∷ node_dispatch "CteScan" always
    ∷ node_dispatch "NamedTuplestoreScan" always
    ∷ node_dispatch "WorkTableScan" always
    ∷ node_dispatch "ForeignScan" always
    ∷ node_dispatch "CustomScan" always
    ∷ node_dispatch "NestLoop" always
    ∷ node_dispatch "NestLoopParam" always
    ∷ node_dispatch "MergeJoin" always
    ∷ node_dispatch "HashJoin" always
    ∷ node_dispatch "Material" always
    ∷ node_dispatch "Memoize" (since 14)
    ∷ node_dispatch "Sort" always
    ∷ node_dispatch "IncrementalSort" always
    ∷ node_dispatch "Group" always
    ∷ node_dispatch "Agg" always
    ∷ node_dispatch "WindowAgg" always
    ∷ node_dispatch "Unique" always
    ∷ node_dispatch "Gather" always
    ∷ node_dispatch "GatherMerge" always
    ∷ node_dispatch "Hash" always
    ∷ node_dispatch "SetOp" always
    ∷ node_dispatch "LockRows" always
    ∷ node_dispatch "Limit" always
    ∷ node_dispatch "PlanRowMark" always
    ∷ node_dispatch "PartitionPruneInfo" always
    ∷ node_dispatch "PartitionedRelPruneInfo" always
    ∷ node_dispatch "PartitionPruneStepOp" always
    ∷ node_dispatch "PartitionPruneStepCombine" always
    ∷ node_dispatch "PlanInvalItem" always
    ∷ node_dispatch "SubPlanRTInfo" (since 19)
    ∷ []
