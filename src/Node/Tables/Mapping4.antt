-- ===== src/Node/Tables/Mapping4.antt =====
-- node_mapping_table.hpp, lines 366 to 486.
use cppgres.Common.{List, [], ◌∷◌}
use cppgres.Node.Rows.{Mapping, always, before, node_mapping, since}

unfoldable pub mapping_rows4 : List Mapping
mapping_rows4 =
    node_mapping "BitmapAndPath" always
    ∷ node_mapping "BitmapOrPath" always
    ∷ node_mapping "TidPath" always
    ∷ node_mapping "TidRangePath" (since 14)
    ∷ node_mapping "SubqueryScanPath" always
    ∷ node_mapping "ForeignPath" always
    ∷ node_mapping "CustomPath" always
    ∷ node_mapping "AppendPath" always
    ∷ node_mapping "MergeAppendPath" always
    ∷ node_mapping "GroupResultPath" always
    ∷ node_mapping "MaterialPath" always
    ∷ node_mapping "MemoizePath" (since 14)
    ∷ node_mapping "UniquePath" always
    ∷ node_mapping "GatherPath" always
    ∷ node_mapping "GatherMergePath" always
    ∷ node_mapping "NestPath" always
    ∷ node_mapping "MergePath" always
    ∷ node_mapping "HashPath" always
    ∷ node_mapping "ProjectionPath" always
    ∷ node_mapping "ProjectSetPath" always
    ∷ node_mapping "SortPath" always
    ∷ node_mapping "IncrementalSortPath" always
    ∷ node_mapping "GroupPath" always
    ∷ node_mapping "UpperUniquePath" (before 19)
    ∷ node_mapping "AggPath" always
    ∷ node_mapping "GroupingSetData" always
    ∷ node_mapping "RollupData" always
    ∷ node_mapping "GroupingSetsPath" always
    ∷ node_mapping "MinMaxAggPath" always
    ∷ node_mapping "WindowAggPath" always
    ∷ node_mapping "SetOpPath" always
    ∷ node_mapping "RecursiveUnionPath" always
    ∷ node_mapping "LockRowsPath" always
    ∷ node_mapping "ModifyTablePath" always
    ∷ node_mapping "LimitPath" always
    ∷ node_mapping "RestrictInfo" always
    ∷ node_mapping "PlaceHolderVar" always
    ∷ node_mapping "SpecialJoinInfo" always
    ∷ node_mapping "OuterJoinClauseInfo" (since 16)
    ∷ node_mapping "AppendRelInfo" always
    ∷ node_mapping "RowIdentityVarInfo" (since 14)
    ∷ node_mapping "PlaceHolderInfo" always
    ∷ node_mapping "MinMaxAggInfo" always
    ∷ node_mapping "AggClauseInfo" (since 19)
    ∷ node_mapping "GroupingExprInfo" (since 19)
    ∷ node_mapping "PlannerParamItem" always
    ∷ node_mapping "AggInfo" (since 16)
    ∷ node_mapping "AggTransInfo" (since 16)
    ∷ node_mapping "UniqueRelInfo" (since 18)
    ∷ node_mapping "PlannedStmt" always
    ∷ node_mapping "Result" always
    ∷ node_mapping "ProjectSet" always
    ∷ node_mapping "ModifyTable" always
    ∷ node_mapping "Append" always
    ∷ node_mapping "MergeAppend" always
    ∷ node_mapping "RecursiveUnion" always
    ∷ node_mapping "BitmapAnd" always
    ∷ node_mapping "BitmapOr" always
    ∷ node_mapping "SeqScan" always
    ∷ node_mapping "SampleScan" always
    ∷ node_mapping "IndexScan" always
    ∷ node_mapping "IndexOnlyScan" always
    ∷ node_mapping "BitmapIndexScan" always
    ∷ node_mapping "BitmapHeapScan" always
    ∷ node_mapping "TidScan" always
    ∷ node_mapping "TidRangeScan" (since 14)
    ∷ node_mapping "SubqueryScan" always
    ∷ node_mapping "FunctionScan" always
    ∷ node_mapping "ValuesScan" always
    ∷ node_mapping "TableFuncScan" always
    ∷ node_mapping "CteScan" always
    ∷ node_mapping "NamedTuplestoreScan" always
    ∷ node_mapping "WorkTableScan" always
    ∷ node_mapping "ForeignScan" always
    ∷ node_mapping "CustomScan" always
    ∷ node_mapping "NestLoop" always
    ∷ node_mapping "NestLoopParam" always
    ∷ node_mapping "MergeJoin" always
    ∷ node_mapping "HashJoin" always
    ∷ node_mapping "Material" always
    ∷ node_mapping "Memoize" (since 14)
    ∷ node_mapping "Sort" always
    ∷ node_mapping "IncrementalSort" always
    ∷ node_mapping "Group" always
    ∷ node_mapping "Agg" always
    ∷ node_mapping "WindowAgg" always
    ∷ node_mapping "Unique" always
    ∷ node_mapping "Gather" always
    ∷ node_mapping "GatherMerge" always
    ∷ node_mapping "Hash" always
    ∷ node_mapping "SetOp" always
    ∷ node_mapping "LockRows" always
    ∷ node_mapping "Limit" always
    ∷ node_mapping "PlanRowMark" always
    ∷ node_mapping "PartitionPruneInfo" always
    ∷ node_mapping "PartitionedRelPruneInfo" always
    ∷ node_mapping "PartitionPruneStepOp" always
    ∷ node_mapping "PartitionPruneStepCombine" always
    ∷ node_mapping "PlanInvalItem" always
    ∷ node_mapping "SubPlanRTInfo" (since 19)
    ∷ []
