-- ===== src/Node/Tables/Mapping5.antt =====
-- node_mapping_table.hpp, lines 487 to 614.
use cppgres.Common.{List, [], ◌∷◌}
use cppgres.Node.Rows.{Mapping, always, before, node_mapping, since}

unfoldable pub mapping_rows5 : List Mapping
mapping_rows5 =
    node_mapping "ElidedNode" (since 19)
    ∷ node_mapping "ExprState" always
    ∷ node_mapping "IndexInfo" always
    ∷ node_mapping "ExprContext" always
    ∷ node_mapping "ReturnSetInfo" always
    ∷ node_mapping "ProjectionInfo" always
    ∷ node_mapping "JunkFilter" always
    ∷ node_mapping "OnConflictSetState" (before 19)
    ∷ node_mapping "OnConflictActionState" (since 19)
    ∷ node_mapping "MergeActionState" (since 15)
    ∷ node_mapping "ForPortionOfState" (since 19)
    ∷ node_mapping "ResultRelInfo" always
    ∷ node_mapping "EState" always
    ∷ node_mapping "WindowFuncExprState" always
    ∷ node_mapping "SetExprState" always
    ∷ node_mapping "SubPlanState" always
    ∷ node_mapping "DomainConstraintState" always
    ∷ node_mapping "ResultState" always
    ∷ node_mapping "ProjectSetState" always
    ∷ node_mapping "ModifyTableState" always
    ∷ node_mapping "AppendState" always
    ∷ node_mapping "MergeAppendState" always
    ∷ node_mapping "RecursiveUnionState" always
    ∷ node_mapping "BitmapAndState" always
    ∷ node_mapping "BitmapOrState" always
    ∷ node_mapping "ScanState" always
    ∷ node_mapping "SeqScanState" always
    ∷ node_mapping "SampleScanState" always
    ∷ node_mapping "IndexScanState" always
    ∷ node_mapping "IndexOnlyScanState" always
    ∷ node_mapping "BitmapIndexScanState" always
    ∷ node_mapping "BitmapHeapScanState" always
    ∷ node_mapping "TidScanState" always
    ∷ node_mapping "TidRangeScanState" (since 14)
    ∷ node_mapping "SubqueryScanState" always
    ∷ node_mapping "FunctionScanState" always
    ∷ node_mapping "ValuesScanState" always
    ∷ node_mapping "TableFuncScanState" always
    ∷ node_mapping "CteScanState" always
    ∷ node_mapping "NamedTuplestoreScanState" always
    ∷ node_mapping "WorkTableScanState" always
    ∷ node_mapping "ForeignScanState" always
    ∷ node_mapping "CustomScanState" always
    ∷ node_mapping "JoinState" always
    ∷ node_mapping "NestLoopState" always
    ∷ node_mapping "MergeJoinState" always
    ∷ node_mapping "HashJoinState" always
    ∷ node_mapping "MaterialState" always
    ∷ node_mapping "MemoizeState" (since 14)
    ∷ node_mapping "SortState" always
    ∷ node_mapping "IncrementalSortState" always
    ∷ node_mapping "GroupState" always
    ∷ node_mapping "AggState" always
    ∷ node_mapping "WindowAggState" always
    ∷ node_mapping "UniqueState" always
    ∷ node_mapping "GatherState" always
    ∷ node_mapping "GatherMergeState" always
    ∷ node_mapping "HashState" always
    ∷ node_mapping "SetOpState" always
    ∷ node_mapping "LockRowsState" always
    ∷ node_mapping "LimitState" always
    ∷ node_mapping "IndexAmRoutine" always
    ∷ node_mapping "TableAmRoutine" always
    ∷ node_mapping "TsmRoutine" always
    ∷ node_mapping "EventTriggerData" always
    ∷ node_mapping "TriggerData" always
    ∷ node_mapping "TupleTableSlot" always
    ∷ node_mapping "FdwRoutine" always
    ∷ node_mapping "Bitmapset" (since 16)
    ∷ node_mapping "ExtensibleNode" always
    ∷ node_mapping "ErrorSaveContext" (since 16)
    ∷ node_mapping "IdentifySystemCmd" always
    ∷ node_mapping "BaseBackupCmd" always
    ∷ node_mapping "CreateReplicationSlotCmd" always
    ∷ node_mapping "DropReplicationSlotCmd" always
    ∷ node_mapping "AlterReplicationSlotCmd" (since 17)
    ∷ node_mapping "StartReplicationCmd" always
    ∷ node_mapping "ReadReplicationSlotCmd" (since 15)
    ∷ node_mapping "TimeLineHistoryCmd" always
    ∷ node_mapping "UploadManifestCmd" (since 17)
    ∷ node_mapping "SupportRequestSimplify" always
    ∷ node_mapping "SupportRequestSimplifyAggref" (since 19)
    ∷ node_mapping "SupportRequestInlineInFrom" (since 19)
    ∷ node_mapping "SupportRequestSelectivity" always
    ∷ node_mapping "SupportRequestCost" always
    ∷ node_mapping "SupportRequestRows" always
    ∷ node_mapping "SupportRequestIndexCondition" always
    ∷ node_mapping "SupportRequestWFuncMonotonic" (since 15)
    ∷ node_mapping "SupportRequestOptimizeWindowClause" (since 17)
    ∷ node_mapping "SupportRequestModifyInPlace" (since 18)
    ∷ node_mapping "Integer" (since 15)
    ∷ node_mapping "Float" (since 15)
    ∷ node_mapping "Boolean" (since 15)
    ∷ node_mapping "String" (since 15)
    ∷ node_mapping "BitString" (since 15)
    ∷ node_mapping "ForeignKeyCacheInfo" always
    ∷ []
