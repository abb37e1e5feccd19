-- ===== src/Node/Tables/Dispatch5.antt =====
-- node_dispatch_table.hpp, lines 487 to 614.
use cppgres.Common.{List, [], ◌∷◌}
use cppgres.Node.Rows.{Dispatch, always, before, node_dispatch, since}

unfoldable pub dispatch_rows5 : List Dispatch
dispatch_rows5 =
    node_dispatch "ElidedNode" (since 19)
    ∷ node_dispatch "ExprState" always
    ∷ node_dispatch "IndexInfo" always
    ∷ node_dispatch "ExprContext" always
    ∷ node_dispatch "ReturnSetInfo" always
    ∷ node_dispatch "ProjectionInfo" always
    ∷ node_dispatch "JunkFilter" always
    ∷ node_dispatch "OnConflictSetState" (before 19)
    ∷ node_dispatch "OnConflictActionState" (since 19)
    ∷ node_dispatch "MergeActionState" (since 15)
    ∷ node_dispatch "ForPortionOfState" (since 19)
    ∷ node_dispatch "ResultRelInfo" always
    ∷ node_dispatch "EState" always
    ∷ node_dispatch "WindowFuncExprState" always
    ∷ node_dispatch "SetExprState" always
    ∷ node_dispatch "SubPlanState" always
    ∷ node_dispatch "DomainConstraintState" always
    ∷ node_dispatch "ResultState" always
    ∷ node_dispatch "ProjectSetState" always
    ∷ node_dispatch "ModifyTableState" always
    ∷ node_dispatch "AppendState" always
    ∷ node_dispatch "MergeAppendState" always
    ∷ node_dispatch "RecursiveUnionState" always
    ∷ node_dispatch "BitmapAndState" always
    ∷ node_dispatch "BitmapOrState" always
    ∷ node_dispatch "ScanState" always
    ∷ node_dispatch "SeqScanState" always
    ∷ node_dispatch "SampleScanState" always
    ∷ node_dispatch "IndexScanState" always
    ∷ node_dispatch "IndexOnlyScanState" always
    ∷ node_dispatch "BitmapIndexScanState" always
    ∷ node_dispatch "BitmapHeapScanState" always
    ∷ node_dispatch "TidScanState" always
    ∷ node_dispatch "TidRangeScanState" (since 14)
    ∷ node_dispatch "SubqueryScanState" always
    ∷ node_dispatch "FunctionScanState" always
    ∷ node_dispatch "ValuesScanState" always
    ∷ node_dispatch "TableFuncScanState" always
    ∷ node_dispatch "CteScanState" always
    ∷ node_dispatch "NamedTuplestoreScanState" always
    ∷ node_dispatch "WorkTableScanState" always
    ∷ node_dispatch "ForeignScanState" always
    ∷ node_dispatch "CustomScanState" always
    ∷ node_dispatch "JoinState" always
    ∷ node_dispatch "NestLoopState" always
    ∷ node_dispatch "MergeJoinState" always
    ∷ node_dispatch "HashJoinState" always
    ∷ node_dispatch "MaterialState" always
    ∷ node_dispatch "MemoizeState" (since 14)
    ∷ node_dispatch "SortState" always
    ∷ node_dispatch "IncrementalSortState" always
    ∷ node_dispatch "GroupState" always
    ∷ node_dispatch "AggState" always
    ∷ node_dispatch "WindowAggState" always
    ∷ node_dispatch "UniqueState" always
    ∷ node_dispatch "GatherState" always
    ∷ node_dispatch "GatherMergeState" always
    ∷ node_dispatch "HashState" always
    ∷ node_dispatch "SetOpState" always
    ∷ node_dispatch "LockRowsState" always
    ∷ node_dispatch "LimitState" always
    ∷ node_dispatch "IndexAmRoutine" always
    ∷ node_dispatch "TableAmRoutine" always
    ∷ node_dispatch "TsmRoutine" always
    ∷ node_dispatch "EventTriggerData" always
    ∷ node_dispatch "TriggerData" always
    ∷ node_dispatch "TupleTableSlot" always
    ∷ node_dispatch "FdwRoutine" always
    ∷ node_dispatch "Bitmapset" (since 16)
    ∷ node_dispatch "ExtensibleNode" always
    ∷ node_dispatch "ErrorSaveContext" (since 16)
    ∷ node_dispatch "IdentifySystemCmd" always
    ∷ node_dispatch "BaseBackupCmd" always
    ∷ node_dispatch "CreateReplicationSlotCmd" always
    ∷ node_dispatch "DropReplicationSlotCmd" always
    ∷ node_dispatch "AlterReplicationSlotCmd" (since 17)
    ∷ node_dispatch "StartReplicationCmd" always
    ∷ node_dispatch "ReadReplicationSlotCmd" (since 15)
    ∷ node_dispatch "TimeLineHistoryCmd" always
    ∷ node_dispatch "UploadManifestCmd" (since 17)
    ∷ node_dispatch "SupportRequestSimplify" always
    ∷ node_dispatch "SupportRequestSimplifyAggref" (since 19)
    ∷ node_dispatch "SupportRequestInlineInFrom" (since 19)
    ∷ node_dispatch "SupportRequestSelectivity" always
    ∷ node_dispatch "SupportRequestCost" always
    ∷ node_dispatch "SupportRequestRows" always
    ∷ node_dispatch "SupportRequestIndexCondition" always
    ∷ node_dispatch "SupportRequestWFuncMonotonic" (since 15)
    ∷ node_dispatch "SupportRequestOptimizeWindowClause" (since 17)
    ∷ node_dispatch "SupportRequestModifyInPlace" (since 18)
    ∷ node_dispatch "Integer" (since 15)
    ∷ node_dispatch "Float" (since 15)
    ∷ node_dispatch "Boolean" (since 15)
    ∷ node_dispatch "String" (since 15)
    ∷ node_dispatch "BitString" (since 15)
    ∷ node_dispatch "ForeignKeyCacheInfo" always
    ∷ []
