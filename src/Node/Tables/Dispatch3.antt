-- ===== src/Node/Tables/Dispatch3.antt =====
-- node_dispatch_table.hpp, lines 245 to 365.
use cppgres.Common.{List, [], ◌∷◌}
use cppgres.Node.Rows.{Dispatch, always, before, node_dispatch, since}

unfoldable pub dispatch_rows3 : List Dispatch
dispatch_rows3 =
    node_dispatch "CreateOpClassStmt" always
    ∷ node_dispatch "CreateOpClassItem" always
    ∷ node_dispatch "CreateOpFamilyStmt" always
    ∷ node_dispatch "AlterOpFamilyStmt" always
    ∷ node_dispatch "DropStmt" always
    ∷ node_dispatch "TruncateStmt" always
    ∷ node_dispatch "CommentStmt" always
    ∷ node_dispatch "SecLabelStmt" always
    ∷ node_dispatch "DeclareCursorStmt" always
    ∷ node_dispatch "ClosePortalStmt" always
    ∷ node_dispatch "FetchStmt" always
    ∷ node_dispatch "IndexStmt" always
    ∷ node_dispatch "CreateStatsStmt" always
    ∷ node_dispatch "StatsElem" (since 14)
    ∷ node_dispatch "AlterStatsStmt" always
    ∷ node_dispatch "CreateFunctionStmt" always
    ∷ node_dispatch "FunctionParameter" always
    ∷ node_dispatch "AlterFunctionStmt" always
    ∷ node_dispatch "DoStmt" always
    ∷ node_dispatch "InlineCodeBlock" always
    ∷ node_dispatch "CallStmt" always
    ∷ node_dispatch "CallContext" always
    ∷ node_dispatch "RenameStmt" always
    ∷ node_dispatch "AlterObjectDependsStmt" always
    ∷ node_dispatch "AlterObjectSchemaStmt" always
    ∷ node_dispatch "AlterOwnerStmt" always
    ∷ node_dispatch "AlterOperatorStmt" always
    ∷ node_dispatch "AlterTypeStmt" always
    ∷ node_dispatch "RuleStmt" always
    ∷ node_dispatch "NotifyStmt" always
    ∷ node_dispatch "ListenStmt" always
    ∷ node_dispatch "UnlistenStmt" always
    ∷ node_dispatch "TransactionStmt" always
    ∷ node_dispatch "CompositeTypeStmt" always
    ∷ node_dispatch "CreateEnumStmt" always
    ∷ node_dispatch "CreateRangeStmt" always
    ∷ node_dispatch "AlterEnumStmt" always
    ∷ node_dispatch "ViewStmt" always
    ∷ node_dispatch "LoadStmt" always
    ∷ node_dispatch "CreatedbStmt" always
    ∷ node_dispatch "AlterDatabaseStmt" always
    ∷ node_dispatch "AlterDatabaseRefreshCollStmt" (since 15)
    ∷ node_dispatch "AlterDatabaseSetStmt" always
    ∷ node_dispatch "DropdbStmt" always
    ∷ node_dispatch "AlterSystemStmt" always
    ∷ node_dispatch "ClusterStmt" (before 19)
    ∷ node_dispatch "RepackStmt" (since 19)
    ∷ node_dispatch "VacuumStmt" always
    ∷ node_dispatch "VacuumRelation" always
    ∷ node_dispatch "ExplainStmt" always
    ∷ node_dispatch "CreateTableAsStmt" always
    ∷ node_dispatch "RefreshMatViewStmt" always
    ∷ node_dispatch "CheckPointStmt" always
    ∷ node_dispatch "DiscardStmt" always
    ∷ node_dispatch "LockStmt" always
    ∷ node_dispatch "ConstraintsSetStmt" always
    ∷ node_dispatch "ReindexStmt" always
    ∷ node_dispatch "CreateConversionStmt" always
    ∷ node_dispatch "CreateCastStmt" always
    ∷ node_dispatch "CreatePropGraphStmt" (since 19)
    ∷ node_dispatch "PropGraphVertex" (since 19)
    ∷ node_dispatch "PropGraphEdge" (since 19)
    ∷ node_dispatch "PropGraphLabelAndProperties" (since 19)
    ∷ node_dispatch "PropGraphProperties" (since 19)
    ∷ node_dispatch "AlterPropGraphStmt" (since 19)
    ∷ node_dispatch "CreateTransformStmt" always
    ∷ node_dispatch "PrepareStmt" always
    ∷ node_dispatch "ExecuteStmt" always
    ∷ node_dispatch "DeallocateStmt" always
    ∷ node_dispatch "DropOwnedStmt" always
    ∷ node_dispatch "ReassignOwnedStmt" always
    ∷ node_dispatch "AlterTSDictionaryStmt" always
    ∷ node_dispatch "AlterTSConfigurationStmt" always
    ∷ node_dispatch "PublicationTable" (since 15)
    ∷ node_dispatch "PublicationObjSpec" (since 15)
    ∷ node_dispatch "PublicationAllObjSpec" (since 19)
    ∷ node_dispatch "CreatePublicationStmt" always
    ∷ node_dispatch "AlterPublicationStmt" always
    ∷ node_dispatch "CreateSubscriptionStmt" always
    ∷ node_dispatch "AlterSubscriptionStmt" always
    ∷ node_dispatch "DropSubscriptionStmt" always
    ∷ node_dispatch "WaitStmt" (since 19)
    ∷ node_dispatch "PlannerGlobal" always
    ∷ node_dispatch "PlannerInfo" always
    ∷ node_dispatch "RelOptInfo" always
    ∷ node_dispatch "RelAggInfo" (since 19)
    ∷ node_dispatch "IndexOptInfo" always
    ∷ node_dispatch "ForeignKeyOptInfo" always
    ∷ node_dispatch "StatisticExtInfo" always
    ∷ node_dispatch "JoinDomain" (since 16)
    ∷ node_dispatch "EquivalenceClass" always
    ∷ node_dispatch "EquivalenceMember" always
    ∷ node_dispatch "PathKey" always
    ∷ node_dispatch "GroupByOrdering" (since 17)
    ∷ node_dispatch "PathTarget" always
    ∷ node_dispatch "ParamPathInfo" always
    ∷ node_dispatch "Path" always
    ∷ node_dispatch "IndexPath" always
    ∷ node_dispatch "IndexClause" always
    ∷ node_dispatch "BitmapHeapPath" always
    ∷ []
