-- ===== src/Node/Tables/Mapping3.antt =====
-- node_mapping_table.hpp, lines 245 to 365.
use cppgres.Common.{List, [], ◌∷◌}
use cppgres.Node.Rows.{Mapping, always, before, node_mapping, since}

unfoldable pub mapping_rows3 : List Mapping
mapping_rows3 =
    node_mapping "CreateOpClassStmt" always
    ∷ node_mapping "CreateOpClassItem" always
    ∷ node_mapping "CreateOpFamilyStmt" always
    ∷ node_mapping "AlterOpFamilyStmt" always
    ∷ node_mapping "DropStmt" always
    ∷ node_mapping "TruncateStmt" always
    ∷ node_mapping "CommentStmt" always
    ∷ node_mapping "SecLabelStmt" always
    ∷ node_mapping "DeclareCursorStmt" always
    ∷ node_mapping "ClosePortalStmt" always
    ∷ node_mapping "FetchStmt" always
    ∷ node_mapping "IndexStmt" always
    ∷ node_mapping "CreateStatsStmt" always
    ∷ node_mapping "StatsElem" (since 14)
    ∷ node_mapping "AlterStatsStmt" always
    ∷ node_mapping "CreateFunctionStmt" always
    ∷ node_mapping "FunctionParameter" always
    ∷ node_mapping "AlterFunctionStmt" always
    ∷ node_mapping "DoStmt" always
    ∷ node_mapping "InlineCodeBlock" always
    ∷ node_mapping "CallStmt" always
    ∷ node_mapping "CallContext" always
    ∷ node_mapping "RenameStmt" always
    ∷ node_mapping "AlterObjectDependsStmt" always
    ∷ node_mapping "AlterObjectSchemaStmt" always
    ∷ node_mapping "AlterOwnerStmt" always
    ∷ node_mapping "AlterOperatorStmt" always
    ∷ node_mapping "AlterTypeStmt" always
    ∷ node_mapping "RuleStmt" always
    ∷ node_mapping "NotifyStmt" always
    ∷ node_mapping "ListenStmt" always
    ∷ node_mapping "UnlistenStmt" always
    ∷ node_mapping "TransactionStmt" always
    ∷ node_mapping "CompositeTypeStmt" always
    ∷ node_mapping "CreateEnumStmt" always
    ∷ node_mapping "CreateRangeStmt" always
    ∷ node_mapping "AlterEnumStmt" always
    ∷ node_mapping "ViewStmt" always
    ∷ node_mapping "LoadStmt" always
    ∷ node_mapping "CreatedbStmt" always
    ∷ node_mapping "AlterDatabaseStmt" always
    ∷ node_mapping "AlterDatabaseRefreshCollStmt" (since 15)
    ∷ node_mapping "AlterDatabaseSetStmt" always
    ∷ node_mapping "DropdbStmt" always
    ∷ node_mapping "AlterSystemStmt" always
    ∷ node_mapping "ClusterStmt" (before 19)
    ∷ node_mapping "RepackStmt" (since 19)
    ∷ node_mapping "VacuumStmt" always
    ∷ node_mapping "VacuumRelation" always
    ∷ node_mapping "ExplainStmt" always
    ∷ node_mapping "CreateTableAsStmt" always
    ∷ node_mapping "RefreshMatViewStmt" always
    ∷ node_mapping "CheckPointStmt" always
    ∷ node_mapping "DiscardStmt" always
    ∷ node_mapping "LockStmt" always
    ∷ node_mapping "ConstraintsSetStmt" always
    ∷ node_mapping "ReindexStmt" always
    ∷ node_mapping "CreateConversionStmt" always
    ∷ node_mapping "CreateCastStmt" always
    ∷ node_mapping "CreatePropGraphStmt" (since 19)
    ∷ node_mapping "PropGraphVertex" (since 19)
    ∷ node_mapping "PropGraphEdge" (since 19)
    ∷ node_mapping "PropGraphLabelAndProperties" (since 19)
    ∷ node_mapping "PropGraphProperties" (since 19)
    ∷ node_mapping "AlterPropGraphStmt" (since 19)
    ∷ node_mapping "CreateTransformStmt" always
    ∷ node_mapping "PrepareStmt" always
    ∷ node_mapping "ExecuteStmt" always
    ∷ node_mapping "DeallocateStmt" always
    ∷ node_mapping "DropOwnedStmt" always
    ∷ node_mapping "ReassignOwnedStmt" always
    ∷ node_mapping "AlterTSDictionaryStmt" always
    ∷ node_mapping "AlterTSConfigurationStmt" always
    ∷ node_mapping "PublicationTable" (since 15)
    ∷ node_mapping "PublicationObjSpec" (since 15)
    ∷ node_mapping "PublicationAllObjSpec" (since 19)
    ∷ node_mapping "CreatePublicationStmt" always
    ∷ node_mapping "AlterPublicationStmt" always
    ∷ node_mapping "CreateSubscriptionStmt" always
    ∷ node_mapping "AlterSubscriptionStmt" always
    ∷ node_mapping "DropSubscriptionStmt" always
    ∷ node_mapping "WaitStmt" (since 19)
    ∷ node_mapping "PlannerGlobal" always
    ∷ node_mapping "PlannerInfo" always
    ∷ node_mapping "RelOptInfo" always
    ∷ node_mapping "RelAggInfo" (since 19)
    ∷ node_mapping "IndexOptInfo" always
    ∷ node_mapping "ForeignKeyOptInfo" always
    ∷ node_mapping "StatisticExtInfo" always
    ∷ node_mapping "JoinDomain" (since 16)
    ∷ node_mapping "EquivalenceClass" always
    ∷ node_mapping "EquivalenceMember" always
    ∷ node_mapping "PathKey" always
    ∷ node_mapping "GroupByOrdering" (since 17)
    ∷ node_mapping "PathTarget" always
    ∷ node_mapping "ParamPathInfo" always
    ∷ node_mapping "Path" always
    ∷ node_mapping "IndexPath" always
    ∷ node_mapping "IndexClause" always
    ∷ node_mapping "BitmapHeapPath" always
    ∷ []
