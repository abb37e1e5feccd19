-- ===== src/Node/Tables/Dispatch2.antt =====
-- node_dispatch_table.hpp, lines 118 to 244.
use cppgres.Common.{List, [], ◌∷◌}
use cppgres.Node.Rows.{Dispatch, always, node_dispatch, seventeen_or_since, since}

unfoldable pub dispatch_rows2 : List Dispatch
dispatch_rows2 =
    node_dispatch "SinglePartitionSpec" (seventeen_or_since 19)
    ∷ node_dispatch "PartitionSpec" always
    ∷ node_dispatch "PartitionBoundSpec" always
    ∷ node_dispatch "PartitionRangeDatum" always
    ∷ node_dispatch "PartitionCmd" always
    ∷ node_dispatch "GraphPattern" (since 19)
    ∷ node_dispatch "GraphElementPattern" (since 19)
    ∷ node_dispatch "RangeTblEntry" always
    ∷ node_dispatch "RTEPermissionInfo" (since 16)
    ∷ node_dispatch "RangeTblFunction" always
    ∷ node_dispatch "TableSampleClause" always
    ∷ node_dispatch "WithCheckOption" always
    ∷ node_dispatch "SortGroupClause" always
    ∷ node_dispatch "GroupingSet" always
    ∷ node_dispatch "WindowClause" always
    ∷ node_dispatch "RowMarkClause" always
    ∷ node_dispatch "ForPortionOfClause" (since 19)
    ∷ node_dispatch "WithClause" always
    ∷ node_dispatch "InferClause" always
    ∷ node_dispatch "OnConflictClause" always
    ∷ node_dispatch "CTESearchClause" (since 14)
    ∷ node_dispatch "CTECycleClause" (since 14)
    ∷ node_dispatch "CommonTableExpr" always
    ∷ node_dispatch "MergeWhenClause" (since 15)
    ∷ node_dispatch "ReturningOption" (since 18)
    ∷ node_dispatch "ReturningClause" (since 18)
    ∷ node_dispatch "TriggerTransition" always
    ∷ node_dispatch "JsonOutput" (since 16)
    ∷ node_dispatch "JsonArgument" (since 17)
    ∷ node_dispatch "JsonFuncExpr" (since 17)
    ∷ node_dispatch "JsonTablePathSpec" (since 17)
    ∷ node_dispatch "JsonTable" (since 17)
    ∷ node_dispatch "JsonTableColumn" (since 17)
    ∷ node_dispatch "JsonKeyValue" (since 17)
    ∷ node_dispatch "JsonParseExpr" (since 17)
    ∷ node_dispatch "JsonScalarExpr" (since 17)
    ∷ node_dispatch "JsonSerializeExpr" (since 17)
    ∷ node_dispatch "JsonObjectConstructor" (since 16)
    ∷ node_dispatch "JsonArrayConstructor" (since 16)
    ∷ node_dispatch "JsonArrayQueryConstructor" (since 16)
    ∷ node_dispatch "JsonAggConstructor" (since 16)
    ∷ node_dispatch "JsonObjectAgg" (since 16)
    ∷ node_dispatch "JsonArrayAgg" (since 16)
    ∷ node_dispatch "RawStmt" always
    ∷ node_dispatch "InsertStmt" always
    ∷ node_dispatch "DeleteStmt" always
    ∷ node_dispatch "UpdateStmt" always
    ∷ node_dispatch "MergeStmt" (since 15)
    ∷ node_dispatch "SelectStmt" always
    ∷ node_dispatch "SetOperationStmt" always
    ∷ node_dispatch "ReturnStmt" (since 14)
    ∷ node_dispatch "PLAssignStmt" (since 14)
    ∷ node_dispatch "CreateSchemaStmt" always
    ∷ node_dispatch "AlterTableStmt" always
    ∷ node_dispatch "AlterTableCmd" always
    ∷ node_dispatch "ATAlterConstraint" (since 18)
    ∷ node_dispatch "ReplicaIdentityStmt" always
    ∷ node_dispatch "AlterCollationStmt" always
    ∷ node_dispatch "AlterDomainStmt" always
    ∷ node_dispatch "GrantStmt" always
    ∷ node_dispatch "ObjectWithArgs" always
    ∷ node_dispatch "AccessPriv" always
    ∷ node_dispatch "GrantRoleStmt" always
    ∷ node_dispatch "AlterDefaultPrivilegesStmt" always
    ∷ node_dispatch "CopyStmt" always
    ∷ node_dispatch "VariableSetStmt" always
    ∷ node_dispatch "VariableShowStmt" always
    ∷ node_dispatch "CreateStmt" always
    ∷ node_dispatch "Constraint" always
    ∷ node_dispatch "CreateTableSpaceStmt" always
    ∷ node_dispatch "DropTableSpaceStmt" always
    ∷ node_dispatch "AlterTableSpaceOptionsStmt" always
    ∷ node_dispatch "AlterTableMoveAllStmt" always
    ∷ node_dispatch "CreateExtensionStmt" always
    ∷ node_dispatch "AlterExtensionStmt" always
    ∷ node_dispatch "AlterExtensionContentsStmt" always
    ∷ node_dispatch "CreateFdwStmt" always
    ∷ node_dispatch "AlterFdwStmt" always
    ∷ node_dispatch "CreateForeignServerStmt" always
    ∷ node_dispatch "AlterForeignServerStmt" always
    ∷ node_dispatch "CreateForeignTableStmt" always
    ∷ node_dispatch "CreateUserMappingStmt" always
    ∷ node_dispatch "AlterUserMappingStmt" always
    ∷ node_dispatch "DropUserMappingStmt" always
    ∷ node_dispatch "ImportForeignSchemaStmt" always
    ∷ node_dispatch "CreatePolicyStmt" always
    ∷ node_dispatch "AlterPolicyStmt" always
    ∷ node_dispatch "CreateAmStmt" always
    ∷ node_dispatch "CreateTrigStmt" always
    ∷ node_dispatch "CreateEventTrigStmt" always
    ∷ node_dispatch "AlterEventTrigStmt" always
    ∷ node_dispatch "CreatePLangStmt" always
    ∷ node_dispatch "CreateRoleStmt" always
    ∷ node_dispatch "AlterRoleStmt" always
    ∷ node_dispatch "AlterRoleSetStmt" always
    ∷ node_dispatch "DropRoleStmt" always
    ∷ node_dispatch "CreateSeqStmt" always
    ∷ node_dispatch "AlterSeqStmt" always
    ∷ node_dispatch "DefineStmt" always
    ∷ node_dispatch "CreateDomainStmt" always
    ∷ []
