-- ===== src/Node/Tables/Mapping2.antt =====
-- node_mapping_table.hpp, lines 118 to 244.
use cppgres.Common.{List, [], ◌∷◌}
use cppgres.Node.Rows.{Mapping, always, node_mapping, seventeen_or_since, since}

unfoldable pub mapping_rows2 : List Mapping
mapping_rows2 =
    node_mapping "SinglePartitionSpec" (seventeen_or_since 19)
    ∷ node_mapping "PartitionSpec" always
    ∷ node_mapping "PartitionBoundSpec" always
    ∷ node_mapping "PartitionRangeDatum" always
    ∷ node_mapping "PartitionCmd" always
    ∷ node_mapping "GraphPattern" (since 19)
    ∷ node_mapping "GraphElementPattern" (since 19)
    ∷ node_mapping "RangeTblEntry" always
    ∷ node_mapping "RTEPermissionInfo" (since 16)
    ∷ node_mapping "RangeTblFunction" always
    ∷ node_mapping "TableSampleClause" always
    ∷ node_mapping "WithCheckOption" always
    ∷ node_mapping "SortGroupClause" always
    ∷ node_mapping "GroupingSet" always
    ∷ node_mapping "WindowClause" always
    ∷ node_mapping "RowMarkClause" always
    ∷ node_mapping "ForPortionOfClause" (since 19)
    ∷ node_mapping "WithClause" always
    ∷ node_mapping "InferClause" always
    ∷ node_mapping "OnConflictClause" always
    ∷ node_mapping "CTESearchClause" (since 14)
    ∷ node_mapping "CTECycleClause" (since 14)
    ∷ node_mapping "CommonTableExpr" always
    ∷ node_mapping "MergeWhenClause" (since 15)
    ∷ node_mapping "ReturningOption" (since 18)
    ∷ node_mapping "ReturningClause" (since 18)
    ∷ node_mapping "TriggerTransition" always
    ∷ node_mapping "JsonOutput" (since 16)
    ∷ node_mapping "JsonArgument" (since 17)
    ∷ node_mapping "JsonFuncExpr" (since 17)
    ∷ node_mapping "JsonTablePathSpec" (since 17)
    ∷ node_mapping "JsonTable" (since 17)
    ∷ node_mapping "JsonTableColumn" (since 17)
    ∷ node_mapping "JsonKeyValue" (since 17)
    ∷ node_mapping "JsonParseExpr" (since 17)
    ∷ node_mapping "JsonScalarExpr" (since 17)
    ∷ node_mapping "JsonSerializeExpr" (since 17)
    ∷ node_mapping "JsonObjectConstructor" (since 16)
    ∷ node_mapping "JsonArrayConstructor" (since 16)
    ∷ node_mapping "JsonArrayQueryConstructor" (since 16)
    ∷ node_mapping "JsonAggConstructor" (since 16)
    ∷ node_mapping "JsonObjectAgg" (since 16)
    ∷ node_mapping "JsonArrayAgg" (since 16)
    ∷ node_mapping "RawStmt" always
    ∷ node_mapping "InsertStmt" always
    ∷ node_mapping "DeleteStmt" always
    ∷ node_mapping "UpdateStmt" always
    ∷ node_mapping "MergeStmt" (since 15)
    ∷ node_mapping "SelectStmt" always
    ∷ node_mapping "SetOperationStmt" always
    ∷ node_mapping "ReturnStmt" (since 14)
    ∷ node_mapping "PLAssignStmt" (since 14)
    ∷ node_mapping "CreateSchemaStmt" always
    ∷ node_mapping "AlterTableStmt" always
    ∷ node_mapping "AlterTableCmd" always
    ∷ node_mapping "ATAlterConstraint" (since 18)
    ∷ node_mapping "ReplicaIdentityStmt" always
    ∷ node_mapping "AlterCollationStmt" always
    ∷ node_mapping "AlterDomainStmt" always
    ∷ node_mapping "GrantStmt" always
    ∷ node_mapping "ObjectWithArgs" always
    ∷ node_mapping "AccessPriv" always
    ∷ node_mapping "GrantRoleStmt" always
    ∷ node_mapping "AlterDefaultPrivilegesStmt" always
    ∷ node_mapping "CopyStmt" always
    ∷ node_mapping "VariableSetStmt" always
    ∷ node_mapping "VariableShowStmt" always
    ∷ node_mapping "CreateStmt" always
    ∷ node_mapping "Constraint" always
    ∷ node_mapping "CreateTableSpaceStmt" always
    ∷ node_mapping "DropTableSpaceStmt" always
    ∷ node_mapping "AlterTableSpaceOptionsStmt" always
    ∷ node_mapping "AlterTableMoveAllStmt" always
    ∷ node_mapping "CreateExtensionStmt" always
    ∷ node_mapping "AlterExtensionStmt" always
    ∷ node_mapping "AlterExtensionContentsStmt" always
    ∷ node_mapping "CreateFdwStmt" always
    ∷ node_mapping "AlterFdwStmt" always
    ∷ node_mapping "CreateForeignServerStmt" always
    ∷ node_mapping "AlterForeignServerStmt" always
    ∷ node_mapping "CreateForeignTableStmt" always
    ∷ node_mapping "CreateUserMappingStmt" always
    ∷ node_mapping "AlterUserMappingStmt" always
    ∷ node_mapping "DropUserMappingStmt" always
    ∷ node_mapping "ImportForeignSchemaStmt" always
    ∷ node_mapping "CreatePolicyStmt" always
    ∷ node_mapping "AlterPolicyStmt" always
    ∷ node_mapping "CreateAmStmt" always
    ∷ node_mapping "CreateTrigStmt" always
    ∷ node_mapping "CreateEventTrigStmt" always
    ∷ node_mapping "AlterEventTrigStmt" always
    ∷ node_mapping "CreatePLangStmt" always
    ∷ node_mapping "CreateRoleStmt" always
    ∷ node_mapping "AlterRoleStmt" always
    ∷ node_mapping "AlterRoleSetStmt" always
    ∷ node_mapping "DropRoleStmt" always
    ∷ node_mapping "CreateSeqStmt" always
    ∷ node_mapping "AlterSeqStmt" always
    ∷ node_mapping "DefineStmt" always
    ∷ node_mapping "CreateDomainStmt" always
    ∷ []
