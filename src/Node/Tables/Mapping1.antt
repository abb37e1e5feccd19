-- ===== src/Node/Tables/Mapping1.antt =====
-- node_mapping_table.hpp, lines 1 to 116.
use cppgres.Common.{List, [], ◌∷◌}
use cppgres.Node.Rows.{Mapping, always, node_mapping, node_mapping_no_node_traits, since}

unfoldable pub mapping_rows1 : List Mapping
mapping_rows1 =
    node_mapping "List" always
    ∷ node_mapping "Alias" always
    ∷ node_mapping "RangeVar" always
    ∷ node_mapping "TableFunc" always
    ∷ node_mapping "IntoClause" always
    ∷ node_mapping "Var" always
    ∷ node_mapping "Const" always
    ∷ node_mapping "Param" always
    ∷ node_mapping "Aggref" always
    ∷ node_mapping "GroupingFunc" always
    ∷ node_mapping "WindowFunc" always
    ∷ node_mapping "WindowFuncRunCondition" (since 17)
    ∷ node_mapping "MergeSupportFunc" (since 17)
    ∷ node_mapping "SubscriptingRef" always
    ∷ node_mapping "FuncExpr" always
    ∷ node_mapping "NamedArgExpr" always
    ∷ node_mapping "OpExpr" always
    ∷ node_mapping_no_node_traits "DistinctExpr" always
    ∷ node_mapping_no_node_traits "NullIfExpr" always
    ∷ node_mapping "ScalarArrayOpExpr" always
    ∷ node_mapping "BoolExpr" always
    ∷ node_mapping "SubLink" always
    ∷ node_mapping "SubPlan" always
    ∷ node_mapping "AlternativeSubPlan" always
    ∷ node_mapping "FieldSelect" always
    ∷ node_mapping "FieldStore" always
    ∷ node_mapping "RelabelType" always
    ∷ node_mapping "CoerceViaIO" always
    ∷ node_mapping "ArrayCoerceExpr" always
    ∷ node_mapping "ConvertRowtypeExpr" always
    ∷ node_mapping "CollateExpr" always
    ∷ node_mapping "CaseExpr" always
    ∷ node_mapping "CaseWhen" always
    ∷ node_mapping "CaseTestExpr" always
    ∷ node_mapping "ArrayExpr" always
    ∷ node_mapping "RowExpr" always
    ∷ node_mapping "RowCompareExpr" always
    ∷ node_mapping "CoalesceExpr" always
    ∷ node_mapping "MinMaxExpr" always
    ∷ node_mapping "SQLValueFunction" always
    ∷ node_mapping "XmlExpr" always
    ∷ node_mapping "JsonFormat" (since 16)
    ∷ node_mapping "JsonReturning" (since 16)
    ∷ node_mapping "JsonValueExpr" (since 16)
    ∷ node_mapping "JsonConstructorExpr" (since 16)
    ∷ node_mapping "JsonIsPredicate" (since 16)
    ∷ node_mapping "JsonBehavior" (since 17)
    ∷ node_mapping "JsonExpr" (since 17)
    ∷ node_mapping "JsonTablePath" (since 17)
    ∷ node_mapping "JsonTablePathScan" (since 17)
    ∷ node_mapping "JsonTableSiblingJoin" (since 17)
    ∷ node_mapping "NullTest" always
    ∷ node_mapping "BooleanTest" always
    ∷ node_mapping "MergeAction" (since 15)
    ∷ node_mapping "CoerceToDomain" always
    ∷ node_mapping "CoerceToDomainValue" always
    ∷ node_mapping "SetToDefault" always
    ∷ node_mapping "CurrentOfExpr" always
    ∷ node_mapping "NextValueExpr" always
    ∷ node_mapping "InferenceElem" always
    ∷ node_mapping "ReturningExpr" (since 18)
    ∷ node_mapping "GraphLabelRef" (since 19)
    ∷ node_mapping "GraphPropertyRef" (since 19)
    ∷ node_mapping "TargetEntry" always
    ∷ node_mapping "RangeTblRef" always
    ∷ node_mapping "JoinExpr" always
    ∷ node_mapping "FromExpr" always
    ∷ node_mapping "OnConflictExpr" always
    ∷ node_mapping "ForPortionOfExpr" (since 19)
    ∷ node_mapping "Query" always
    ∷ node_mapping "TypeName" always
    ∷ node_mapping "ColumnRef" always
    ∷ node_mapping "ParamRef" always
    ∷ node_mapping "A_Expr" always
    ∷ node_mapping "A_Const" always
    ∷ node_mapping "TypeCast" always
    ∷ node_mapping "CollateClause" always
    ∷ node_mapping "RoleSpec" always
    ∷ node_mapping "FuncCall" always
    ∷ node_mapping "A_Star" always
    ∷ node_mapping "A_Indices" always
    ∷ node_mapping "A_Indirection" always
    ∷ node_mapping "A_ArrayExpr" always
    ∷ node_mapping "ResTarget" always
    ∷ node_mapping "MultiAssignRef" always
    ∷ node_mapping "SortBy" always
    ∷ node_mapping "WindowDef" always
    ∷ node_mapping "RangeSubselect" always
    ∷ node_mapping "RangeFunction" always
    ∷ node_mapping "RangeTableFunc" always
    ∷ node_mapping "RangeTableFuncCol" always
    ∷ node_mapping "RangeGraphTable" (since 19)
    ∷ node_mapping "RangeTableSample" always
    ∷ node_mapping "ColumnDef" always
    ∷ node_mapping "TableLikeClause" always
    ∷ node_mapping "IndexElem" always
    ∷ node_mapping "DefElem" always
    ∷ node_mapping "LockingClause" always
    ∷ node_mapping "XmlSerialize" always
    ∷ node_mapping "PartitionElem" always
    ∷ []
