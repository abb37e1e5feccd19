-- ===== src/Node/Tables/Dispatch1.antt =====
-- node_dispatch_table.hpp, lines 1 to 116.
use cppgres.Common.{List, [], ◌∷◌}
use cppgres.Node.Rows.{Dispatch, always, node_dispatch, since}

unfoldable pub dispatch_rows1 : List Dispatch
dispatch_rows1 =
    node_dispatch "List" always
    ∷ node_dispatch "Alias" always
    ∷ node_dispatch "RangeVar" always
    ∷ node_dispatch "TableFunc" always
    ∷ node_dispatch "IntoClause" always
    ∷ node_dispatch "Var" always
    ∷ node_dispatch "Const" always
    ∷ node_dispatch "Param" always
    ∷ node_dispatch "Aggref" always
    ∷ node_dispatch "GroupingFunc" always
    ∷ node_dispatch "WindowFunc" always
    ∷ node_dispatch "WindowFuncRunCondition" (since 17)
    ∷ node_dispatch "MergeSupportFunc" (since 17)
    ∷ node_dispatch "SubscriptingRef" always
    ∷ node_dispatch "FuncExpr" always
    ∷ node_dispatch "NamedArgExpr" always
    ∷ node_dispatch "OpExpr" always
    ∷ node_dispatch "DistinctExpr" always
    ∷ node_dispatch "NullIfExpr" always
    ∷ node_dispatch "ScalarArrayOpExpr" always
    ∷ node_dispatch "BoolExpr" always
    ∷ node_dispatch "SubLink" always
    ∷ node_dispatch "SubPlan" always
    ∷ node_dispatch "AlternativeSubPlan" always
    ∷ node_dispatch "FieldSelect" always
    ∷ node_dispatch "FieldStore" always
    ∷ node_dispatch "RelabelType" always
    ∷ node_dispatch "CoerceViaIO" always
    ∷ node_dispatch "ArrayCoerceExpr" always
    ∷ node_dispatch "ConvertRowtypeExpr" always
    ∷ node_dispatch "CollateExpr" always
    ∷ node_dispatch "CaseExpr" always
    ∷ node_dispatch "CaseWhen" always
    ∷ node_dispatch "CaseTestExpr" always
    ∷ node_dispatch "ArrayExpr" always
    ∷ node_dispatch "RowExpr" always
    ∷ node_dispatch "RowCompareExpr" always
    ∷ node_dispatch "CoalesceExpr" always
    ∷ node_dispatch "MinMaxExpr" always
    ∷ node_dispatch "SQLValueFunction" always
    ∷ node_dispatch "XmlExpr" always
    ∷ node_dispatch "JsonFormat" (since 16)
    ∷ node_dispatch "JsonReturning" (since 16)
    ∷ node_dispatch "JsonValueExpr" (since 16)
    ∷ node_dispatch "JsonConstructorExpr" (since 16)
    ∷ node_dispatch "JsonIsPredicate" (since 16)
    ∷ node_dispatch "JsonBehavior" (since 17)
    ∷ node_dispatch "JsonExpr" (since 17)
    ∷ node_dispatch "JsonTablePath" (since 17)
    ∷ node_dispatch "JsonTablePathScan" (since 17)
    ∷ node_dispatch "JsonTableSiblingJoin" (since 17)
    ∷ node_dispatch "NullTest" always
    ∷ node_dispatch "BooleanTest" always
    ∷ node_dispatch "MergeAction" (since 15)
    ∷ node_dispatch "CoerceToDomain" always
    ∷ node_dispatch "CoerceToDomainValue" always
    ∷ node_dispatch "SetToDefault" always
    ∷ node_dispatch "CurrentOfExpr" always
    ∷ node_dispatch "NextValueExpr" always
    ∷ node_dispatch "InferenceElem" always
    ∷ node_dispatch "ReturningExpr" (since 18)
    ∷ node_dispatch "GraphLabelRef" (since 19)
    ∷ node_dispatch "GraphPropertyRef" (since 19)
    ∷ node_dispatch "TargetEntry" always
    ∷ node_dispatch "RangeTblRef" always
    ∷ node_dispatch "JoinExpr" always
    ∷ node_dispatch "FromExpr" always
    ∷ node_dispatch "OnConflictExpr" always
    ∷ node_dispatch "ForPortionOfExpr" (since 19)
    ∷ node_dispatch "Query" always
    ∷ node_dispatch "TypeName" always
    ∷ node_dispatch "ColumnRef" always
    ∷ node_dispatch "ParamRef" always
    ∷ node_dispatch "A_Expr" always
    ∷ node_dispatch "A_Const" always
    ∷ node_dispatch "TypeCast" always
    ∷ node_dispatch "CollateClause" always
    ∷ node_dispatch "RoleSpec" always
    ∷ node_dispatch "FuncCall" always
    ∷ node_dispatch "A_Star" always
    ∷ node_dispatch "A_Indices" always
    ∷ node_dispatch "A_Indirection" always
    ∷ node_dispatch "A_ArrayExpr" always
    ∷ node_dispatch "ResTarget" always
    ∷ node_dispatch "MultiAssignRef" always
    ∷ node_dispatch "SortBy" always
    ∷ node_dispatch "WindowDef" always
    ∷ node_dispatch "RangeSubselect" always
    ∷ node_dispatch "RangeFunction" always
    ∷ node_dispatch "RangeTableFunc" always
    ∷ node_dispatch "RangeTableFuncCol" always
    ∷ node_dispatch "RangeGraphTable" (since 19)
    ∷ node_dispatch "RangeTableSample" always
    ∷ node_dispatch "ColumnDef" always
    ∷ node_dispatch "TableLikeClause" always
    ∷ node_dispatch "IndexElem" always
    ∷ node_dispatch "DefElem" always
    ∷ node_dispatch "LockingClause" always
    ∷ node_dispatch "XmlSerialize" always
    ∷ node_dispatch "PartitionElem" always
    ∷ []
