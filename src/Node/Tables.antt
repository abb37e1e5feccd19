-- ===== src/Node/Tables.antt =====
-- node_mapping_table.hpp and node_dispatch_table.hpp whole, from the parts in the children.
mod Mapping1
mod Mapping2
mod Mapping3
mod Mapping4
mod Mapping5
mod Dispatch1
mod Dispatch2
mod Dispatch3
mod Dispatch4
mod Dispatch5
use cppgres.Common.{List, ◌++◌}
use cppgres.Node.Rows.{Mapping, Dispatch}
use Mapping1.{mapping_rows1}
use Mapping2.{mapping_rows2}
use Mapping3.{mapping_rows3}
use Mapping4.{mapping_rows4}
use Mapping5.{mapping_rows5}
use Dispatch1.{dispatch_rows1}
use Dispatch2.{dispatch_rows2}
use Dispatch3.{dispatch_rows3}
use Dispatch4.{dispatch_rows4}
use Dispatch5.{dispatch_rows5}

unfoldable pub mapping_table : List Mapping
unfolding mapping_rows1 mapping_rows2 mapping_rows3 mapping_rows4 mapping_rows5
mapping_table =
    mapping_rows1 ++ (mapping_rows2 ++ (mapping_rows3 ++ (mapping_rows4 ++ mapping_rows5)))

unfoldable pub dispatch_table : List Dispatch
unfolding dispatch_rows1 dispatch_rows2 dispatch_rows3 dispatch_rows4 dispatch_rows5
dispatch_table =
    dispatch_rows1 ++ (dispatch_rows2 ++ (dispatch_rows3 ++ (dispatch_rows4 ++ dispatch_rows5)))
