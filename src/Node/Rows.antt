-- ===== src/Node/Rows.antt =====
-- The two macros of node.hpp that node_mapping_table.hpp and node_dispatch_table.hpp invoke, with the preprocessor condition that a line stands under.
use Prim.Native.String.{String}
use cppgres.Common.{ℕ, Bool, true, ◌||◌, leb, ltb, ◌==◌}

-- `#if PG_MAJORVERSION_NUM >= n`, `< n`, and the one condition that names version 17.
pub data Guard : Type 0 where
  always : Guard
  since : ℕ → Guard
  before : ℕ → Guard
  seventeen_or_since : ℕ → Guard

unfoldable pub holds : Guard → ℕ → Bool
holds always v = true
holds (since n) v = leb n v
holds (before n) v = ltb v n
holds (seventeen_or_since n) v = v == 17 || leb n v

-- A line of node_mapping_table.hpp.
pub data Mapping : Type 0 where
  node_mapping : String → Guard → Mapping
  node_mapping_no_node_traits : String → Guard → Mapping

-- A line of node_dispatch_table.hpp.
pub data Dispatch : Type 0 where
  node_dispatch : String → Guard → Dispatch
