-- ===== src/Subset.antt =====
-- internal/db/postgres/subset: the graph of the tables and its strongly connected components.
pub mod Reach
pub mod Dfs
pub mod Scc
pub mod Types
pub mod Build
pub mod Component
pub mod Condense
pub mod Sorted
mod Tests
