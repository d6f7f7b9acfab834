-- ===== src/Subset/Types.antt =====
-- The data of internal/db/postgres/subset: tables, references, edges and the condensed graph.
use greenmask.Common.{ℕ, Bool, List, Bytes}

-- toolkit.Table with the `SubsetConds` of entries.Table, the fields that the subset package reads.
pub record Table : Type 0 where
  pub schema : Bytes
  pub name : Bytes
  pub oid : ℕ
  pub primary_key : List Bytes
  pub subset_conds : List Bytes

-- toolkit.Reference, a foreign key that the database has, less `Idx`, which the package does not set.
pub record Reference : Type 0 where
  pub schema : Bytes
  pub name : Bytes
  pub referenced_keys : List Bytes
  pub ref_table_keys : List Bytes
  pub is_nullable : Bool

-- domains.ReferencedColumn
pub record ReferencedColumn : Type 0 where
  pub name : Bytes
  pub expression : Bytes

-- domains.Reference, a reference of the configuration.
pub record ConfigReference : Type 0 where
  pub schema : Bytes
  pub name : Bytes
  pub not_null : Bool
  pub columns : List ReferencedColumn
  pub polymorphic_exprs : List Bytes

-- domains.VirtualReference
pub record VirtualReference : Type 0 where
  pub schema : Bytes
  pub name : Bytes
  pub references : List ConfigReference

pub record Key : Type 0 where
  pub name : Bytes
  pub expression : Bytes

pub record TableLink : Type 0 where
  pub idx : ℕ
  pub table : Table
  pub keys : List Key
  pub polymorphic_exprs : List Bytes

pub record Edge : Type 0 where
  pub id : ℕ
  pub idx : ℕ
  pub is_nullable : Bool
  pub from : TableLink
  pub to : TableLink
