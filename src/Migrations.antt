-- ===== src/Migrations.antt =====
-- Migrations as lists of schema operations, which Alembic runs in one transaction: none is a
-- failure, which leaves the schema as it was. Creating a table creates its enum types; dropping it
-- leaves them.
pub mod CoreTables
pub mod WorkTables
pub mod Core
pub mod Undo
pub mod RoundTrip
mod Tests
use Prim.Native.String.{String}
use text.Mathlib.Text.{◌==◌ as str_eq}
use multi_tenant_saas.Base.{
  ℕ, Bool, true, false, ◌&&◌, ◌||◌, not, Option, none, some, List, [], ◌∷◌, ◌++◌, if◌then◌else◌,
  filter, any,
}

pub data ColumnType : Type 0 where
  uuid_type boolean_type timestamp_type text_type integer_type big_integer_type json_type :
      ColumnType
  string_type : ℕ → ColumnType
  enum_type : String → List String → ColumnType

-- A column with its name and whether it is nullable.
pub data Column : Type 0 where
  column : String → ColumnType → Bool → Column

-- The column, the table that it refers to by its id, and `ondelete`.
pub data ForeignKey : Type 0 where
  foreign_key : String → String → String → ForeignKey

pub data UniqueConstraint : Type 0 where
  unique_constraint : String → List String → UniqueConstraint

-- The primary key is the column `id`.
pub record TableDefinition : Type 0 where
  pub name : String
  pub columns : List Column
  pub foreign_keys : List ForeignKey
  pub unique_constraints : List UniqueConstraint

-- The name, the table, the columns and whether the index is unique.
pub data Index : Type 0 where
  index : String → String → List String → Bool → Index

pub data Operation : Type 0 where
  create_table : TableDefinition → Operation
  create_index : Index → Operation
  drop_index : (name : String) → (table_name : String) → Operation
  drop_table : (name : String) → Operation

pub record Schema : Type 0 where
  pub tables : List TableDefinition
  pub indexes : List Index
  pub enums : List String

abbrev pub is_table : String → TableDefinition → Bool
is_table name t = str_eq t.name name

abbrev pub is_index : String → Index → Bool
is_index name (index n _ _ _) = str_eq n name

abbrev pub index_on : String → Index → Bool
index_on table_name (index _ t _ _) = str_eq t table_name

abbrev pub refers_to : String → ForeignKey → Bool
refers_to table_name (foreign_key _ t _) = str_eq t table_name

abbrev pub enums_of : List Column → List String
enums_of [] = []
enums_of (column _ (enum_type name _) _ ∷ columns) = name ∷ enums_of columns
enums_of (column _ _ _ ∷ columns) = enums_of columns

-- A target is the table itself or one that is there.
abbrev pub has_target : List TableDefinition → ForeignKey → Bool
has_target tables (foreign_key _ t _) = any (is_table t) tables

abbrev pub all_targets : List TableDefinition → List ForeignKey → Bool
all_targets tables [] = true
all_targets tables (k ∷ keys) = has_target tables k && all_targets tables keys

abbrev pub any_known : List String → List String → Bool
any_known names known = any (λ n. any (str_eq n) known) names

unfoldable pub apply : Operation → Schema → Option Schema
apply (create_table t) s =
    if not (any (is_table t.name) s.tables)
      && all_targets (t ∷ s.tables) t.foreign_keys
      && not (any_known (enums_of t.columns) s.enums)
    then some (record s { tables = t ∷ s.tables; enums = enums_of t.columns ++ s.enums })
    else none
apply (create_index (index n t columns unique)) s =
    if not (any (is_index n) s.indexes) && any (is_table t) s.tables
    then some (record s { indexes = index n t columns unique ∷ s.indexes })
    else none
apply (drop_index n t) s =
    if any (is_index n) s.indexes
    then some (record s { indexes = filter (λ i. not (is_index n i)) s.indexes })
    else none
apply (drop_table n) s =
    let others = filter (λ t. not (is_table n t)) s.tables in
    if any (is_table n) s.tables && not (any (λ t. any (refers_to n) t.foreign_keys) others)
    then some (record s { tables = others; indexes = filter (λ i. not (index_on n i)) s.indexes })
    else none

abbrev pub and_then : Option Schema → (Schema → Option Schema) → Option Schema
and_then none f = none
and_then (some s) f = f s

unfoldable pub run : List Operation → Schema → Option Schema
unfolding apply
run [] s = some s
run (o ∷ operations) s = and_then (apply o s) (λ s'. run operations s')
