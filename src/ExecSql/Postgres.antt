-- ===== src/ExecSql/Postgres.antt =====
-- cli/api/dbadapters/postgres_execution_sql.ts: the statements that publish an action on Postgres.
-- A statement names the template that prints it, with the values that the template takes.
pub mod Print
pub mod Writing
pub mod Partitions
pub mod Catalog
use sqlanvil.Base.{
  Text, Option, none, some, Bool, true, false, not, ◌&&◌, ◌||◌, if◌then◌else◌, List, [], ◌∷◌, ◌++◌,
  map, codes, template,
}
use sqlanvil.Targets.{Target}
use sqlanvil.ExecSql.Types.{
  TableType, MetadataType, TableMetadata, Partition, partition, Bounds, nil, cons, SubPartition,
  no_sub, sub, PartitionKind, Index, PostgresOptions, Table, Generator, Result, ok, error, ◌>>=◌,
  is_incremental, is_view, has_items, base_table_type, metadata_beq,
}

pub record RunConfig : Type 0 where
  pub full_refresh : Bool

pub data Statement : Type 0 where
  operation : Text → Statement
  drop_if_exists : Target → MetadataType → Statement
  drop_materialized_view refresh_materialized_view : Target → Statement
  create_table create_view create_materialized_view create_key_index : Table → Statement
  create_index : Table → Index → Statement
  insert_into upsert_into : Table → (columns : List Text) → Statement
  drop_stage create_stage insert_partitioned : Table → Statement
  create_partitioned : Table → PartitionKind → (columns : List Text) → Statement
  create_partition :
      (child parent : Target) → (values : Text) → Option (PartitionKind × List Text) → Statement
  create_default : (child parent : Target) → Statement

-- `shouldWriteIncrementally`
unfoldable pub should_write_incrementally : Table → RunConfig → Option TableMetadata → Bool
should_write_incrementally t run none = false
should_write_incrementally t run (some m) =
    (not run.full_refresh || t.protected) && not (is_view m.type)

-- The test of `preOps` and `postOps`.
unfoldable pub runs_incremental_ops : Generator → Table → RunConfig → Option TableMetadata → Bool
runs_incremental_ops g t run m =
    g.semver_gt g.version (codes "1.4.8")
    && is_incremental t.enum_type
    && should_write_incrementally t run m

unfoldable pub pre_ops : Generator → Table → RunConfig → Option TableMetadata → List Statement
pre_ops g t run m =
    map operation (if runs_incremental_ops g t run m then t.incremental_pre_ops else t.pre_ops)

unfoldable pub post_ops : Generator → Table → RunConfig → Option TableMetadata → List Statement
post_ops g t run m =
    map operation (if runs_incremental_ops g t run m then t.incremental_post_ops else t.post_ops)

abbrev pub named : Target → Text → Target
named t name = record t { name = name }

-- `createChildPartitions`
abbrev pub child_name : Text → Text → Text
child_name parent name = parent ++ (b'_' ∷ b'_' ∷ name)

unfoldable pub default_partition : Target → Text → Bool → List Statement
default_partition base parent false = []
default_partition base parent true =
    create_default (named base (child_name parent (codes "default"))) (named base parent) ∷ []

unfoldable mutual
  pub create_child_partitions : Target → Text → Partition → List Statement
  create_child_partitions base parent (partition kind columns bounds include_default) =
      create_bounds base parent bounds ++ default_partition base parent include_default

  pub create_bounds : Target → Text → Bounds → List Statement
  create_bounds base parent nil = []
  create_bounds base parent (cons name values below rest) =
      create_below base parent (child_name parent name) values below
      ++ create_bounds base parent rest

  pub create_below : Target → Text → Text → Text → SubPartition → List Statement
  create_below base parent child values no_sub =
      create_partition (named base child) (named base parent) values none ∷ []
  create_below base parent child values (sub (partition kind [] bounds include_default)) =
      create_partition (named base child) (named base parent) values none ∷ []
  create_below base parent child values (sub (partition kind (c ∷ cs) bounds include_default)) =
      create_partition (named base child) (named base parent) values (some (kind, c ∷ cs))
        ∷ create_bounds base child bounds
      ++ default_partition base child include_default

-- `createIndexes`, one statement for each index.
abbrev pub options_indexes : Option PostgresOptions → List Index
options_indexes none = []
options_indexes (some o) = o.indexes

unfoldable pub create_indexes : Table → List Statement
create_indexes t = map (λ (i : Index). create_index t i) (options_indexes t.postgres)

-- `createPartitionedTableTasks`
unfoldable pub create_partitioned_table_tasks : Table → Partition → List Statement
unfolding create_child_partitions
create_partitioned_table_tasks t (partition kind columns bounds include_default) =
    drop_stage t
      ∷ create_stage t
      ∷ drop_if_exists t.target MetadataType.table
      ∷ create_partitioned t kind columns
      ∷ create_child_partitions t.target t.target.name
          (partition kind columns bounds include_default)
    ++ (insert_partitioned t ∷ drop_stage t ∷ [])

-- `table.postgres?.partition`, where it has columns.
abbrev pub with_columns : Option Partition → Option Partition
with_columns (some (partition kind (c ∷ cs) bounds d)) = some (partition kind (c ∷ cs) bounds d)
with_columns _ = none

abbrev pub partition_of : Option PostgresOptions → Option Partition
partition_of none = none
partition_of (some o) = with_columns o.partition

abbrev pub field_names : Option TableMetadata → List Text
field_names none = []
field_names (some m) = m.fields

abbrev pub key_index : Table → List Statement
key_index t = if has_items t.unique_key then create_key_index t ∷ [] else []

-- `oppositeTableType`
unfoldable pub opposite_table_type : MetadataType → MetadataType
opposite_table_type MetadataType.table = MetadataType.view
opposite_table_type _ = MetadataType.table

-- The drop of an object of another type.
unfoldable pub drop_other_type : Table → MetadataType → Option TableMetadata → List Statement
unfolding opposite_table_type
drop_other_type t base none = []
drop_other_type t base (some m) =
    if not (metadata_beq m.type base) && not t.materialized
    then drop_if_exists t.target (opposite_table_type base) ∷ []
    else []

-- A table that is dropped and created, by a plain statement or with partitions.
unfoldable pub create_fresh : Table → Option Partition → List Statement
unfolding create_partitioned_table_tasks
create_fresh t (some p) = create_partitioned_table_tasks t p
create_fresh t none = drop_if_exists t.target MetadataType.table ∷ create_table t ∷ []

abbrev pub refreshes_in_place : Table → RunConfig → Option TableMetadata → Bool
refreshes_in_place t run m =
    not run.full_refresh
    && elim t.postgres [ none ↦ false | some o ↦ o.on_dependency_change ]
    && elim m [ none ↦ false | some found ↦ metadata_beq found.type MetadataType.materialized_view ]

-- `after` is `afterTableCreated`, which Supabase overrides.
module _ (after : Table → List Text) where
  abbrev pub after_table_created : Table → List Statement
  after_table_created t = map operation (after t)

  unfoldable pub publish_incremental : Table → RunConfig → Option TableMetadata → List Statement
  unfolding should_write_incrementally create_indexes
  publish_incremental t run m =
      if should_write_incrementally t run m
      then (if has_items t.unique_key
          then upsert_into t (field_names m) ∷ []
          else insert_into t (field_names m) ∷ [])
      else drop_if_exists t.target MetadataType.table ∷ create_table t ∷ key_index t
        ++ (create_indexes t ++ after_table_created t)

  unfoldable pub publish_view : Table → RunConfig → Option TableMetadata → List Statement
  unfolding create_indexes
  publish_view t run m =
      if t.materialized
      then (if refreshes_in_place t run m
          then refresh_materialized_view t.target ∷ []
          else drop_materialized_view t.target ∷ create_materialized_view t ∷ create_indexes t)
      else drop_if_exists t.target MetadataType.view ∷ create_view t ∷ []

  unfoldable pub publish_table : Table → List Statement
  unfolding create_fresh create_indexes
  publish_table t =
      create_fresh t (partition_of t.postgres) ++ (create_indexes t ++ after_table_created t)

  -- The branches on the table's type; the unknown type has thrown before.
  unfoldable pub publish_body :
      TableType → Table → RunConfig → Option TableMetadata → List Statement
  unfolding publish_incremental publish_view publish_table
  publish_body TableType.incremental t run m = publish_incremental t run m
  publish_body TableType.view t run m = publish_view t run m
  publish_body _ t run m = publish_table t

  -- `publishTasks`
  unfoldable pub publish_statements :
      Generator → Table → RunConfig → Option TableMetadata → Result (List Statement)
  unfolding pre_ops post_ops base_table_type drop_other_type publish_body
  publish_statements g t run m = base_table_type t.enum_type >>= λ base. ok (
      pre_ops g t run m
      ++ (drop_other_type t base m ++ (publish_body t.enum_type t run m ++ post_ops g t run m)))
