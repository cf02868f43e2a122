-- ===== src/ExecSql/Mysql.antt =====
-- cli/api/dbadapters/mysql_execution_sql.ts: the statements that publish an action on MySQL.
pub mod Print
pub mod Writing
use sqlanvil.Base.{
  Text, Option, none, some, Bool, true, false, not, ◌&&◌, if◌then◌else◌, List, [], ◌∷◌, ◌++◌, map,
  codes,
}
use sqlanvil.Targets.{Target}
use sqlanvil.ExecSql.Types.{
  TableType, MetadataType, TableMetadata, MysqlIndex, MysqlOptions, Table, Generator, Result, ok,
  error, ◌>>=◌, has_items, is_incremental, metadata_beq,
}
use sqlanvil.ExecSql.Postgres.{RunConfig, field_names}

-- A statement names the template that prints it. `create_index` has passed the checks of its type.
pub data Statement : Type 0 where
  operation : Text → Statement
  drop_if_exists : Target → MetadataType → Statement
  create_table create_view create_key_index : Table → Statement
  create_index : Table → MysqlIndex → Statement
  upsert_into : Table → (columns : List Text) → Statement

-- `shouldWriteIncrementally`
unfoldable pub should_write_incrementally : RunConfig → Option TableMetadata → Bool
should_write_incrementally run none = false
should_write_incrementally run (some m) =
    not run.full_refresh && metadata_beq m.type MetadataType.table

unfoldable pub runs_incremental_ops : Generator → Table → RunConfig → Option TableMetadata → Bool
unfolding should_write_incrementally codes
runs_incremental_ops g t run m =
    g.semver_gt g.version (codes "1.4.8")
    && is_incremental t.enum_type
    && should_write_incrementally run m

unfoldable pub pre_ops : Generator → Table → RunConfig → Option TableMetadata → List Statement
unfolding runs_incremental_ops
pre_ops g t run m =
    map operation (if runs_incremental_ops g t run m then t.incremental_pre_ops else t.pre_ops)

unfoldable pub post_ops : Generator → Table → RunConfig → Option TableMetadata → List Statement
unfolding runs_incremental_ops
post_ops g t run m =
    map operation (if runs_incremental_ops g t run m then t.incremental_post_ops else t.post_ops)

abbrev pub mysql_indexes : Option MysqlOptions → List MysqlIndex
mysql_indexes none = []
mysql_indexes (some o) = o.indexes

abbrev pub index_statements : Table → List MysqlIndex → List Statement
index_statements t is = map (λ (i : MysqlIndex). create_index t i) is

abbrev pub key_index : Table → List Statement
key_index t = if has_items t.unique_key then create_key_index t ∷ [] else []

-- The branches on the type, given the statements of `createIndexes`.
unfoldable pub publish_body :
    TableType → Table → RunConfig → Option TableMetadata → List Statement → List Statement
unfolding should_write_incrementally
publish_body TableType.view t run m indexes =
    if t.materialized
    then drop_if_exists t.target MetadataType.view
      ∷ drop_if_exists t.target MetadataType.table
      ∷ create_table t
      ∷ indexes
    else create_view t ∷ []
publish_body TableType.incremental t run m indexes =
    if should_write_incrementally run m
    then upsert_into t (field_names m) ∷ []
    else drop_if_exists t.target MetadataType.table ∷ create_table t ∷ key_index t ++ indexes
publish_body _ t run m indexes =
    drop_if_exists t.target MetadataType.table ∷ create_table t ∷ indexes

-- A branch calls `createIndexes`, which may throw.
unfoldable pub creates_indexes : TableType → Table → RunConfig → Option TableMetadata → Bool
unfolding should_write_incrementally
creates_indexes TableType.view t run m = t.materialized
creates_indexes TableType.incremental t run m = not (should_write_incrementally run m)
creates_indexes _ t run m = true
