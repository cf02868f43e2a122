-- ===== src/ExecSql/Bigquery.antt =====
-- cli/api/dbadapters/bigquery_execution_sql.ts: the statements that publish an action on BigQuery.
pub mod Procedure
pub mod Dml
pub mod Print
use sqlanvil.Base.{
  Text, Option, none, some, Bool, true, false, not, ◌&&◌, ◌||◌, if◌then◌else◌, List, [], ◌∷◌, ◌++◌,
  map, codes,
}
use sqlanvil.Targets.{Target}
use sqlanvil.ExecSql.Types.{
  TableType, MetadataType, TableMetadata, OnSchemaChange, Table, Generator, Result, ok, error,
  ◌>>=◌, is_incremental, is_view, base_table_type, metadata_beq,
}
use sqlanvil.ExecSql.Postgres.{RunConfig, field_names}

-- A statement names the template that prints it, with the values that the template takes.
pub data Statement : Type 0 where
  operation : Text → Statement
  drop_if_exists : Target → MetadataType → Statement
  create_or_replace create_procedure call_procedure : Table → Statement
  incremental_dml : Table → (columns : List Text) → Statement

-- `shouldWriteIncrementally`
unfoldable pub should_write_incrementally : Table → RunConfig → Option TableMetadata → Bool
should_write_incrementally t run none = false
should_write_incrementally t run (some m) =
    (not run.full_refresh || t.protected) && not (is_view m.type)

unfoldable pub runs_incremental_ops : Generator → Table → RunConfig → Option TableMetadata → Bool
unfolding should_write_incrementally codes
runs_incremental_ops g t run m =
    g.semver_gt g.version (codes "1.4.8")
    && is_incremental t.enum_type
    && should_write_incrementally t run m

unfoldable pub pre_ops : Generator → Table → RunConfig → Option TableMetadata → List Statement
unfolding runs_incremental_ops
pre_ops g t run m =
    map operation (if runs_incremental_ops g t run m then t.incremental_pre_ops else t.pre_ops)

unfoldable pub post_ops : Generator → Table → RunConfig → Option TableMetadata → List Statement
unfolding runs_incremental_ops
post_ops g t run m =
    map operation (if runs_incremental_ops g t run m then t.incremental_post_ops else t.post_ops)

-- `oppositeTableType`, of a base type.
abbrev pub opposite_table_type : MetadataType → MetadataType
opposite_table_type MetadataType.table = MetadataType.view
opposite_table_type _ = MetadataType.table

unfoldable pub drop_other_type : Table → MetadataType → Option TableMetadata → List Statement
drop_other_type t base none = []
drop_other_type t base (some m) =
    if metadata_beq m.type base then [] else drop_if_exists t.target (opposite_table_type base) ∷ []

-- `buildIncrementalSchemaChangeTasks`, which the strategies other than `IGNORE` fall through.
unfoldable pub schema_change_tasks : OnSchemaChange → Table → List Statement
schema_change_tasks OnSchemaChange.ignore t = []
schema_change_tasks _ t = create_procedure t ∷ call_procedure t ∷ []

unfoldable pub publish_body : Table → RunConfig → Option TableMetadata → List Statement
unfolding should_write_incrementally schema_change_tasks
publish_body t run m =
    if is_incremental t.enum_type && should_write_incrementally t run m
    then schema_change_tasks t.on_schema_change t ++ incremental_dml t (field_names m) ∷ []
    else create_or_replace t ∷ []

-- `publishTasks`, before the tasks are concatenated.
unfoldable pub publish_statements :
    Generator → Table → RunConfig → Option TableMetadata → Result (List Statement)
unfolding pre_ops post_ops base_table_type drop_other_type publish_body
publish_statements g t run m = base_table_type t.enum_type >>= λ base. ok (
    pre_ops g t run m ++ (drop_other_type t base m ++ (publish_body t run m ++ post_ops g t run m)))
