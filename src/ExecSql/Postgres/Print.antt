-- ===== src/ExecSql/Postgres/Print.antt =====
-- cli/api/dbadapters/postgres_execution_sql.ts: the templates of the statements, and the other texts.
use sqlanvil.Base.{
  zero, suc, Text, text_eq, nat_eq, Option, none, some, Bool, not, if◌then◌else◌, List, [], ◌∷◌,
  ◌++◌, map, filter_by, take, contains, codes, template, joined,
}
use sqlanvil.Targets.{Target, text_or_empty}
use sqlanvil.CompilationSql.{in_quotes}
use sqlanvil.Paths.{is_empty}
use sqlanvil.ValidateGraph.Shadows.{decimal}
use sqlanvil.ExecSql.Types.{
  TableType, MetadataType, TableMetadata, PartitionKind, Index, IndexMethod, PostgresOptions, Table,
  Assertion, Export, Import, Generator, target_sql, or_text, is_view, get_incremental_query, Result,
  ok, ◌>>=◌,
}
use sqlanvil.Runner.State.{TaskType}
use sqlanvil.ExecSql.Tasks.{Task, statement_task, assertion_task, is_not_empty}
use sqlanvil.ExecSql.Postgres.{
  Statement, operation, drop_if_exists, drop_materialized_view, refresh_materialized_view,
  create_table, create_view, create_materialized_view, create_key_index, create_index, insert_into,
  upsert_into, drop_stage, create_stage, insert_partitioned, create_partitioned, create_partition,
  create_default, named, RunConfig, publish_statements,
}

-- `"${c}"`, and a list of such names.
unfoldable pub quoted_name : Text → Text
quoted_name c = in_quotes 34 c

unfoldable pub column_list : List Text → Text
unfolding quoted_name joined
column_list columns = joined (codes ", ") (map quoted_name columns)

unfoldable pub partition_kind_as_sql : PartitionKind → Text
partition_kind_as_sql PartitionKind.list = codes "list"
partition_kind_as_sql PartitionKind.hash = codes "hash"
partition_kind_as_sql _ = codes "range"

unfoldable pub index_method_as_sql : IndexMethod → Text
index_method_as_sql IndexMethod.hash = codes "hash"
index_method_as_sql IndexMethod.gin = codes "gin"
index_method_as_sql IndexMethod.gist = codes "gist"
index_method_as_sql IndexMethod.brin = codes "brin"
index_method_as_sql IndexMethod.btree = codes "btree"

-- `defaultIndexName`
unfoldable pub default_index_name : Text → List Text → Bool → Text
unfolding joined
default_index_name table_name columns unique = take 63 (
    joined (codes "_") (filter_by is_not_empty (table_name ∷ columns))
    ++ (if unique then codes "_key" else codes "_idx"))

-- `tablespace`, of a table and of a partitioned parent.
unfoldable pub tablespace_sql : Option PostgresOptions → Text
tablespace_sql none = []
tablespace_sql (some o) =
    if is_empty o.tablespace
    then []
    else template (codes " tablespace " ∷ in_quotes 34 o.tablespace ∷ [])

abbrev pub unlogged_sql : Option PostgresOptions → Text
unlogged_sql none = []
unlogged_sql (some o) = if o.unlogged then codes "unlogged " else []

abbrev pub with_sql : Option PostgresOptions → Text
with_sql none = []
with_sql (some o) = elim o.fillfactor [
  | zero ↦ []
  | suc n ↦ template (codes " with (fillfactor=" ∷ decimal (suc n) ∷ codes ")" ∷ [])
]

abbrev pub no_data_sql : Option PostgresOptions → Text
no_data_sql none = []
no_data_sql (some o) = if o.no_data then codes " with no data" else []

-- The columns that an upsert overwrites.
unfoldable pub updated_columns : List Text → List Text → List Text
updated_columns unique_key columns = filter_by (λ c. not (contains unique_key c)) columns

module _ (g : Generator) where
  unfoldable pub drop_sql : Target → MetadataType → Text
  unfolding template target_sql
  drop_sql t type = template (
      codes "drop "
      ∷ (if is_view type then codes "view" else codes "table")
      ∷ codes " if exists "
      ∷ target_sql g t
      ∷ codes " cascade"
      ∷ [])

  -- `createTable`
  unfoldable pub create_table_sql : Table → Text
  unfolding template target_sql tablespace_sql
  create_table_sql t = template (
      codes "create "
      ∷ unlogged_sql t.postgres
      ∷ codes "table "
      ∷ target_sql g t.target
      ∷ with_sql t.postgres
      ∷ tablespace_sql t.postgres
      ∷ codes " as "
      ∷ t.query
      ∷ [])

  unfoldable pub create_view_sql : Target → Text → Text
  unfolding template target_sql
  create_view_sql t query =
      template (codes "create view " ∷ target_sql g t ∷ codes " as " ∷ query ∷ [])

  unfoldable pub create_materialized_view_sql : Table → Text
  unfolding template target_sql
  create_materialized_view_sql t = template (
      codes "create materialized view "
      ∷ target_sql g t.target
      ∷ codes " as "
      ∷ t.query
      ∷ no_data_sql t.postgres
      ∷ [])

  -- The index on the unique key that the incremental loads rely on. The template prints the schema
  -- as it is in the target.
  unfoldable pub create_key_index_sql : Table → Text
  unfolding template target_sql column_list
  create_key_index_sql t = template (
      codes "create unique index if not exists "
      ∷ in_quotes 34
          (template (codes "pk_" ∷ text_or_empty t.target.schema ∷ codes "_" ∷ t.target.name ∷ []))
      ∷ codes " on "
      ∷ target_sql g t.target
      ∷ codes " ("
      ∷ column_list t.unique_key
      ∷ codes ")"
      ∷ [])

  abbrev index_columns : Index → Text
  index_columns i =
      let opclass = if is_empty i.opclass then [] else 32 ∷ i.opclass in
      joined (codes ", ") (map (λ (c : Text). quoted_name c ++ opclass) i.columns)

  abbrev include_sql : List Text → Text
  include_sql [] = []
  include_sql (c ∷ cs) = template (codes " include (" ∷ column_list (c ∷ cs) ∷ codes ")" ∷ [])

  abbrev where_sql : Text → Text
  where_sql [] = []
  where_sql (c ∷ cs) = template (codes " where (" ∷ (c ∷ cs) ∷ codes ")" ∷ [])

  -- The template of `createIndexes`.
  unfoldable pub create_index_sql : Table → Index → Text
  unfolding template target_sql index_method_as_sql default_index_name
  create_index_sql t i = template (
      codes "create "
      ∷ (if i.unique then codes "unique " else [])
      ∷ codes "index "
      ∷ in_quotes 34 (or_text i.name (default_index_name t.target.name i.columns i.unique))
      ∷ codes " on "
      ∷ target_sql g t.target
      ∷ codes " using "
      ∷ index_method_as_sql i.method
      ∷ codes " ("
      ∷ index_columns i
      ∷ codes ")"
      ∷ include_sql i.include
      ∷ where_sql i.where_
      ∷ [])

  abbrev insert_all : Table → Text
  insert_all t = template (
      codes "insert into "
      ∷ target_sql g t.target
      ∷ codes " select * from ("
      ∷ get_incremental_query t
      ∷ codes ") as insertions"
      ∷ [])

  abbrev insert_columns : Table → List Text → Text
  insert_columns t columns = template (
      codes "insert into "
      ∷ target_sql g t.target
      ∷ codes " ("
      ∷ column_list columns
      ∷ codes ") select "
      ∷ column_list columns
      ∷ codes " from ("
      ∷ get_incremental_query t
      ∷ codes ") as insertions"
      ∷ [])

  -- `insertInto`
  unfoldable pub insert_into_sql : Table → List Text → Text
  unfolding template target_sql column_list get_incremental_query
  insert_into_sql t [] = insert_all t
  insert_into_sql t (c ∷ cs) = insert_columns t (c ∷ cs)

  abbrev update_clause : Text → Text
  update_clause c = template (quoted_name c ∷ codes " = EXCLUDED." ∷ quoted_name c ∷ [])

  abbrev on_conflict : List Text → List Text → Text
  on_conflict unique_key [] =
      template (codes " on conflict (" ∷ column_list unique_key ∷ codes ") do nothing" ∷ [])
  on_conflict unique_key (c ∷ cs) = template (
      codes " on conflict ("
      ∷ column_list unique_key
      ∷ codes ") do update set "
      ∷ joined (codes ", ") (map update_clause (c ∷ cs))
      ∷ [])

  -- `upsertInto`
  unfoldable pub upsert_into_sql : Table → List Text → Text
  unfolding template target_sql column_list get_incremental_query updated_columns
  upsert_into_sql t [] = insert_all t
  upsert_into_sql t (c ∷ cs) =
      insert_columns t (c ∷ cs) ++ on_conflict t.unique_key (updated_columns t.unique_key (c ∷ cs))

  abbrev stage : Table → Text
  stage t = target_sql g (named t.target (t.target.name ++ codes "__sa_stage"))

  abbrev partition_by : Option (PartitionKind × List Text) → Text
  partition_by none = []
  partition_by (some (kind, columns)) = template (
      codes " partition by "
      ∷ partition_kind_as_sql kind
      ∷ codes " ("
      ∷ column_list columns
      ∷ codes ")"
      ∷ [])

  -- The text of a statement.
  unfoldable pub print : Statement → Text
  unfolding template target_sql column_list partition_kind_as_sql tablespace_sql drop_sql
      create_table_sql create_view_sql create_materialized_view_sql create_key_index_sql
      create_index_sql insert_into_sql upsert_into_sql
  print (operation s) = s
  print (drop_if_exists t type) = drop_sql t type
  print (drop_materialized_view t) =
      template (codes "drop materialized view if exists " ∷ target_sql g t ∷ codes " cascade" ∷ [])
  print (refresh_materialized_view t) =
      template (codes "refresh materialized view " ∷ target_sql g t ∷ [])
  print (create_table t) = create_table_sql t
  print (create_view t) = create_view_sql t.target t.query
  print (create_materialized_view t) = create_materialized_view_sql t
  print (create_key_index t) = create_key_index_sql t
  print (create_index t i) = create_index_sql t i
  print (insert_into t columns) = insert_into_sql t columns
  print (upsert_into t columns) = upsert_into_sql t columns
  print (drop_stage t) = template (codes "drop table if exists " ∷ stage t ∷ codes " cascade" ∷ [])
  print (create_stage t) = template (
      codes "create unlogged table "
      ∷ stage t
      ∷ codes " as "
      ∷ t.query
      ∷ codes " with no data"
      ∷ [])
  print (insert_partitioned t) = template (
      codes "insert into "
      ∷ target_sql g t.target
      ∷ codes " select * from ("
      ∷ t.query
      ∷ codes ") as q"
      ∷ [])
  print (create_partitioned t kind columns) = template (
      codes "create table "
      ∷ target_sql g t.target
      ∷ codes " (like "
      ∷ stage t
      ∷ codes " including defaults)"
      ∷ partition_by (some (kind, columns))
      ∷ tablespace_sql t.postgres
      ∷ [])
  print (create_partition child parent values below) = template (
      codes "create table "
      ∷ target_sql g child
      ∷ codes " partition of "
      ∷ target_sql g parent
      ∷ codes " for values "
      ∷ values
      ∷ partition_by below
      ∷ [])
  print (create_default child parent) = template (
      codes "create table "
      ∷ target_sql g child
      ∷ codes " partition of "
      ∷ target_sql g parent
      ∷ codes " default"
      ∷ [])

  -- `assertTasks`
  unfoldable pub assert_tasks : Assertion → List Task
  unfolding template target_sql drop_sql create_view_sql
  assert_tasks a =
      statement_task (drop_sql a.target MetadataType.view)
      ∷ statement_task (create_view_sql a.target a.query)
      ∷ assertion_task
          (template (codes "select sum(1) as row_count from " ∷ target_sql g a.target ∷ []))
      ∷ []

  -- `validationStubSql`, `createSchemaSql` and `dropSchemaCascadeSql`
  unfoldable pub validation_stub_sql : Table → Text
  unfolding template target_sql create_view_sql
  validation_stub_sql t = elim t.enum_type [
    | TableType.view ↦ create_view_sql t.target t.query
    | _ ↦ template (
        codes "create table "
        ∷ target_sql g t.target
        ∷ codes " as "
        ∷ t.query
        ∷ codes " with no data"
        ∷ [])
  ]

unfoldable pub create_schema_sql : Text → Text
unfolding template
create_schema_sql schema =
    template (codes "create schema if not exists " ∷ in_quotes 34 schema ∷ [])

unfoldable pub drop_schema_cascade_sql : Text → Text
unfolding template
drop_schema_cascade_sql schema =
    template (codes "drop schema if exists " ∷ in_quotes 34 schema ∷ codes " cascade" ∷ [])

-- `createExportTasks` and `createImportTasks`, which the runner carries out.
unfoldable pub create_export_tasks : Export → List Task
create_export_tasks e = record { type = TaskType.export_; text = e.query } ∷ []

unfoldable pub create_import_tasks : Import → List Task
create_import_tasks i = record { type = TaskType.import_; text = [] } ∷ []

-- `publishTasks`: a task for each statement.
unfoldable pub publish_tasks :
    Generator → (Table → List Text) → Table → RunConfig → Option TableMetadata → Result (List Task)
unfolding publish_statements print
publish_tasks g after t run m = publish_statements after g t run m >>= λ statements.
    ok (map (λ (s : Statement). statement_task (print g s)) statements)
