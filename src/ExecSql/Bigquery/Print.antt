-- ===== src/ExecSql/Bigquery/Print.antt =====
-- cli/api/dbadapters/bigquery_execution_sql.ts and export_uri.ts: the templates and the tasks.
use sqlanvil.Base.{
  ℕ, zero, suc, ◌-◌, leb, Text, text_eq, nat_eq, Option, none, some, Bool, true, ◌&&◌,
  if◌then◌else◌, ◌==◌, List, [], ◌∷◌, ◌++◌, map, codes, template, joined,
}
use sqlanvil.Targets.{Target, truthy, text_or_empty}
use sqlanvil.Paths.{is_empty, lower_case}
use sqlanvil.ValidateGraph.Shadows.{decimal}
use sqlanvil.ExecSql.Types.{
  TableType, MetadataType, TableMetadata, BigqueryOptions, Table, Assertion, Export, Import,
  Generator, target_sql, or_text, base_table_type, table_type_as_sql, Result, ok, ◌>>=◌,
}
use sqlanvil.ExecSql.Tasks.{Task, statement_task, assertion_task, concatenate}
use sqlanvil.ExecSql.Postgres.{RunConfig}
use sqlanvil.ExecSql.Bigquery.{
  Statement, operation, drop_if_exists, create_or_replace, create_procedure, call_procedure,
  incremental_dml, publish_statements,
}
use sqlanvil.ExecSql.Bigquery.Procedure.{create_procedure_sql, safe_call_and_drop_procedure}
use sqlanvil.ExecSql.Bigquery.Dml.{incremental_dml_sql, backquoted}

abbrev pub option_entry : Text × Text → Text
option_entry (name, value) = template (name ∷ codes "=" ∷ value ∷ [])

abbrev pub expiration : ℕ → List Text
expiration zero = []
expiration (suc n) = template (codes "partition_expiration_days=" ∷ decimal (suc n) ∷ []) ∷ []

-- The options of `createOrReplace`.
unfoldable pub options_of : BigqueryOptions → List Text
unfolding template
options_of o =
    (if is_empty o.partition_by
      then []
      else expiration o.partition_expiration_days
        ++ (if o.require_partition_filter then codes "require_partition_filter=true" ∷ [] else []))
    ++ map option_entry o.additional_options

abbrev pub options_text : List Text → Text
options_text [] = []
options_text (o ∷ os) = template (codes "OPTIONS(" ∷ joined (codes ",") (o ∷ os) ∷ codes ")" ∷ [])

abbrev pub cluster_text : List Text → Text
cluster_text [] = []
cluster_text (c ∷ cs) =
    template (codes "cluster by " ∷ joined (codes ", ") (c ∷ cs) ∷ codes " " ∷ [])

abbrev pub partition_text : Text → Text
partition_text [] = []
partition_text (c ∷ cs) = template (codes "partition by " ∷ (c ∷ cs) ∷ codes " " ∷ [])

abbrev pub storage_text : Option BigqueryOptions → Text
storage_text none = []
storage_text (some o) =
    template
      (partition_text o.partition_by ∷ cluster_text o.cluster_by ∷ options_text (options_of o) ∷ [])

-- `replace(/\/+$/, "")`
unfoldable pub without_last_slashes : Text → Text
without_last_slashes [] = []
without_last_slashes (c ∷ cs) =
    let rest = without_last_slashes cs in if is_empty rest && c == b'/' then [] else c ∷ rest

-- `extensionForFormat`
unfoldable pub extension_for_format : Text → Text
extension_for_format format =
    let name = map lower_case format in
    if name == codes "parquet"
    then codes ".parquet"
    else if name == codes "csv"
    then codes ".csv"
    else if name == codes "json"
    then codes ".jsonl"
    else []

-- `resolveExportUri`
unfoldable pub resolve_export_uri : Export → Text → Bool → Text
unfolding without_last_slashes extension_for_format template
resolve_export_uri e action_name wildcard = template (
    without_last_slashes e.location
    ∷ codes "/"
    ∷ or_text e.filename action_name
    ∷ (if wildcard then codes "_*" else [])
    ∷ extension_for_format e.format
    ∷ [])

-- `toUpperCase`, of the names of formats, which are ASCII.
abbrev pub upper_case : ℕ → ℕ
upper_case c = if leb b'a' c && leb c b'z' then c - 32 else c

module _ (g : Generator) where
  -- `createOrReplace`
  unfoldable pub create_or_replace_sql : Table → Result Text
  unfolding template joined target_sql base_table_type table_type_as_sql options_of
  create_or_replace_sql t = base_table_type t.enum_type >>= λ base.
      table_type_as_sql base >>= λ type. ok (
        template (
          codes "create or replace "
          ∷ (if t.materialized then codes "materialized " else [])
          ∷ type
          ∷ codes " "
          ∷ target_sql g t.target
          ∷ codes " "
          ∷ storage_text t.bigquery
          ∷ codes "as "
          ∷ t.query
          ∷ []))

  -- `createOrReplaceView`
  unfoldable pub create_or_replace_view : Target → Text → Text
  unfolding template target_sql
  create_or_replace_view t query =
      template
        (codes "\n      create or replace view " ∷ target_sql g t ∷ codes " as " ∷ query ∷ [])

  -- `dropIfExists`
  unfoldable pub drop_sql : Target → MetadataType → Result Text
  unfolding template target_sql table_type_as_sql
  drop_sql t type = table_type_as_sql type >>= λ word.
      ok (template (codes "drop " ∷ word ∷ codes " if exists " ∷ target_sql g t ∷ []))

  unfoldable pub print : Statement → Result Text
  unfolding create_or_replace_sql drop_sql create_procedure_sql safe_call_and_drop_procedure
      incremental_dml_sql
  print (operation s) = ok s
  print (drop_if_exists t type) = drop_sql t type
  print (create_or_replace t) = create_or_replace_sql t
  print (create_procedure t) = ok (create_procedure_sql g t)
  print (call_procedure t) = ok (safe_call_and_drop_procedure g t)
  print (incremental_dml t columns) = ok (incremental_dml_sql g t columns)

  unfoldable pub print_all : List Statement → Result (List Task)
  unfolding print
  print_all [] = ok []
  print_all (s ∷ ss) = print s >>= λ text. print_all ss >>= λ rest. ok (statement_task text ∷ rest)

  -- `publishTasks`
  unfoldable pub publish_tasks : Table → RunConfig → Option TableMetadata → Result (List Task)
  unfolding publish_statements print_all concatenate
  publish_tasks t run m =
      publish_statements g t run m >>= λ ss. print_all ss >>= λ tasks. ok (concatenate tasks)

  -- `assertTasks`
  unfoldable pub assert_tasks : Assertion → List Task
  unfolding template target_sql create_or_replace_view
  assert_tasks a =
      statement_task (create_or_replace_view a.target a.query)
      ∷ assertion_task
          (template (codes "select sum(1) as row_count from " ∷ target_sql g a.target ∷ []))
      ∷ []

  -- `createExportTasks`
  unfoldable pub create_export_tasks : Export → List Task
  unfolding template resolve_export_uri
  create_export_tasks e =
      statement_task (
        template (
          codes "EXPORT DATA OPTIONS(\n  uri='"
          ∷ resolve_export_uri e (or_text e.target.name e.filename) true
          ∷ codes "',\n  format='"
          ∷ map upper_case e.format
          ∷ codes "',\n  overwrite="
          ∷ (if e.overwrite then codes "true" else codes "false")
          ∷ codes "\n) AS\n"
          ∷ e.query
          ∷ []))
      ∷ []

  -- `createImportTasks`
  unfoldable pub create_import_tasks : Import → List Task
  unfolding template target_sql
  create_import_tasks i =
      statement_task (
        template (
          codes "LOAD DATA "
          ∷ (if i.overwrite then codes "OVERWRITE" else codes "INTO")
          ∷ codes " "
          ∷ target_sql g i.target
          ∷ codes "\nFROM FILES (\n  format = '"
          ∷ map upper_case i.format
          ∷ codes "',\n  uris = ['"
          ∷ i.location
          ∷ codes "']\n)"
          ∷ []))
      ∷ []

  -- `validationStubSql`
  unfoldable pub validation_stub_sql : Table → Text
  unfolding template target_sql
  validation_stub_sql t = elim t.enum_type [
    | TableType.view ↦
        template (codes "create view " ∷ target_sql g t.target ∷ codes " as " ∷ t.query ∷ [])
    | _ ↦ template (
        codes "create table "
        ∷ target_sql g t.target
        ∷ codes " as select * from ("
        ∷ t.query
        ∷ codes ") limit 0"
        ∷ [])
  ]

  -- `qualifiedSchema`
  unfoldable pub qualified_schema : Text → Text
  unfolding template
  qualified_schema schema =
      if truthy g.default_database
      then backquoted (template (text_or_empty g.default_database ∷ codes "." ∷ schema ∷ []))
      else backquoted schema

  -- `createSchemaSql` and `dropSchemaCascadeSql`
  unfoldable pub create_schema_sql : Text → Text
  unfolding template qualified_schema
  create_schema_sql schema =
      template (codes "create schema if not exists " ∷ qualified_schema schema ∷ [])

  unfoldable pub drop_schema_cascade_sql : Text → Text
  unfolding template qualified_schema
  drop_schema_cascade_sql schema =
      template (codes "drop schema if exists " ∷ qualified_schema schema ∷ codes " cascade" ∷ [])
