-- ===== src/ExecSql/Mysql/Print.antt =====
-- cli/api/dbadapters/mysql_execution_sql.ts: the checks of indexes, the templates and the tasks.
use sqlanvil.Base.{
  ℕ, zero, suc, Text, text_eq, nat_eq, Option, none, some, Bool, true, false, not, ◌&&◌, ◌||◌,
  if◌then◌else◌, ◌==◌, List, [], ◌∷◌, ◌++◌, map, take, codes, template, joined,
}
use sqlanvil.Targets.{Target, text_or_empty}
use sqlanvil.CompilationSql.{in_quotes}
use sqlanvil.Paths.{is_empty, lower_case}
use sqlanvil.SqlLex.Chars.{is_digit}
use sqlanvil.ValidateGraph.Shadows.{decimal}
use sqlanvil.ExecSql.Types.{
  TableType, MetadataType, TableMetadata, PartitionKind, MysqlIndex, MysqlPartition, Table,
  Assertion, Export, Import, Generator, target_sql, or_text, is_view, has_items,
  get_incremental_query, Result, ok, error, ◌>>=◌, bad_index_type, fulltext_index_is_unique,
  unsupported_action,
}
use sqlanvil.ExecSql.Tasks.{Task, statement_task, assertion_task, trim}
use sqlanvil.ExecSql.Postgres.{RunConfig}
use sqlanvil.ExecSql.Postgres.Print.{default_index_name, updated_columns}
use sqlanvil.ExecSql.Mysql.{
  Statement, operation, drop_if_exists, create_table, create_view, create_key_index, create_index,
  upsert_into, pre_ops, post_ops, mysql_indexes, publish_body, creates_indexes,
}

abbrev pub backquoted : Text → Text
backquoted c = in_quotes 96 c

-- The checks of `createIndexes` on the type of an index, and the word that it prints.
unfoldable pub index_prefix : MysqlIndex → Result Text
unfolding codes
index_prefix i =
    let kind = map lower_case i.type in
    if not (is_empty kind) && not (kind == codes "fulltext") && not (kind == codes "spatial")
    then error (bad_index_type i.type)
    else if not (is_empty kind) && i.unique
    then error (fulltext_index_is_unique kind)
    else ok (if i.unique then codes "unique " else if is_empty kind then [] else kind ++ codes " ")

-- `createIndexes`: the first index that is refused ends it.
unfoldable pub create_indexes : Table → List MysqlIndex → Result (List Statement)
unfolding index_prefix
create_indexes t [] = ok []
create_indexes t (i ∷ is) =
    index_prefix i >>= λ _. create_indexes t is >>= λ rest. ok (create_index t i ∷ rest)

-- `^(.*?)\((\d+)\)$` on a column: the name and the length of its prefix.
unfoldable pub prefix_length : Text → Option Text
unfolding is_digit
prefix_length [] = none
prefix_length (c ∷ []) = none
prefix_length (c ∷ d ∷ []) = if is_digit c && d == b')' then some (c ∷ []) else none
prefix_length (c ∷ d ∷ e ∷ cs) = elim (prefix_length (d ∷ e ∷ cs)) [
  | none ↦ none
  | some digits ↦ if is_digit c then some (c ∷ digits) else none
]

abbrev pub is_line_end : ℕ → Bool
is_line_end c = c == 10 || c == 13 || c == 0x2028 || c == 0x2029

abbrev pub behind : ℕ → Option (Text × Text) → Option (Text × Text)
behind c none = none
behind c (some (name, digits)) = if is_line_end c then none else some (c ∷ name, digits)

unfoldable pub match_prefixed : Text → Option (Text × Text)
unfolding prefix_length
match_prefixed [] = none
match_prefixed (c ∷ cs) =
    let later = behind c (match_prefixed cs) in
    if c == b'('
    then elim (prefix_length cs) [ none ↦ later | some digits ↦ some ([], digits) ]
    else later

-- `indexColumnSql` and `indexColumnName`
unfoldable pub index_column_sql : Text → Text
unfolding match_prefixed trim template
index_column_sql column = elim (match_prefixed (trim column)) [
  | none ↦ backquoted column
  | some (name, digits) ↦ template (backquoted (trim name) ∷ codes "(" ∷ digits ∷ codes ")" ∷ [])
]

unfoldable pub index_column_name : Text → Text
unfolding match_prefixed trim
index_column_name column = elim (match_prefixed (trim column)) [
  | none ↦ column
  | some (name, digits) ↦ trim name
]

unfoldable pub partition_kind_as_sql : PartitionKind → Text
partition_kind_as_sql PartitionKind.list = codes "list"
partition_kind_as_sql PartitionKind.hash = codes "hash"
partition_kind_as_sql PartitionKind.key = codes "key"
partition_kind_as_sql PartitionKind.range = codes "range"

abbrev pub counts_partitions : PartitionKind → Bool
counts_partitions PartitionKind.hash = true
counts_partitions PartitionKind.key = true
counts_partitions _ = false

abbrev pub partitions_text : ℕ → Text
partitions_text zero = []
partitions_text (suc n) = template (codes " partitions " ∷ decimal (suc n) ∷ [])

abbrev pub bound_text : Text × Text → Text
bound_text (name, values) = template (codes "partition " ∷ name ∷ codes " " ∷ values ∷ [])

-- `partitionClause`
abbrev pub clause_of : MysqlPartition → Text
clause_of p = template (
    codes " partition by "
    ∷ partition_kind_as_sql p.kind
    ∷ codes " ("
    ∷ p.expression
    ∷ codes ")"
    ∷ (if counts_partitions p.kind
        then partitions_text p.count
        else template
            (codes " (" ∷ joined (codes ", ") (map bound_text p.partitions) ∷ codes ")" ∷ []))
    ∷ [])

abbrev pub partition_clause_of : Option MysqlPartition → Text
partition_clause_of none = []
partition_clause_of (some p) = clause_of p

unfoldable pub partition_clause : Table → Text
unfolding template joined partition_kind_as_sql
partition_clause t = elim t.mysql [ none ↦ [] | some o ↦ partition_clause_of o.partition ]

abbrev pub option_text : Text → Text → Text
option_text name [] = []
option_text name (c ∷ cs) = template (name ∷ (c ∷ cs) ∷ [])

-- `tableOptions`
unfoldable pub table_options : Table → Text
unfolding template
table_options t = elim t.mysql [
  | none ↦ []
  | some o ↦ template (
      option_text (codes " engine=") o.engine
      ∷ option_text (codes " default charset=") o.charset
      ∷ option_text (codes " collate=") o.collation
      ∷ option_text (codes " row_format=") o.row_format
      ∷ [])
]

abbrev pub update_clause : Text → Text
update_clause c = template (backquoted c ∷ codes " = values(" ∷ backquoted c ∷ codes ")" ∷ [])

abbrev pub on_duplicate : List Text → Text
on_duplicate [] = []
on_duplicate (c ∷ cs) =
    template
      (codes " on duplicate key update " ∷ joined (codes ", ") (map update_clause (c ∷ cs)) ∷ [])

abbrev pub or_ok : Result Text → Text
or_ok (ok s) = s
or_ok (error e) = []

module _ (g : Generator) where
  -- `upsertInto`
  unfoldable pub upsert_into_sql : Table → List Text → Text
  unfolding template joined target_sql get_incremental_query updated_columns
  upsert_into_sql t [] = template (
      codes "insert into "
      ∷ target_sql g t.target
      ∷ codes " select * from ("
      ∷ get_incremental_query t
      ∷ codes ") as insertions"
      ∷ [])
  upsert_into_sql t (c ∷ cs) =
      let columns = joined (codes ", ") (map backquoted (c ∷ cs)) in
      template (
        codes "insert into "
        ∷ target_sql g t.target
        ∷ codes " ("
        ∷ columns
        ∷ codes ") select "
        ∷ columns
        ∷ codes " from ("
        ∷ get_incremental_query t
        ∷ codes ") as insertions"
        ∷ (if has_items t.unique_key
            then on_duplicate (updated_columns t.unique_key (c ∷ cs))
            else [])
        ∷ [])

  -- The template of `createIndexes`, for an index that has passed its checks.
  unfoldable pub create_index_sql : Table → MysqlIndex → Text
  unfolding template joined target_sql index_prefix index_column_sql index_column_name
      default_index_name
  create_index_sql t i = template (
      codes "alter table "
      ∷ target_sql g t.target
      ∷ codes " add "
      ∷ or_ok (index_prefix i)
      ∷ codes "index "
      ∷ backquoted (
          or_text i.name
            (default_index_name t.target.name (map index_column_name i.columns) i.unique))
      ∷ codes " ("
      ∷ joined (codes ", ") (map index_column_sql i.columns)
      ∷ codes ")"
      ∷ [])

  unfoldable pub create_table_sql : Table → Text
  unfolding template target_sql table_options partition_clause
  create_table_sql t = template (
      codes "create table "
      ∷ target_sql g t.target
      ∷ table_options t
      ∷ partition_clause t
      ∷ codes " as "
      ∷ t.query
      ∷ [])

  unfoldable pub create_view_sql : Target → Text → Text
  unfolding template target_sql
  create_view_sql t query =
      template (codes "create or replace view " ∷ target_sql g t ∷ codes " as " ∷ query ∷ [])

  unfoldable pub create_key_index_sql : Table → Text
  unfolding template joined target_sql
  create_key_index_sql t =
      let name =
        template (codes "uq_" ∷ text_or_empty t.target.schema ∷ codes "_" ∷ t.target.name ∷ []) in
      template (
        codes "alter table "
        ∷ target_sql g t.target
        ∷ codes " add unique index "
        ∷ backquoted (take 63 name)
        ∷ codes " ("
        ∷ joined (codes ", ") (map backquoted t.unique_key)
        ∷ codes ")"
        ∷ [])

  -- `dropIfExists`
  unfoldable pub drop_sql : Target → MetadataType → Text
  unfolding template target_sql
  drop_sql t type = template (
      (if is_view type then codes "drop view if exists " else codes "drop table if exists ")
      ∷ target_sql g t
      ∷ [])

  unfoldable pub print : Statement → Text
  unfolding drop_sql create_table_sql create_view_sql create_key_index_sql create_index_sql
      upsert_into_sql
  print (operation s) = s
  print (drop_if_exists t type) = drop_sql t type
  print (create_table t) = create_table_sql t
  print (create_view t) = create_view_sql t.target t.query
  print (create_key_index t) = create_key_index_sql t
  print (create_index t i) = create_index_sql t i
  print (upsert_into t columns) = upsert_into_sql t columns

  -- The indexes of the branches that call `createIndexes`.
  abbrev pub made_indexes : Table → RunConfig → Option TableMetadata → List MysqlIndex
  made_indexes t run m = if creates_indexes t.enum_type t run m then mysql_indexes t.mysql else []

  -- `publishTasks`; an index that is refused throws.
  unfoldable pub publish_statements :
      Table → RunConfig → Option TableMetadata → Result (List Statement)
  unfolding create_indexes pre_ops post_ops publish_body creates_indexes
  publish_statements t run m = create_indexes t (made_indexes t run m) >>= λ indexes.
      ok (pre_ops g t run m ++ (publish_body t.enum_type t run m indexes ++ post_ops g t run m))

  unfoldable pub publish_tasks : Table → RunConfig → Option TableMetadata → Result (List Task)
  unfolding publish_statements print
  publish_tasks t run m = publish_statements t run m >>= λ statements.
      ok (map (λ (s : Statement). statement_task (print s)) statements)

  -- `assertTasks`
  unfoldable pub assert_tasks : Assertion → List Task
  unfolding template target_sql drop_sql create_view_sql
  assert_tasks a =
      statement_task (drop_sql a.target MetadataType.view)
      ∷ statement_task (create_view_sql a.target a.query)
      ∷ assertion_task
          (template (codes "select sum(1) as row_count from " ∷ target_sql g a.target ∷ []))
      ∷ []

  -- `validationStubSql`
  unfoldable pub validation_stub_sql : Table → Text
  unfolding template target_sql create_view_sql
  validation_stub_sql t = elim t.enum_type [
    | TableType.view ↦ create_view_sql t.target t.query
    | _ ↦ template (
        codes "create table "
        ∷ target_sql g t.target
        ∷ codes " as select * from ("
        ∷ t.query
        ∷ codes ") as _sa_stub limit 0"
        ∷ [])
  ]

-- `createSchemaSql` and `dropSchemaCascadeSql`
unfoldable pub create_schema_sql : Text → Text
unfolding template
create_schema_sql schema =
    template (codes "create database if not exists " ∷ backquoted schema ∷ [])

unfoldable pub drop_schema_cascade_sql : Text → Text
unfolding template
drop_schema_cascade_sql schema =
    template (codes "drop database if exists " ∷ backquoted schema ∷ [])

-- `createExportTasks` and `createImportTasks`
unfoldable pub create_export_tasks : Export → Result (List Task)
create_export_tasks e = error (unsupported_action (codes "export"))

unfoldable pub create_import_tasks : Import → Result (List Task)
create_import_tasks i = error (unsupported_action (codes "import"))
