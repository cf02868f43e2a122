-- ===== src/ExecSql/Examples.antt =====
-- cli/api/dbadapters: the SQL generators on small inputs.
use sqlanvil.Base.{
  inl, Text, Option, none, some, Bool, true, false, not, if◌then◌else◌, List, [], ◌∷◌, any, ◌≡◌,
  ◌||◌, refl, codes, template,
}
use sqlanvil.Targets.{Target}
use sqlanvil.CompilationSql.{Warehouse, postgres, mysql}
use sqlanvil.SqlLex.Chars.{is_space, is_digit}
use sqlanvil.ExecSql.Types.{
  TableType, MetadataType, TableMetadata, OnSchemaChange, IncrementalStrategy, PartitionKind,
  Partition, partition, nil, cons, no_sub, sub, Table, Generator, ok, metadata_beq, base_table_type,
}
use sqlanvil.ExecSql.Tasks.{concatenate_queries}
use sqlanvil.ExecSql.Postgres.{
  Statement, drop_if_exists, drop_materialized_view, create_table, create_view,
  create_materialized_view, upsert_into, create_partitioned, RunConfig, publish_statements,
  create_child_partitions,
}
use sqlanvil.ExecSql.Postgres.Print.{print, default_index_name}
use sqlanvil.ExecSql.Postgres.Writing.{
  written, drops_rows, publish_statements-writes_once, publish_statements-keeps_rows,
}
use sqlanvil.ExecSql.Postgres.Partitions.{IsNested, create_child_partitions-IsNested}
use sqlanvil.ExecSql.Postgres.Catalog.{
  Relation, Answer, leaves, refused, Allows, run_statements, IsWarehouse,
}
use sqlanvil.ExecSql.Postgres.Catalog.Publishing.{publish_statements-Allows}
use sqlanvil.ExecSql.Mysql as Mysql
use sqlanvil.ExecSql.Mysql.Print as MysqlPrint
use sqlanvil.ExecSql.Dispatch.{query, collect_evaluation_queries}
use sqlanvil.ExecSql.Mysql.Writing as MysqlWriting
use sqlanvil.ExecSql.Mysql.Writing.{publish_statements-drops}

abbrev generator : Warehouse → Generator
generator w = record {
  warehouse = w;
  default_database = none;
  default_schema = some (codes "main");
  version = codes "3.0.0";
  semver_gt = λ a b. true;
  unique_id = codes "u1";
  stringify = λ texts. [];
}

abbrev orders : Target
orders = record {
  database = none;
  schema = some (codes "s");
  name = codes "t";
  include_dependent_assertions = none;
}

abbrev table_of : TableType → Bool → Table
table_of type materialized = record {
  target = orders;
  enum_type = type;
  type = [];
  disabled = false;
  query = codes "select 1";
  protected = true;
  materialized = materialized;
  where_ = [];
  incremental_query = [];
  unique_key = codes "id" ∷ [];
  on_schema_change = OnSchemaChange.ignore;
  incremental_strategy = IncrementalStrategy.unspecified;
  pre_ops = codes "set x" ∷ [];
  post_ops = [];
  incremental_pre_ops = [];
  incremental_post_ops = [];
  bigquery = none;
  postgres = none;
  supabase = none;
  mysql = none;
}

abbrev stored_as : MetadataType → Option TableMetadata
stored_as type =
    some (record { target = orders; type = type; fields = codes "id" ∷ codes "v" ∷ [] })

abbrev full_refresh : RunConfig
full_refresh = record { full_refresh = true }

-- A key column is not updated.
upsert_text :
    print
      (generator postgres)
      (upsert_into (table_of TableType.incremental false) (codes "id" ∷ codes "v" ∷ []))
    ≡ template (
        codes
          "insert into \"s\".\"t\" (\"id\", \"v\") select \"id\", \"v\" from (select 1) as insertions "
        ∷ codes "on conflict (\"id\") do update set \"v\" = EXCLUDED.\"v\""
        ∷ [])
unfolding print codes template
upsert_text = refl

index_name :
    default_index_name (codes "t") (codes "a" ∷ [] ∷ codes "b" ∷ []) true ≡ codes "t_a_b_key"
unfolding default_index_name codes
index_name = refl

concatenated :
    concatenate_queries
      (codes " select 1 " ∷ codes " " ∷ codes "select 2 -- two" ∷ codes "select 3" ∷ [])
      none
    ≡ codes "select 1;\nselect 2; -- two\nselect 3"
unfolding concatenate_queries codes is_space
concatenated = refl

-- Two hyphens inside a literal are taken for a comment, which changes the text of the literal.
hyphens_in_a_literal :
    concatenate_queries (codes "select 'a--b'" ∷ codes "select 3" ∷ []) none
    ≡ codes "select 'a; --b'\nselect 3"
unfolding concatenate_queries codes is_space
hyphens_in_a_literal = refl

abbrev no_settings : Table → List Text
no_settings t = []

publish_statements-writes_once_example :
    (ss : List Statement) × (publish_statements no_settings
        (generator postgres)
        (table_of TableType.view true)
        full_refresh
        none
      ≡ ok ss)
    × (written ss ≡ 1)
publish_statements-writes_once_example =
    publish_statements-writes_once no_settings (generator postgres) (table_of TableType.view true)
      full_refresh none MetadataType.view (unfold base_table_type in refl)

publish_statements-keeps_rows_example :
    (ss : List Statement) × (publish_statements no_settings
        (generator postgres)
        (table_of TableType.incremental false)
        full_refresh
        (stored_as MetadataType.table)
      ≡ ok ss)
    × (any drops_rows ss ≡ false)
publish_statements-keeps_rows_example =
    publish_statements-keeps_rows no_settings (generator postgres)
      (table_of TableType.incremental false) full_refresh (stored_as MetadataType.table) refl

abbrev yearly : Partition
yearly =
    partition PartitionKind.range (codes "d" ∷ [])
      (cons (codes "y1") (codes "in (1)")
        (sub (
          partition PartitionKind.list (codes "r" ∷ [])
            (cons (codes "eu") (codes "in (2)") no_sub nil) true))
        nil)
      true

create_child_partitions-IsNested_example :
    IsNested (orders ∷ []) (create_child_partitions orders (codes "t") yearly)
create_child_partitions-IsNested_example = create_child_partitions-IsNested orders yearly

abbrev drop_as : MetadataType → Relation → Answer
drop_as k none = leaves none
drop_as k (some r) = if metadata_beq r k then leaves none else refused

abbrev create_as : MetadataType → Relation → Answer
create_as k none = leaves (some k)
create_as k (some r) = refused

-- A warehouse with one relation.
abbrev one_relation : Statement → Relation → Answer
one_relation (drop_if_exists t k) r = drop_as k r
one_relation (drop_materialized_view t) r = drop_as MetadataType.materialized_view r
one_relation (create_table t) r = create_as MetadataType.table r
one_relation (create_view t) r = create_as MetadataType.view r
one_relation (create_materialized_view t) r = create_as MetadataType.materialized_view r
one_relation (create_partitioned t k columns) r = create_as MetadataType.table r
one_relation s r = leaves r

one_relation-IsWarehouse : (t : Table) → IsWarehouse one_relation t
one_relation-IsWarehouse t = record {
  runs_operation = λ s r. inl refl;
  drops_nothing = λ k. inl refl;
  drops_table = inl refl;
  drops_view = inl refl;
  drops_no_materialized_view = inl refl;
  drops_materialized_view = inl refl;
  refreshes = inl refl;
  creates_table = inl refl;
  creates_view = inl refl;
  creates_materialized_view = inl refl;
  indexes_key = inl refl;
  indexes = λ i k h. inl refl;
  inserts = λ columns. inl refl;
  upserts = λ columns. inl refl;
  drops_stage = λ r. inl refl;
  creates_stage = λ r. inl refl;
  creates_partitioned = λ k columns. inl refl;
  creates_partition = λ child parent values by. inl refl;
  creates_default = λ child parent. inl refl;
  inserts_partitioned = inl refl;
}

publish_statements-Allows_example :
    (ss : List Statement) × (publish_statements no_settings
        (generator postgres)
        (table_of TableType.incremental false)
        full_refresh
        (stored_as MetadataType.view)
      ≡ ok ss)
    × Allows (run_statements one_relation ss (some MetadataType.view)) (some MetadataType.table)
publish_statements-Allows_example =
    publish_statements-Allows (one_relation-IsWarehouse (table_of TableType.incremental false))
      no_settings (generator postgres) full_refresh (stored_as MetadataType.view) MetadataType.table
      (unfold base_table_type in refl) tt

-- A full refresh of a table on MySQL, which the configuration protects.
abbrev refreshed : List Mysql.Statement
refreshed =
    Mysql.operation (codes "set x")
    ∷ Mysql.drop_if_exists orders MetadataType.table
    ∷ Mysql.create_table (table_of TableType.incremental false)
    ∷ Mysql.create_key_index (table_of TableType.incremental false)
    ∷ []

published_refreshed :
    MysqlPrint.publish_statements
      (generator mysql)
      (table_of TableType.incremental false)
      full_refresh
      (stored_as MetadataType.table)
    ≡ ok refreshed
unfolding MysqlPrint.publish_statements
published_refreshed = refl

publish_statements-drops_example :
    any MysqlWriting.drops_rows refreshed
    ≡ (full_refresh.full_refresh || not (MysqlWriting.is_stored (stored_as MetadataType.table)))
publish_statements-drops_example =
    publish_statements-drops (generator mysql) (table_of TableType.incremental false) full_refresh
      (stored_as MetadataType.table) refreshed refl published_refreshed

bare_column : MysqlPrint.index_column_sql (codes "body (50)") ≡ codes "`body`(50)"
unfolding MysqlPrint.index_column_sql codes is_space is_digit
bare_column = refl

-- The texts to evaluate are not trimmed, so a blank one is kept.
blank_query :
    collect_evaluation_queries (query (codes " ")) false (λ q. q)
    ≡ record { query = codes " "; incremental = false } ∷ []
unfolding collect_evaluation_queries codes
blank_query = refl
