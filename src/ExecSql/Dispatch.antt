-- ===== src/ExecSql/Dispatch.antt =====
-- cli/api/dbadapters/execution_sql.ts: the generator of the project's warehouse, and the queries that
-- evaluate an action.
use sqlanvil.Base.{
  Text, Option, some, Bool, true, false, if◌then◌else◌, List, [], ◌∷◌, ◌++◌, map, filter_by,
}
use sqlanvil.CompilationSql.{Warehouse, postgres, supabase, mysql, bigquery}
use sqlanvil.ExecSql.Types.{
  Table, TableMetadata, Operation, Assertion, Export, Import, Generator, Result, ok, is_incremental,
}
use sqlanvil.ExecSql.Tasks.{Task, statement_task, is_not_empty, concatenate_queries}
use sqlanvil.ExecSql.Postgres.{RunConfig}
use sqlanvil.ExecSql.Postgres.Print as PostgresPrint
use sqlanvil.ExecSql.Supabase.{publish_supabase}
use sqlanvil.ExecSql.Mysql.Print as MysqlPrint
use sqlanvil.ExecSql.Bigquery.Print as BigqueryPrint

abbrev pub no_extras : Table → List Text
no_extras t = []

-- `publishTasks`
unfoldable pub publish_tasks :
    Warehouse → Generator → Table → RunConfig → Option TableMetadata → Result (List Task)
unfolding publish_supabase
publish_tasks postgres g t run m = PostgresPrint.publish_tasks g no_extras t run m
publish_tasks supabase g t run m = publish_supabase g t run m
publish_tasks mysql g t run m = MysqlPrint.publish_tasks g t run m
publish_tasks bigquery g t run m = BigqueryPrint.publish_tasks g t run m

unfoldable pub assert_tasks : Generator → Assertion → List Task
assert_tasks g a = elim g.warehouse [
  | mysql ↦ MysqlPrint.assert_tasks g a
  | bigquery ↦ BigqueryPrint.assert_tasks g a
  | _ ↦ PostgresPrint.assert_tasks g a
]

unfoldable pub export_tasks : Generator → Export → Result (List Task)
export_tasks g e = elim g.warehouse [
  | mysql ↦ MysqlPrint.create_export_tasks e
  | bigquery ↦ ok (BigqueryPrint.create_export_tasks g e)
  | _ ↦ ok (PostgresPrint.create_export_tasks e)
]

unfoldable pub import_tasks : Generator → Import → Result (List Task)
import_tasks g i = elim g.warehouse [
  | mysql ↦ MysqlPrint.create_import_tasks i
  | bigquery ↦ ok (BigqueryPrint.create_import_tasks g i)
  | _ ↦ ok (PostgresPrint.create_import_tasks i)
]

unfoldable pub validation_stub_sql : Generator → Table → Text
validation_stub_sql g t = elim g.warehouse [
  | mysql ↦ MysqlPrint.validation_stub_sql g t
  | bigquery ↦ BigqueryPrint.validation_stub_sql g t
  | _ ↦ PostgresPrint.validation_stub_sql g t
]

unfoldable pub create_schema_sql : Generator → Text → Text
create_schema_sql g schema = elim g.warehouse [
  | mysql ↦ MysqlPrint.create_schema_sql schema
  | bigquery ↦ BigqueryPrint.create_schema_sql g schema
  | _ ↦ PostgresPrint.create_schema_sql schema
]

unfoldable pub drop_schema_cascade_sql : Generator → Text → Text
drop_schema_cascade_sql g schema = elim g.warehouse [
  | mysql ↦ MysqlPrint.drop_schema_cascade_sql schema
  | bigquery ↦ BigqueryPrint.drop_schema_cascade_sql g schema
  | _ ↦ PostgresPrint.drop_schema_cascade_sql schema
]

-- `createTableTasks`, `createOperationTasks`, `createExportTasks`, `createImportTasks` and
-- `createAssertionTasks`: a disabled action has no tasks.
unfoldable pub create_table_tasks :
    Generator → Table → RunConfig → Option TableMetadata → Result (List Task)
unfolding publish_tasks
create_table_tasks g t run m = if t.disabled then ok [] else publish_tasks g.warehouse g t run m

unfoldable pub create_operation_tasks : Operation → List Task
create_operation_tasks o = if o.disabled then [] else map statement_task o.queries

unfoldable pub create_export_tasks : Generator → Export → Result (List Task)
unfolding export_tasks
create_export_tasks g e = if e.disabled then ok [] else export_tasks g e

unfoldable pub create_import_tasks : Generator → Import → Result (List Task)
unfolding import_tasks
create_import_tasks g i = if i.disabled then ok [] else import_tasks g i

unfoldable pub create_assertion_tasks : Generator → Assertion → List Task
unfolding assert_tasks
create_assertion_tasks g a = if a.disabled then [] else assert_tasks g a

-- `QueryOrAction` and `IValidationQuery`
pub data QueryOrAction : Type 0 where
  query : Text → QueryOrAction
  table : Table → QueryOrAction
  operation : Operation → QueryOrAction
  assertion : Assertion → QueryOrAction

pub record ValidationQuery : Type 0 where
  pub query : Text
  pub incremental : Bool

abbrev pub with_flag : Bool → Text → ValidationQuery
with_flag incremental text = record { query = text; incremental = incremental }

-- Queries as one, concatenated, or one by one.
unfoldable pub queries_of : Bool → (Text → Text) → Bool → List Text → List ValidationQuery
unfolding concatenate_queries
queries_of concatenate modifier incremental qs =
    if concatenate
    then with_flag incremental (concatenate_queries qs (some modifier)) ∷ []
    else map (λ q. with_flag incremental (modifier q)) qs

unfoldable pub all_queries : QueryOrAction → Bool → (Text → Text) → List ValidationQuery
unfolding queries_of
all_queries (query q) concatenate modifier = with_flag false (modifier q) ∷ []
all_queries (table t) concatenate modifier =
    (if is_incremental t.enum_type
      then queries_of concatenate modifier true
          (t.incremental_pre_ops ++ (t.incremental_query ∷ t.incremental_post_ops))
      else [])
    ++ queries_of concatenate modifier false (t.pre_ops ++ (t.query ∷ t.post_ops))
all_queries (operation o) concatenate modifier = queries_of concatenate modifier false o.queries
all_queries (assertion a) concatenate modifier = with_flag false (modifier a.query) ∷ []

-- `collectEvaluationQueries`. In its last `map` the spread puts the query back that was trimmed, so
-- the texts stay as they are, and the filter drops empty ones only.
unfoldable pub collect_evaluation_queries :
    QueryOrAction → Bool → (Text → Text) → List ValidationQuery
unfolding all_queries
collect_evaluation_queries a concatenate modifier =
    filter_by (λ (q : ValidationQuery). is_not_empty q.query) (all_queries a concatenate modifier)
