-- ===== src/ExecSql/Nonempty.antt =====
-- cli/api/dbadapters/execution_sql.ts: a table that is not disabled has tasks, on every warehouse.
use sqlanvil.Base.{
  Text, Option, none, some, List, [], ◌∷◌, ◌++◌, map, ◌≡◌, ◌≢◌, refl, subst, sym, ◌∙◌, arith,
}
use sqlanvil.CompilationSql.{Warehouse, postgres, supabase, mysql, bigquery}
use sqlanvil.ExecSql.Types.{
  Table, TableType, MetadataType, Partition, partition, TableMetadata, Generator, ok,
  base_table_type,
}
use sqlanvil.ExecSql.Results.{bind-ok, ok-injective}
use sqlanvil.ExecSql.Tasks.{Task, concatenate}
use sqlanvil.ExecSql.Postgres.{
  RunConfig, publish_statements, publish_body, publish_incremental, publish_view, publish_table,
  create_fresh, create_partitioned_table_tasks, partition_of, pre_ops, drop_other_type,
}
use sqlanvil.ExecSql.Postgres.Print as PostgresPrint
use sqlanvil.ExecSql.Postgres.Writing.{all_statements, publish_statements-ok}
use sqlanvil.ExecSql.Supabase.{publish_supabase, effective_table, after_created}
use sqlanvil.ExecSql.Mysql as Mysql
use sqlanvil.ExecSql.Mysql.Print as MysqlPrint
use sqlanvil.ExecSql.Bigquery as Bigquery
use sqlanvil.ExecSql.Bigquery.Print as BigqueryPrint
use sqlanvil.ExecSql.Dispatch.{publish_tasks, no_extras}

map-ne-nil {ℓ κ} : {A : Type ℓ} {B : Type κ} (f : A → B) (xs : List A) → xs ≢ [] → map f xs ≢ []
map-ne-nil f [] h e = h refl
map-ne-nil f (x ∷ xs) h e = ground (arith, e)

append-ne-nil {ℓ} : {A : Type ℓ} (xs ys : List A) → ys ≢ [] → xs ++ ys ≢ []
append-ne-nil [] ys h e = h e
append-ne-nil (x ∷ xs) ys h e = ground (arith, e)

append-ne-nil_left {ℓ} : {A : Type ℓ} (xs ys : List A) → xs ≢ [] → xs ++ ys ≢ []
append-ne-nil_left [] ys h e = h refl
append-ne-nil_left (x ∷ xs) ys h e = ground (arith, e)

nonempty-fresh : (t : Table) (p : Option Partition) → create_fresh t p ≢ []
unfolding create_fresh create_partitioned_table_tasks
nonempty-fresh t none e = ground (arith, e)
nonempty-fresh t (some (partition kind columns bs d)) e = ground (arith, e)

nonempty-postgres_body :
    (after : Table → List Text) (type : TableType) (t : Table) (run : RunConfig)
    (m : Option TableMetadata)
    → publish_body after type t run m ≢ []
unfolding publish_body publish_incremental publish_view publish_table
nonempty-postgres_body after TableType.incremental t run m e = ground (arith, e)
nonempty-postgres_body after TableType.view t run m e = ground (arith, e)
nonempty-postgres_body after TableType.table t run m e =
    append-ne-nil_left (create_fresh t (partition_of t.postgres)) _ (nonempty-fresh t _) e
nonempty-postgres_body after TableType.unknown_type t run m e =
    append-ne-nil_left (create_fresh t (partition_of t.postgres)) _ (nonempty-fresh t _) e

nonempty-all_statements :
    (after : Table → List Text) (g : Generator) (t : Table) (run : RunConfig)
    (m : Option TableMetadata) (base : MetadataType)
    → all_statements after g t run m base ≢ []
unfolding all_statements
nonempty-all_statements after g t run m base =
    let body = publish_body after t.enum_type t run m in
    append-ne-nil (pre_ops g t run m) _ (
      append-ne-nil (drop_other_type t base m) _
        (append-ne-nil_left body _ (nonempty-postgres_body after t.enum_type t run m)))

nonempty-postgres :
    (after : Table → List Text) (g : Generator) (t : Table) (run : RunConfig)
    (m : Option TableMetadata) (tasks : List Task)
    → PostgresPrint.publish_tasks g after t run m ≡ ok tasks
    → tasks ≢ []
unfolding PostgresPrint.publish_tasks publish_statements
nonempty-postgres after g t run m tasks h =
    let (ss, made, e) = bind-ok (publish_statements after g t run m) _ tasks h in
    let (base, known, _) = bind-ok (base_table_type t.enum_type) _ ss made in
    let same : all_statements after g t run m base ≡ ss =
      ok-injective (sym (publish_statements-ok after g t run m base known) ∙ made) in
    let some_ = subst (λ r. r ≢ []) same (nonempty-all_statements after g t run m base) in
    subst (λ r. r ≢ []) (ok-injective e) (map-ne-nil _ ss some_)

nonempty-mysql_body :
    (type : TableType) (t : Table) (run : RunConfig) (m : Option TableMetadata)
    (indexes : List Mysql.Statement)
    → Mysql.publish_body type t run m indexes ≢ []
unfolding Mysql.publish_body
nonempty-mysql_body TableType.view t run m indexes e = ground (arith, e)
nonempty-mysql_body TableType.incremental t run m indexes e = ground (arith, e)
nonempty-mysql_body TableType.table t run m indexes e = ground (arith, e)
nonempty-mysql_body TableType.unknown_type t run m indexes e = ground (arith, e)

nonempty-mysql :
    (g : Generator) (t : Table) (run : RunConfig) (m : Option TableMetadata) (tasks : List Task)
    → MysqlPrint.publish_tasks g t run m ≡ ok tasks
    → tasks ≢ []
unfolding MysqlPrint.publish_tasks MysqlPrint.publish_statements
nonempty-mysql g t run m tasks h =
    let (ss, made, e) = bind-ok (MysqlPrint.publish_statements g t run m) _ tasks h in
    let (indexes, _, published) =
      bind-ok (MysqlPrint.create_indexes t (MysqlPrint.made_indexes g t run m)) _ ss made in
    let body = nonempty-mysql_body t.enum_type t run m indexes in
    let some_ : ss ≢ [] =
      subst (λ r. r ≢ []) (ok-injective published)
        (append-ne-nil (Mysql.pre_ops g t run m) _
          (append-ne-nil_left _ (Mysql.post_ops g t run m) body)) in
    subst (λ r. r ≢ []) (ok-injective e) (map-ne-nil _ ss some_)

nonempty-bigquery :
    (g : Generator) (t : Table) (run : RunConfig) (m : Option TableMetadata) (tasks : List Task)
    → BigqueryPrint.publish_tasks g t run m ≡ ok tasks
    → tasks ≢ []
unfolding BigqueryPrint.publish_tasks concatenate
nonempty-bigquery g t run m tasks h none_ =
    let (ss, _, printed) = bind-ok (Bigquery.publish_statements g t run m) _ tasks h in
    let (texts, _, e) = bind-ok (BigqueryPrint.print_all g ss) _ tasks printed in
    ground (arith, ok-injective e ∙ none_)

-- A table that is published has a task.
pub publish_tasks-ne-nil :
    (w : Warehouse) (g : Generator) (t : Table) (run : RunConfig) (m : Option TableMetadata)
    (tasks : List Task)
    → publish_tasks w g t run m ≡ ok tasks
    → tasks ≢ []
unfolding publish_tasks publish_supabase
publish_tasks-ne-nil postgres g t run m tasks h = nonempty-postgres no_extras g t run m tasks h
publish_tasks-ne-nil supabase g t run m tasks h =
    nonempty-postgres (after_created g) g (effective_table t) run m tasks h
publish_tasks-ne-nil mysql g t run m tasks h = nonempty-mysql g t run m tasks h
publish_tasks-ne-nil bigquery g t run m tasks h = nonempty-bigquery g t run m tasks h
