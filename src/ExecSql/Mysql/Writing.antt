-- ===== src/ExecSql/Mysql/Writing.antt =====
-- cli/api/dbadapters/mysql_execution_sql.ts: which statements drop the model's rows.
use sqlanvil.Base.{
  Text, Option, none, some, Bool, true, false, not, ◌||◌, List, [], ◌∷◌, ◌++◌, map, any, any-append,
  ◌≡◌, refl, arith, if◌then◌else◌,
}
use sqlanvil.ExecSql.Types.{
  TableType, MetadataType, TableMetadata, Table, MysqlIndex, Generator, ok, metadata_beq,
}
use sqlanvil.ExecSql.Results.{bind-ok, ok-injective}
use sqlanvil.ExecSql.Postgres.{RunConfig}
use sqlanvil.ExecSql.Mysql.{
  Statement, operation, drop_if_exists, should_write_incrementally, runs_incremental_ops, pre_ops,
  post_ops, publish_body,
}
use sqlanvil.ExecSql.Mysql.Print.{create_indexes, index_prefix, made_indexes, publish_statements}

abbrev pub drops_rows : Statement → Bool
drops_rows (drop_if_exists t MetadataType.table) = true
drops_rows _ = false

-- The warehouse holds the object as a table.
abbrev pub is_stored : Option TableMetadata → Bool
is_stored none = false
is_stored (some m) = metadata_beq m.type MetadataType.table

drops-operations : (ops : List Text) → any drops_rows (map operation ops) ≡ false
drops-operations [] = refl
drops-operations (x ∷ xs) = drops-operations xs

drops-create_indexes :
    (t : Table) (is : List MysqlIndex) (ss : List Statement)
    → create_indexes t is ≡ ok ss
    → any drops_rows ss ≡ false
unfolding create_indexes
drops-create_indexes t [] ss h = ground (arith, h)
drops-create_indexes t (i ∷ is) ss h =
    let (_, _, rest) = bind-ok (index_prefix i) _ ss h in
    let (others, made, e) = bind-ok (create_indexes t is) _ ss rest in
    ground (arith, ok-injective e, drops-create_indexes t is others made)

drops-incremental :
    (t : Table) (run : RunConfig) (m : Option TableMetadata) (indexes : List Statement)
    → any drops_rows indexes ≡ false
    → any drops_rows (publish_body TableType.incremental t run m indexes)
      ≡ (run.full_refresh || not (is_stored m))
unfolding publish_body should_write_incrementally
drops-incremental t run none indexes h = ground arith
drops-incremental t run (some m) indexes h = ground (arith, h)

-- An incremental table on MySQL loses its rows exactly when the run is a full refresh or the object
-- is not stored as a table. Whether the table is protected plays no part.
pub publish_statements-drops :
    (g : Generator) (t : Table) (run : RunConfig) (m : Option TableMetadata) (ss : List Statement)
    → t.enum_type ≡ TableType.incremental
    → publish_statements g t run m ≡ ok ss
    → any drops_rows ss ≡ (run.full_refresh || not (is_stored m))
unfolding publish_statements pre_ops post_ops
publish_statements-drops g t run m ss h e =
    let (indexes, made, published) = bind-ok (create_indexes t (made_indexes g t run m)) _ ss e in
    let body = publish_body t.enum_type t run m indexes in
    ground (
      arith,
      h,
      ok-injective published,
      any-append drops_rows (pre_ops g t run m) (body ++ post_ops g t run m),
      any-append drops_rows body (post_ops g t run m),
      drops-operations
          (if runs_incremental_ops g t run m then t.incremental_pre_ops else t.pre_ops),
      drops-operations
          (if runs_incremental_ops g t run m then t.incremental_post_ops else t.post_ops),
      drops-incremental t run m indexes
          (drops-create_indexes t (made_indexes g t run m) indexes made),
    )
