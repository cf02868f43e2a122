-- ===== src/ExecSql/Postgres/Writing.antt =====
-- cli/api/dbadapters/postgres_execution_sql.ts: which statements drop or write the model's rows.
use sqlanvil.Base.{
  ℕ, ◌+◌, Text, Option, none, some, Bool, true, false, not, ◌&&◌, ◌||◌, if◌then◌else◌, List, [],
  ◌∷◌, ◌++◌, map, length, filter_by, any, any-append, filter_by-append, length-append, Bool-cases,
  inl, inr, ◌≡◌, refl, arith,
}
use sqlanvil.Targets.{Target}
use sqlanvil.ExecSql.Types.{
  PostgresOptions, metadata_beq, TableType, MetadataType, TableMetadata, Partition, partition,
  Bounds, nil, cons, SubPartition, no_sub, sub, Index, Table, Generator, ok, base_table_type,
}
use sqlanvil.ExecSql.Postgres.{
  Statement, operation, drop_if_exists, drop_materialized_view, refresh_materialized_view,
  create_table, create_materialized_view, create_index, insert_into, upsert_into,
  insert_partitioned, RunConfig, should_write_incrementally, pre_ops, post_ops,
  create_child_partitions, create_bounds, create_below, default_partition, create_indexes,
  partition_of, after_table_created, options_indexes, key_index, create_partitioned_table_tasks,
  create_fresh, publish_body, publish_incremental, publish_view, publish_table, drop_other_type,
  publish_statements, runs_incremental_ops, opposite_table_type,
}

-- A statement of the generator that drops stored rows of the model.
abbrev pub drops_rows : Statement → Bool
drops_rows (drop_if_exists t MetadataType.table) = true
drops_rows (drop_materialized_view t) = true
drops_rows _ = false

-- The options that leave a new materialized view without rows.
abbrev pub has_no_data : Option PostgresOptions → Bool
has_no_data none = false
has_no_data (some o) = o.no_data

-- A statement of the generator that runs the model's query and stores its rows.
abbrev pub writes_rows : Statement → Bool
writes_rows (create_table t) = true
writes_rows (create_materialized_view t) = not (has_no_data t.postgres)
writes_rows (refresh_materialized_view t) = true
writes_rows (insert_into t columns) = true
writes_rows (upsert_into t columns) = true
writes_rows (insert_partitioned t) = true
writes_rows _ = false

-- A materialized view that is refreshed where it stands.
abbrev pub is_refreshed : Table → RunConfig → Option TableMetadata → Bool
is_refreshed t run none = false
is_refreshed t run (some m) =
    not run.full_refresh
    && (elim t.postgres [ none ↦ false | some o ↦ o.on_dependency_change ])
    && metadata_beq m.type MetadataType.materialized_view

-- How often a publication stores rows: not for a view, nor for a materialized view that is created
-- without data, and else once.
abbrev pub times_stored : TableType → Table → RunConfig → Option TableMetadata → ℕ
times_stored TableType.view t run m =
    if t.materialized && (is_refreshed t run m || not (has_no_data t.postgres)) then 1 else 0
times_stored _ t run m = 1

-- The warehouse has a relation of the name that is no view.
abbrev pub is_stored : Option TableMetadata → Bool
is_stored none = false
is_stored (some m) = not (metadata_beq m.type MetadataType.view)

abbrev pub written : List Statement → ℕ
written ss = length (filter_by writes_rows ss)

written-append : (xs ys : List Statement) → written (xs ++ ys) ≡ written xs + written ys
written-append xs ys =
    rw (filter_by-append writes_rows xs ys) (length-append (filter_by writes_rows xs) _)

written-operations : (ops : List Text) → written (map operation ops) ≡ 0
written-operations [] = refl
written-operations (x ∷ xs) = written-operations xs

written-indexes :
    (t : Table) (is : List Index) → written (map (λ (i : Index). create_index t i) is) ≡ 0
written-indexes t [] = refl
written-indexes t (x ∷ xs) = written-indexes t xs

drops-operations : (ops : List Text) → any drops_rows (map operation ops) ≡ false
drops-operations [] = refl
drops-operations (x ∷ xs) = drops-operations xs

drops-indexes :
    (t : Table) (is : List Index)
    → any drops_rows (map (λ (i : Index). create_index t i) is) ≡ false
drops-indexes t [] = refl
drops-indexes t (x ∷ xs) = drops-indexes t xs

written-default :
    (base : Target) (parent : Text) (d : Bool) → written (default_partition base parent d) ≡ 0
unfolding default_partition
written-default base parent true = refl
written-default base parent false = refl

mutual
  unfolding create_child_partitions

  written-bounds :
      (base : Target) (parent : Text) (b : Bounds) → written (create_bounds base parent b) ≡ 0
  written-bounds base parent nil = refl
  written-bounds base parent (cons name values below rest) = omega (
    arith,
    written-append (create_below base parent _ values below) (create_bounds base parent rest),
    written-below base parent _ values below,
    written-bounds base parent rest,
  )

  written-below :
      (base : Target) (parent child values : Text) (s : SubPartition)
      → written (create_below base parent child values s) ≡ 0
  written-below base parent child values no_sub = refl
  written-below base parent child values (sub (partition kind [] bs d)) = refl
  written-below base parent child values (sub (partition kind (c ∷ cs) bs d)) = omega (
    arith,
    written-append (create_bounds base child bs) (default_partition base child d),
    written-bounds base child bs,
    written-default base child d,
  )

written-children :
    (t : Target) (parent : Text) (p : Partition) → written (create_child_partitions t parent p) ≡ 0
unfolding create_child_partitions
written-children t parent (partition kind columns bs d) = omega (
  arith,
  written-append (create_bounds t parent bs) (default_partition t parent d),
  written-bounds t parent bs,
  written-default t parent d,
)

written-partitioned : (t : Table) (p : Partition) → written (create_partitioned_table_tasks t p) ≡ 1
unfolding create_partitioned_table_tasks
written-partitioned t (partition kind columns bs d) = omega (
  arith,
  written-append (create_child_partitions t.target t.target.name (partition kind columns bs d)) _,
  written-children t.target t.target.name (partition kind columns bs d),
)

written-fresh : (t : Table) (p : Option Partition) → written (create_fresh t p) ≡ 1
unfolding create_fresh
written-fresh t none = refl
written-fresh t (some p) = written-partitioned t p

module _ (after : Table → List Text) where
  written-extras : (t : Table) → written (create_indexes t ++ after_table_created after t) ≡ 0
  unfolding create_indexes
  written-extras t = omega (
    arith,
    written-append (create_indexes t) (after_table_created after t),
    written-indexes t (options_indexes t.postgres),
    written-operations (after t),
  )

  written-incremental :
      (t : Table) (run : RunConfig) (m : Option TableMetadata)
      → written (publish_incremental after t run m) ≡ 1
  unfolding publish_incremental
  written-incremental t run m = elim (Bool-cases (should_write_incrementally t run m)) [
    | inl incremental ↦ rw incremental (ground arith)
    | inr fresh ↦ rw fresh (
        ground (
          arith,
          written-extras t,
          written-append (key_index t) (create_indexes t ++ after_table_created after t),
        ))
  ]

  written-view :
      (t : Table) (run : RunConfig) (m : Option TableMetadata)
      → written (publish_view after t run m) ≡ times_stored TableType.view t run m
  unfolding publish_view create_indexes
  written-view t run none = ground (arith, written-indexes t (options_indexes t.postgres))
  written-view t run (some m) = ground (arith, written-indexes t (options_indexes t.postgres))

  written-table : (t : Table) → written (publish_table after t) ≡ 1
  unfolding publish_table
  written-table t = omega (
    arith,
    written-append (create_fresh t (partition_of t.postgres))
        (create_indexes t ++ after_table_created after t),
    written-fresh t (partition_of t.postgres),
    written-extras t,
  )

  written-body :
      (type : TableType) (t : Table) (run : RunConfig) (m : Option TableMetadata)
      → written (publish_body after type t run m) ≡ times_stored type t run m
  unfolding publish_body
  written-body TableType.incremental t run m = written-incremental t run m
  written-body TableType.view t run m = written-view t run m
  written-body TableType.table t run m = written-table t
  written-body TableType.unknown_type t run m = written-table t

  written-drop_other :
      (t : Table) (base : MetadataType) (m : Option TableMetadata)
      → written (drop_other_type t base m) ≡ 0
  unfolding drop_other_type
  written-drop_other t base none = refl
  written-drop_other t base (some m) = ground arith

  -- The statements that publish a table, once its type is known.
  unfoldable pub all_statements :
      Generator → Table → RunConfig → Option TableMetadata → MetadataType → List Statement
  all_statements g t run m base =
      pre_ops g t run m
      ++ (drop_other_type t base m
          ++ (publish_body after t.enum_type t run m ++ post_ops g t run m))

  pub publish_statements-ok :
      (g : Generator) (t : Table) (run : RunConfig) (m : Option TableMetadata) (base : MetadataType)
      → base_table_type t.enum_type ≡ ok base
      → publish_statements after g t run m ≡ ok (all_statements g t run m base)
  unfolding publish_statements all_statements
  publish_statements-ok g t run m base h = rw h refl

  -- A table whose type is known is published. Exactly one of the generated statements runs the
  -- model's query and stores its rows, whatever the run and the warehouse hold; but none does for a
  -- view, and none for a materialized view that is created without data and not refreshed in place.
  pub publish_statements-writes_once :
      (g : Generator) (t : Table) (run : RunConfig) (m : Option TableMetadata) (base : MetadataType)
      → base_table_type t.enum_type ≡ ok base
      → (ss : List Statement) × (publish_statements after g t run m ≡ ok ss)
        × (written ss ≡ times_stored t.enum_type t run m)
  unfolding all_statements pre_ops post_ops
  publish_statements-writes_once g t run m base h =
      let rest = publish_body after t.enum_type t run m ++ post_ops g t run m in
      (
        all_statements g t run m base,
        publish_statements-ok g t run m base h,
        omega (
          arith,
          written-append (pre_ops g t run m) (drop_other_type t base m ++ rest),
          written-append (drop_other_type t base m) rest,
          written-append (publish_body after t.enum_type t run m) (post_ops g t run m),
          written-operations
              (if runs_incremental_ops g t run m then t.incremental_pre_ops else t.pre_ops),
          written-operations
              (if runs_incremental_ops g t run m then t.incremental_post_ops else t.post_ops),
          written-drop_other t base m,
          written-body t.enum_type t run m,
        ),
      )

  drops-extras :
      (t : Table) → any drops_rows (create_indexes t ++ after_table_created after t) ≡ false
  unfolding create_indexes
  drops-extras t = ground (
    arith,
    any-append drops_rows (create_indexes t) (after_table_created after t),
    drops-indexes t (options_indexes t.postgres),
    drops-operations (after t),
  )

  drops-incremental :
      (t : Table) (run : RunConfig) (m : Option TableMetadata)
      → any drops_rows (publish_incremental after t run m)
        ≡ not (should_write_incrementally t run m)
  unfolding publish_incremental
  drops-incremental t run m = ground arith

  incremental-stored :
      (t : Table) (run : RunConfig) (m : Option TableMetadata)
      → not (should_write_incrementally t run m)
        ≡ (run.full_refresh && not t.protected || not (is_stored m))
  unfolding should_write_incrementally
  incremental-stored t run none = ground arith
  incremental-stored t run (some m) = ground arith

  -- An incremental table is published, and one of the statements drops stored rows exactly when the run
  -- is a full refresh and the table is not protected, or the warehouse has no relation of the name, or
  -- has a view there.
  pub publish_statements-keeps_rows :
      (g : Generator) (t : Table) (run : RunConfig) (m : Option TableMetadata)
      → t.enum_type ≡ TableType.incremental
      → (ss : List Statement) × (publish_statements after g t run m ≡ ok ss)
        × (any drops_rows ss ≡ (run.full_refresh && not t.protected || not (is_stored m)))
  unfolding all_statements pre_ops post_ops drop_other_type publish_body opposite_table_type
      base_table_type
  publish_statements-keeps_rows g t run m h =
      let rest = publish_body after t.enum_type t run m ++ post_ops g t run m in
      (
        all_statements g t run m MetadataType.table,
        publish_statements-ok g t run m MetadataType.table (rw h refl),
        ground (
          arith,
          h,
          any-append drops_rows (pre_ops g t run m)
              (drop_other_type t MetadataType.table m ++ rest),
          any-append drops_rows (drop_other_type t MetadataType.table m) rest,
          any-append drops_rows (publish_body after t.enum_type t run m) (post_ops g t run m),
          drops-operations
              (if runs_incremental_ops g t run m then t.incremental_pre_ops else t.pre_ops),
          drops-operations
              (if runs_incremental_ops g t run m then t.incremental_post_ops else t.post_ops),
          drops-incremental t run m,
          incremental-stored t run m,
        ),
      )
