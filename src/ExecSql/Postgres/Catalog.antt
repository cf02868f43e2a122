-- ===== src/ExecSql/Postgres/Catalog.antt =====
-- cli/api/dbadapters/postgres_execution_sql.ts: what the statements of a plain publication do to the
-- relation of that name in the warehouse, which is a parameter here.
pub mod Publishing
use sqlanvil.Base.{
  Text, Option, none, some, Bool, true, false, not, List, [], ◌∷◌, ◌++◌, map, ◌≡◌, refl, ap,
  append_assoc, arith, if◌then◌else◌, Bool-cases, Option-cases, inl, inr, ◌≢◌, ◌⊎◌,
}
use sqlanvil.Targets.{Target}
use sqlanvil.ExecSql.Types.{
  TableType, MetadataType, TableMetadata, Partition, partition, Bounds, nil, cons, SubPartition,
  no_sub, sub, PartitionKind, Index, Table, Generator, Result, ok, error, base_table_type,
  has_items, metadata_beq,
}
use sqlanvil.ExecSql.Postgres.{
  Statement, operation, drop_if_exists, drop_materialized_view, refresh_materialized_view,
  create_table, create_view, create_materialized_view, create_key_index, create_index, insert_into,
  upsert_into, drop_stage, create_stage, insert_partitioned, create_partitioned, create_partition,
  create_default, RunConfig, should_write_incrementally, pre_ops, post_ops, create_child_partitions,
  create_bounds, create_below, default_partition, create_indexes, create_partitioned_table_tasks,
  create_fresh, publish_body, publish_incremental, publish_view, publish_table, drop_other_type,
  publish_statements, after_table_created, options_indexes, key_index, refreshes_in_place,
  partition_of, opposite_table_type,
}
use sqlanvil.ExecSql.Postgres.Writing.{all_statements, publish_statements-ok}

-- The relation of a name: none, or its type.
abbrev pub Relation : Type 0
Relation = Option MetadataType

-- The warehouse's answer to a statement: what it leaves, a refusal because of the relation of the name
-- (it exists, or is of another type, or does not exist), or a failure of any other kind (of the query,
-- the data, a missing index, the user's operation).
pub data Answer : Type 0 where
  leaves : Relation → Answer
  refused failed : Answer

-- The statement leaves `q`, if nothing else fails.
abbrev pub Allows : Answer → Relation → Type 0
Allows answer q = (answer ≡ leaves q) ⊎ (answer ≡ failed)

-- What Postgres documents of the statements and the type of the relation of `t`. Operations are the
-- user's; here they leave that type alone.
pub record IsWarehouse (apply : Statement → Relation → Answer) (t : Table) : Type 0 where
  pub runs_operation : (s : Text) (r : Relation) → Allows (apply (operation s) r) r
  pub drops_nothing : (k : MetadataType) → Allows (apply (drop_if_exists t.target k) none) none
  pub drops_table :
      Allows (apply (drop_if_exists t.target MetadataType.table) (some MetadataType.table)) none
  pub drops_view :
      Allows (apply (drop_if_exists t.target MetadataType.view) (some MetadataType.view)) none
  pub drops_no_materialized_view : Allows (apply (drop_materialized_view t.target) none) none
  pub drops_materialized_view :
      Allows (apply (drop_materialized_view t.target) (some MetadataType.materialized_view)) none
  pub refreshes :
      Allows
        (apply (refresh_materialized_view t.target) (some MetadataType.materialized_view))
        (some MetadataType.materialized_view)
  pub creates_table : Allows (apply (create_table t) none) (some MetadataType.table)
  pub creates_view : Allows (apply (create_view t) none) (some MetadataType.view)
  pub creates_materialized_view :
      Allows (apply (create_materialized_view t) none) (some MetadataType.materialized_view)
  pub indexes_key :
      Allows (apply (create_key_index t) (some MetadataType.table)) (some MetadataType.table)
  pub indexes :
      (i : Index) (k : MetadataType)
      → k ≢ MetadataType.view
      → Allows (apply (create_index t i) (some k)) (some k)
  pub inserts :
      (columns : List Text)
      → Allows (apply (insert_into t columns) (some MetadataType.table)) (some MetadataType.table)
  pub upserts :
      (columns : List Text)
      → Allows (apply (upsert_into t columns) (some MetadataType.table)) (some MetadataType.table)
  pub drops_stage : (r : Relation) → Allows (apply (drop_stage t) r) r
  pub creates_stage : (r : Relation) → Allows (apply (create_stage t) r) r
  pub creates_partitioned :
      (k : PartitionKind) (columns : List Text)
      → Allows (apply (create_partitioned t k columns) none) (some MetadataType.table)
  pub creates_partition :
      (child parent : Target) (values : Text) (by : Option (PartitionKind × List Text))
      → Allows
          (apply (create_partition child parent values by) (some MetadataType.table))
          (some MetadataType.table)
  pub creates_default :
      (child parent : Target)
      → Allows
          (apply (create_default child parent) (some MetadataType.table))
          (some MetadataType.table)
  pub inserts_partitioned :
      Allows (apply (insert_partitioned t) (some MetadataType.table)) (some MetadataType.table)

-- The statements one after another, each allowed by the relation that those before it leave.
pub data Runs (apply : Statement → Relation → Answer)
    : List Statement → Relation → Relation → Type 0 where
  done : {r : Relation} → Runs apply [] r r
  step :
      {s : Statement} {ss : List Statement} {r q p : Relation}
      → Allows (apply s r) q
      → Runs apply ss q p
      → Runs apply (s ∷ ss) r p

-- A run of the statements, up to the first that does not succeed.
unfoldable pub run_statements : (Statement → Relation → Answer) → List Statement → Relation → Answer
run_statements apply [] r = leaves r
run_statements apply (s ∷ ss) r = elim (apply s r) [
  | leaves q ↦ run_statements apply ss q
  | refused ↦ refused
  | failed ↦ failed
]

pub run_statements-Runs :
    {apply : Statement → Relation → Answer} {ss : List Statement} {r p : Relation}
    → Runs apply ss r p
    → Allows (run_statements apply ss r) p
unfolding run_statements
run_statements-Runs done = inl refl
run_statements-Runs (step (inl e) h) = rw (run_statements, e) (run_statements-Runs h)
run_statements-Runs (step (inr e) h) = rw (run_statements, e) (inr refl)

pub Runs-append :
    {apply : Statement → Relation → Answer} {xs ys : List Statement} {r q p : Relation}
    → Runs apply xs r q
    → Runs apply ys q p
    → Runs apply (xs ++ ys) r p
Runs-append done hy = hy
Runs-append (step e hx) hy = step e (Runs-append hx hy)

pub Runs-assoc :
    {apply : Statement → Relation → Answer} (xs ys zs : List Statement) {r q p : Relation}
    → Runs apply (xs ++ ys) r q
    → Runs apply zs q p
    → Runs apply (xs ++ (ys ++ zs)) r p
Runs-assoc xs ys zs h hz = rw⁻¹ (append_assoc xs ys zs) (Runs-append h hz)

-- The type that a published table has.
abbrev pub published : Bool → TableType → MetadataType
published true TableType.view = MetadataType.materialized_view
published false TableType.view = MetadataType.view
published _ _ = MetadataType.table

abbrev pub relation_of : Option TableMetadata → Relation
relation_of none = none
relation_of (some m) = some m.type

abbrev pub IsTableOrView : Relation → Type 0
IsTableOrView none = Unit
IsTableOrView (some MetadataType.table) = Unit
IsTableOrView (some MetadataType.view) = Unit
IsTableOrView (some _) = ⊥

pub TableOrView-cases :
    (k : MetadataType) → IsTableOrView (some k) → (k ≡ MetadataType.table) ⊎ (k ≡ MetadataType.view)
TableOrView-cases MetadataType.table h = inl refl
TableOrView-cases MetadataType.view h = inr refl
TableOrView-cases MetadataType.unknown h = absurd h
TableOrView-cases MetadataType.materialized_view h = absurd h

-- What a publication can take the place of: a materialized view only of its like, a table or a view
-- of either.
abbrev pub IsReplaceable : Bool → TableType → Relation → Type 0
IsReplaceable stored TableType.unknown_type r = ⊥
IsReplaceable false TableType.view r = IsTableOrView r
IsReplaceable false TableType.table r = IsTableOrView r
IsReplaceable false TableType.incremental r = IsTableOrView r
IsReplaceable true TableType.table r = ⊥
IsReplaceable true TableType.incremental r = ⊥
IsReplaceable true TableType.view none = Unit
IsReplaceable true TableType.view (some MetadataType.materialized_view) = Unit
IsReplaceable true TableType.view (some _) = ⊥

pub Replaceable-materialized :
    (k : MetadataType)
    → IsReplaceable true TableType.view (some k)
    → k ≡ MetadataType.materialized_view
Replaceable-materialized MetadataType.materialized_view h = refl
Replaceable-materialized MetadataType.table h = absurd h
Replaceable-materialized MetadataType.view h = absurd h
Replaceable-materialized MetadataType.unknown h = absurd h

-- What stands in the way of a publication once a relation of the other type is dropped.
abbrev pub left_over : MetadataType → Relation → Relation
left_over base none = none
left_over base (some k) = if metadata_beq k base then some k else none

module _ {apply : Statement → Relation → Answer} {t : Table} (w : IsWarehouse apply t) where
  abbrev Keeps : List Statement → MetadataType → Type 0
  Keeps ss k = Runs apply ss (some k) (some k)

  pub Runs-operations : (ops : List Text) (r : Relation) → Runs apply (map operation ops) r r
  Runs-operations [] r = done
  Runs-operations (x ∷ xs) r = step (w.runs_operation x r) (Runs-operations xs r)

  pub keeps_indexes :
      (is : List Index) (k : MetadataType)
      → k ≢ MetadataType.view
      → Keeps (map (λ (i : Index). create_index t i) is) k
  keeps_indexes [] k h = done
  keeps_indexes (i ∷ is) k h = step (w.indexes i k h) (keeps_indexes is k h)

  keeps_default :
      (base : Target) (parent : Text) (d : Bool)
      → Keeps (default_partition base parent d) MetadataType.table
  unfolding default_partition
  keeps_default base parent true = step (w.creates_default _ _) done
  keeps_default base parent false = done

  mutual
    unfolding create_child_partitions

    keeps_bounds :
        (base : Target) (parent : Text) (b : Bounds)
        → Keeps (create_bounds base parent b) MetadataType.table
    keeps_bounds base parent nil = done
    keeps_bounds base parent (cons name values below rest) =
        Runs-append (keeps_below base parent _ values below) (keeps_bounds base parent rest)

    keeps_below :
        (base : Target) (parent child values : Text) (s : SubPartition)
        → Keeps (create_below base parent child values s) MetadataType.table
    keeps_below base parent child values no_sub = step (w.creates_partition _ _ _ _) done
    keeps_below base parent child values (sub (partition kind [] bs d)) =
        step (w.creates_partition _ _ _ _) done
    keeps_below base parent child values (sub (partition kind (c ∷ cs) bs d)) =
        step (w.creates_partition _ _ _ _)
          (Runs-append (keeps_bounds base child bs) (keeps_default base child d))

  pub table≢view : MetadataType.table ≢ MetadataType.view
  table≢view h = ground (arith, h)

  -- The drop and creation of a table, with partitions or without, where it can be dropped.
  pub creates_fresh :
      (p : Option Partition) (r : Relation)
      → Allows (apply (drop_if_exists t.target MetadataType.table) r) none
      → Runs apply (create_fresh t p) r (some MetadataType.table)
  unfolding create_fresh create_partitioned_table_tasks create_child_partitions
  creates_fresh none r h = step h (step w.creates_table done)
  creates_fresh (some (partition kind columns bs d)) r h = step (w.drops_stage r) (
      step (w.creates_stage r) (
        step h (
          step (w.creates_partitioned kind columns) (
            Runs-append
              (Runs-append (keeps_bounds t.target t.target.name bs)
                (keeps_default t.target t.target.name d))
              (step w.inserts_partitioned (step (w.drops_stage _) done))))))
