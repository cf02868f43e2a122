-- ===== src/ExecSql/Postgres/Catalog/Publishing.antt =====
-- cli/api/dbadapters/postgres_execution_sql.ts: publishing over a relation of the warehouse.
use sqlanvil.Base.{
  Text, Option, none, some, Bool, true, false, List, [], ◌∷◌, ◌++◌, ◌≡◌, refl, ap, arith,
  Bool-cases, inl, inr,
}
use sqlanvil.ExecSql.Types.{
  TableType, MetadataType, TableMetadata, Table, Generator, ok, base_table_type, has_items,
  metadata_beq,
}
use sqlanvil.ExecSql.Postgres.{
  Statement, drop_if_exists, drop_materialized_view, refresh_materialized_view, create_view,
  create_materialized_view, RunConfig, should_write_incrementally, pre_ops, post_ops,
  create_indexes, publish_body, publish_incremental, publish_view, publish_table, drop_other_type,
  publish_statements, after_table_created, options_indexes, key_index, refreshes_in_place,
  partition_of, opposite_table_type,
}
use sqlanvil.ExecSql.Postgres.Writing.{all_statements, publish_statements-ok}
use sqlanvil.ExecSql.Postgres.Catalog.{
  Relation, Answer, Allows, run_statements, run_statements-Runs, IsWarehouse, Runs, done, step,
  Runs-append, Runs-assoc, published, relation_of, IsTableOrView, TableOrView-cases, IsReplaceable,
  Replaceable-materialized, left_over, Runs-operations, keeps_indexes, table≢view, creates_fresh,
}

module _ {apply : Statement → Relation → Answer} {t : Table} (w : IsWarehouse apply t) where
  abbrev Keeps : List Statement → MetadataType → Type 0
  Keeps ss k = Runs apply ss (some k) (some k)

  module _ (after : Table → List Text) where
    keeps_extras : Keeps (create_indexes t ++ after_table_created after t) MetadataType.table
    unfolding create_indexes
    keeps_extras =
        Runs-append (keeps_indexes w (options_indexes t.postgres) MetadataType.table (table≢view w))
          (Runs-operations w (after t) (some MetadataType.table))

    keeps_key_index : Keeps (key_index t) MetadataType.table
    keeps_key_index = elim (Bool-cases (has_items t.unique_key)) [
      | inl keyed ↦ rw keyed (step w.indexes_key done)
      | inr plain ↦ rw plain done
    ]

    -- What a body does to the relation that the drop of another type has left.
    publishes_incremental :
        (run : RunConfig) (m : Option TableMetadata) (r : Relation)
        → Allows (apply (drop_if_exists t.target MetadataType.table) r) none
        → (should_write_incrementally t run m ≡ true → r ≡ some MetadataType.table)
        → Runs apply (publish_incremental after t run m) r (some MetadataType.table)
    unfolding publish_incremental
    publishes_incremental run m r drops present =
        elim (Bool-cases (should_write_incrementally t run m)) [
          | inr fresh ↦
              rw fresh
                (step drops (step w.creates_table (Runs-append keeps_key_index keeps_extras)))
          | inl appends ↦
              rw (appends, present appends)
                (elim (Bool-cases (has_items t.unique_key)) [
                  | inl keyed ↦ rw keyed (step (w.upserts _) done)
                  | inr plain ↦ rw plain (step (w.inserts _) done)
                ])
        ]

  drops_same :
      (m : TableMetadata) (base : MetadataType)
      → metadata_beq m.type base ≡ true
      → Runs apply (drop_other_type t base (some m)) (some m.type) (left_over base (some m.type))
  unfolding drop_other_type
  drops_same m base same = rw same done

  drops_none :
      (m : Option TableMetadata) (base : MetadataType)
      → t.materialized ≡ true
      → drop_other_type t base m ≡ []
  unfolding drop_other_type
  drops_none none base stored = refl
  drops_none (some m) base stored = ground (arith, stored)

  drops_other :
      (m : TableMetadata) (base : MetadataType)
      → t.materialized ≡ false
      → metadata_beq m.type base ≡ false
      → Allows (apply (drop_if_exists t.target (opposite_table_type base)) (some m.type)) none
      → Runs apply (drop_other_type t base (some m)) (some m.type) (left_over base (some m.type))
  unfolding drop_other_type
  drops_other m base plain other drops = rw (other, plain) (step drops done)

  -- What the drop of an object of another type leaves.
  drops_other_type :
      (m : Option TableMetadata) (base : MetadataType)
      → t.materialized ≡ false
      → IsTableOrView (some base)
      → IsTableOrView (relation_of m)
      → Runs apply (drop_other_type t base m) (relation_of m) (left_over base (relation_of m))
  unfolding drop_other_type opposite_table_type
  drops_other_type none base plain kind found = done
  drops_other_type (some m) base plain kind found = elim (TableOrView-cases m.type found) [
    | inl stored ↦ elim (TableOrView-cases base kind) [
      | inl table ↦ drops_same m base (rw (stored, table) refl)
      | inr view ↦
          drops_other m base plain (rw (stored, view) refl) (rw (stored, view) w.drops_table)
    ]
    | inr seen ↦ elim (TableOrView-cases base kind) [
      | inl table ↦ drops_other m base plain (rw (seen, table) refl) (rw (seen, table) w.drops_view)
      | inr view ↦ drops_same m base (rw (seen, view) refl)
    ]
  ]

  module _ (after : Table → List Text) where
    plain_view :
        (run : RunConfig) (m : Option TableMetadata)
        → t.materialized ≡ false
        → publish_view after t run m
          ≡ drop_if_exists t.target MetadataType.view ∷ create_view t ∷ []
    unfolding publish_view
    plain_view run m plain = simp plain

    publishes_plain_view :
        (run : RunConfig) (m : Option TableMetadata)
        → t.materialized ≡ false
        → IsTableOrView (relation_of m)
        → Runs apply
            (publish_view after t run m)
            (left_over MetadataType.view (relation_of m))
            (some MetadataType.view)
    publishes_plain_view run none plain found =
        rw (plain_view run none plain) (step (w.drops_nothing _) (step w.creates_view done))
    publishes_plain_view run (some m) plain found =
        rw (plain_view run (some m) plain) (elim (TableOrView-cases m.type found) [
          | inl stored ↦ rw stored (step (w.drops_nothing _) (step w.creates_view done))
          | inr seen ↦ rw seen (step w.drops_view (step w.creates_view done))
        ])

    creates_anew :
        (run : RunConfig) (m : Option TableMetadata) (r : Relation)
        → refreshes_in_place t run m ≡ false
        → t.materialized ≡ true
        → Allows (apply (drop_materialized_view t.target) r) none
        → Runs apply (publish_view after t run m) r (some MetadataType.materialized_view)
    unfolding publish_view create_indexes
    creates_anew run m r anew stored drops =
        let made : publish_view after t run m
            ≡ drop_materialized_view t.target ∷ create_materialized_view t ∷ create_indexes t =
          simp (stored, anew) in
        rw made (
          step drops (
            step w.creates_materialized_view (
              keeps_indexes w (options_indexes t.postgres) MetadataType.materialized_view
                (λ h. ground (arith, h)))))

    refreshes_it :
        (run : RunConfig) (m : Option TableMetadata) (r : Relation)
        → r ≡ some MetadataType.materialized_view
        → refreshes_in_place t run m ≡ true
        → t.materialized ≡ true
        → Runs apply (publish_view after t run m) r (some MetadataType.materialized_view)
    unfolding publish_view
    refreshes_it run m r e again stored =
        let made : publish_view after t run m ≡ refresh_materialized_view t.target ∷ [] =
          simp (stored, again) in
        rw (made, e) (step w.refreshes done)

    publishes_materialized_view :
        (run : RunConfig) (m : Option TableMetadata)
        → t.materialized ≡ true
        → IsReplaceable true TableType.view (relation_of m)
        → Runs apply
            (publish_view after t run m)
            (relation_of m)
            (some MetadataType.materialized_view)
    publishes_materialized_view run none stored found =
        creates_anew run none none (ground arith) stored w.drops_no_materialized_view
    publishes_materialized_view run (some m) stored found =
        let e : m.type ≡ MetadataType.materialized_view = Replaceable-materialized m.type found in
        elim (Bool-cases (refreshes_in_place t run (some m))) [
          | inl again ↦ refreshes_it run (some m) _ (ap some e) again stored
          | inr anew ↦ creates_anew run (some m) _ anew stored (rw e w.drops_materialized_view)
        ]

    -- The drop of a table is accepted once nothing or a table is left.
    drops_left_over :
        (m : Option TableMetadata)
        → IsTableOrView (relation_of m)
        → Allows
            (apply
              (drop_if_exists t.target MetadataType.table)
              (left_over MetadataType.table (relation_of m)))
            none
    drops_left_over none found = w.drops_nothing _
    drops_left_over (some m) found = elim (TableOrView-cases m.type found) [
      | inl stored ↦ rw stored w.drops_table
      | inr seen ↦ rw seen (w.drops_nothing _)
    ]

    appends_to_table :
        (run : RunConfig) (m : Option TableMetadata)
        → IsTableOrView (relation_of m)
        → should_write_incrementally t run m ≡ true
        → left_over MetadataType.table (relation_of m) ≡ some MetadataType.table
    unfolding should_write_incrementally
    appends_to_table run none found appends = absurd (ground (arith, appends))
    appends_to_table run (some m) found appends = elim (TableOrView-cases m.type found) [
      | inl stored ↦ rw stored refl
      | inr seen ↦ absurd (ground (arith, appends, seen))
    ]

    -- The statements between the operations.
    publishes_body :
        (run : RunConfig) (m : Option TableMetadata) (type : TableType) (stored : Bool)
        (base : MetadataType)
        → t.materialized ≡ stored
        → base_table_type type ≡ ok base
        → IsReplaceable stored type (relation_of m)
        → Runs apply
            (drop_other_type t base m ++ publish_body after type t run m)
            (relation_of m)
            (some (published stored type))
    unfolding publish_body base_table_type publish_table
    publishes_body run m TableType.table true base e known found = absurd found
    publishes_body run m TableType.incremental true base e known found = absurd found
    publishes_body run m TableType.unknown_type stored base e known found = absurd found
    publishes_body run m TableType.view true base e known found =
        rw (drops_none m base e) (publishes_materialized_view run m e found)
    publishes_body run m TableType.view false base e known found =
        let b : MetadataType.view ≡ base = ground (arith, known) in
        rw⁻¹ b (
          Runs-append (drops_other_type m MetadataType.view e tt found)
            (publishes_plain_view run m e found))
    publishes_body run m TableType.table false base e known found =
        let b : MetadataType.table ≡ base = ground (arith, known) in
        rw⁻¹ b (
          Runs-append (drops_other_type m MetadataType.table e tt found) (
            Runs-append (creates_fresh w (partition_of t.postgres) _ (drops_left_over m found))
              (keeps_extras after)))
    publishes_body run m TableType.incremental false base e known found =
        let b : MetadataType.table ≡ base = ground (arith, known) in
        rw⁻¹ b (
          Runs-append (drops_other_type m MetadataType.table e tt found) (
            publishes_incremental after run m _ (drops_left_over m found)
              (appends_to_table run m found)))

    -- Publishing a table over a relation that it can take the place of is never refused because of the
    -- relation that the table's name has in the warehouse at that point: the statements leave a relation of
    -- the published type, or one of them fails for another reason. Here the warehouse answers as Postgres
    -- documents for the types of relations, and the user's operations leave the relation's type alone.
    pub publish_statements-Allows :
        (g : Generator) (run : RunConfig) (m : Option TableMetadata) (base : MetadataType)
        → base_table_type t.enum_type ≡ ok base
        → IsReplaceable t.materialized t.enum_type (relation_of m)
        → (ss : List Statement) × (publish_statements after g t run m ≡ ok ss)
          × Allows
              (run_statements apply ss (relation_of m))
              (some (published t.materialized t.enum_type))
    unfolding all_statements pre_ops post_ops
    publish_statements-Allows g run m base known found = (
      all_statements after g t run m base,
      publish_statements-ok after g t run m base known,
      run_statements-Runs (
          Runs-append (Runs-operations w _ (relation_of m)) (
            Runs-assoc (drop_other_type t base m) (publish_body after t.enum_type t run m)
              (post_ops g t run m)
              (publishes_body run m t.enum_type t.materialized base refl known found)
              (Runs-operations w _ _))),
    )
