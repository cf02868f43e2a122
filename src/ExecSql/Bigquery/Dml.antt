-- ===== src/ExecSql/Bigquery/Dml.antt =====
-- cli/api/dbadapters/bigquery_execution_sql.ts: the statements that an incremental append runs.
use sqlanvil.Base.{
  Text, text_eq, Option, none, some, if◌then◌else◌, List, [], ◌∷◌, ◌++◌, map, filter_by, codes,
  template, joined,
}
use sqlanvil.CompilationSql.{in_quotes}
use sqlanvil.ExecSql.Types.{
  BigqueryOptions, IncrementalStrategy, Table, Generator, target_sql, has_items,
}
use sqlanvil.ExecSql.Tasks.{trim, is_not_empty}
use sqlanvil.ExecSql.Bigquery.Procedure.{incremental_query}

abbrev pub backquoted : Text → Text
backquoted c = in_quotes 96 c

abbrev pub in_parentheses : Text → Text
in_parentheses p = template (codes "(" ∷ p ∷ codes ")" ∷ [])

abbrev pub predicates_of : List Text → Text
predicates_of [] = []
predicates_of (p ∷ ps) = codes "and " ++ joined (codes " and ") (map in_parentheses (p ∷ ps))

-- `buildIncrementalPredicatesString`
unfoldable pub build_incremental_predicates_string : List Text → Text
unfolding trim joined template
build_incremental_predicates_string ps = predicates_of (filter_by (λ p. is_not_empty (trim p)) ps)

abbrev pub predicates : Option BigqueryOptions → Text
predicates none = []
predicates (some o) = build_incremental_predicates_string o.incremental_predicates

abbrev pub partition_filter : Option BigqueryOptions → Text
partition_filter none = []
partition_filter (some o) = o.update_partition_filter

-- `bigquery?.partitionBy`; a template prints it as `undefined` where there are no options.
abbrev pub partition_by : Option BigqueryOptions → Text
partition_by none = codes "undefined"
partition_by (some o) = o.partition_by

abbrev pub behind_text : Text → Text → Text
behind_text head [] = []
behind_text head (c ∷ cs) = head ++ (c ∷ cs)

abbrev pub column_names : List Text → Text
column_names columns = joined (codes ",") (map backquoted columns)

module _ (g : Generator) where
  -- `insertInto`
  unfoldable pub insert_into_sql : Table → List Text → Text
  unfolding template joined target_sql incremental_query
  insert_into_sql t columns = template (
      codes "\t\ninsert into "
      ∷ target_sql g t.target
      ∷ codes "\t\n("
      ∷ column_names columns
      ∷ codes ")\t\nselect "
      ∷ column_names columns
      ∷ codes "\t\nfrom ("
      ∷ incremental_query t
      ∷ codes ") as insertions"
      ∷ [])

  abbrev key_test : Text → Text
  key_test k = template (codes "T." ∷ k ∷ codes " = S." ∷ k ∷ [])

  abbrev update_clause : Text → Text
  update_clause c = template (backquoted c ∷ codes " = S." ∷ c ∷ [])

  -- `mergeInto`
  unfoldable pub merge_into_sql : Table → List Text → Text
  unfolding template joined target_sql incremental_query build_incremental_predicates_string
  merge_into_sql t columns = template (
      codes "\nmerge "
      ∷ target_sql g t.target
      ∷ codes " T\nusing ("
      ∷ incremental_query t
      ∷ codes "\n) S\non "
      ∷ joined (codes " and ") (map key_test t.unique_key)
      ∷ codes "\n  "
      ∷ behind_text (codes "and T.") (partition_filter t.bigquery)
      ∷ behind_text (codes "\n  ") (predicates t.bigquery)
      ∷ codes "\nwhen matched then\n  update set "
      ∷ joined (codes ",") (map update_clause columns)
      ∷ codes "\nwhen not matched then\n  insert ("
      ∷ column_names columns
      ∷ codes ") values ("
      ∷ column_names columns
      ∷ codes ")"
      ∷ [])

  -- `insertOverwrite`
  unfoldable pub insert_overwrite_sql : Table → List Text → Text
  unfolding template joined target_sql incremental_query build_incremental_predicates_string
  insert_overwrite_sql t columns =
      let staging = backquoted (template (codes "staging_table_temp_" ∷ g.unique_id ∷ [])) in
      let partition = partition_by t.bigquery in
      template (
        codes "CREATE OR REPLACE TEMP TABLE "
        ∷ staging
        ∷ codes " AS (\n  "
        ∷ incremental_query t
        ∷ codes
            "\n);\n\nBEGIN\n  DECLARE partitions_for_replacement DEFAULT (\n    ARRAY(\n      SELECT DISTINCT "
        ∷ partition
        ∷ codes "\n      FROM "
        ∷ staging
        ∷ codes "\n      WHERE "
        ∷ partition
        ∷ codes " IS NOT NULL\n    )\n  );\n\n  MERGE "
        ∷ target_sql g t.target
        ∷ codes " T\n  USING "
        ∷ staging
        ∷ codes " S\n  ON FALSE\n  WHEN NOT MATCHED BY SOURCE AND "
        ∷ partition
        ∷ codes " IN UNNEST(partitions_for_replacement)"
        ∷ behind_text (codes " and T.") (partition_filter t.bigquery)
        ∷ behind_text (codes " ") (predicates t.bigquery)
        ∷ codes "\n  THEN\n    DELETE\n  WHEN NOT MATCHED BY TARGET THEN\n    INSERT ("
        ∷ column_names columns
        ∷ codes ") VALUES ("
        ∷ column_names columns
        ∷ codes ");\nEND;\n\nDROP TABLE IF EXISTS "
        ∷ staging
        ∷ codes ";"
        ∷ [])

  -- `getIncrementalDmlStatement`
  unfoldable pub incremental_dml_sql : Table → List Text → Text
  unfolding insert_into_sql merge_into_sql insert_overwrite_sql
  incremental_dml_sql t columns = elim t.incremental_strategy [
    | IncrementalStrategy.insert_overwrite ↦ insert_overwrite_sql t columns
    | _ ↦ if has_items t.unique_key then merge_into_sql t columns else insert_into_sql t columns
  ]
