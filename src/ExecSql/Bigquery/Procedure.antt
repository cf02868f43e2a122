-- ===== src/ExecSql/Bigquery/Procedure.antt =====
-- cli/api/dbadapters/bigquery_execution_sql.ts: the procedure that changes the schema of a table.
use sqlanvil.Base.{Text, Option, none, some, [], ◌∷◌, codes, template, joined}
use sqlanvil.Targets.{Target}
use sqlanvil.ExecSql.Types.{OnSchemaChange, Table, Generator, target_sql, get_incremental_query}
use sqlanvil.ExecSql.Postgres.{named}

-- `where` and `getIncrementalQuery`
unfoldable pub where_ : Text → Text → Text
unfolding template
where_ query [] = query
where_ query (c ∷ cs) =
    template
      (codes "\n  select * from (" ∷ query ∷ codes ") as subquery\n    where " ∷ (c ∷ cs) ∷ [])

unfoldable pub incremental_query : Table → Text
unfolding where_ get_incremental_query
incremental_query t = where_ (get_incremental_query t) t.where_

-- `declareSchemaChangeVariablesSql`
abbrev pub invalid_removed : OnSchemaChange → Text
invalid_removed OnSchemaChange.synchronize =
    codes "\nDECLARE invalid_removed_columns ARRAY<STRING>;"
invalid_removed _ = []

unfoldable pub declare_schema_change_variables_sql : OnSchemaChange → Text
unfolding template
declare_schema_change_variables_sql change = template (
    codes "\n-- Declare variables for schema comparison and strategy execution.\n"
    ∷ codes "DECLARE sqlanvil_columns ARRAY<STRING>;\n"
    ∷ codes "DECLARE temp_table_columns ARRAY<STRUCT<column_name STRING, data_type STRING>>;\n"
    ∷ codes "DECLARE columns_added ARRAY<STRUCT<column_name STRING, data_type STRING>>;\n"
    ∷ codes "DECLARE columns_removed ARRAY<STRING>;"
    ∷ invalid_removed change
    ∷ [])

-- `createEmptyTempTableSql`
unfoldable pub create_empty_temp_table_sql : Text → Text → Text
unfolding template
create_empty_temp_table_sql name query = template (
    codes "\n-- Create empty table to extract schema of new query.\nCREATE OR REPLACE TABLE "
    ∷ name
    ∷ codes " AS (\n  SELECT * FROM ("
    ∷ query
    ∷ codes ") AS insertions LIMIT 0\n);"
    ∷ [])

-- A part of a target that is not set prints as `undefined`.
abbrev pub or_undefined : Option Text → Text
or_undefined none = codes "undefined"
or_undefined (some s) = s

abbrev pub information_schema : Target → Text
information_schema t = template (
    codes "`"
    ∷ or_undefined t.database
    ∷ codes "."
    ∷ or_undefined t.schema
    ∷ codes ".INFORMATION_SCHEMA.COLUMNS`\n  WHERE table_name = '"
    ∷ t.name
    ∷ codes "'\n);\n"
    ∷ [])

-- `compareSchemasSql`
unfoldable pub compare_schemas_sql : Target → Target → Text
unfolding template
compare_schemas_sql t temp = template (
    codes "\n-- Compare schemas\nSET sqlanvil_columns = (\n"
    ∷ codes "  SELECT IFNULL(ARRAY_AGG(DISTINCT column_name), [])\n  FROM "
    ∷ information_schema t
    ∷ codes "\nSET temp_table_columns = (\n"
    ∷ codes "  SELECT IFNULL(ARRAY_AGG(STRUCT(column_name, data_type)), [])\n  FROM "
    ∷ information_schema temp
    ∷ codes "\nSET columns_added = (\n  SELECT IFNULL(ARRAY_AGG(column_info), [])\n"
    ∷ codes "  FROM UNNEST(temp_table_columns) AS column_info\n"
    ∷ codes "  WHERE column_info.column_name NOT IN UNNEST(sqlanvil_columns)\n);\n"
    ∷ codes "SET columns_removed = (\n  SELECT IFNULL(ARRAY_AGG(column_name), [])\n"
    ∷ codes "  FROM UNNEST(sqlanvil_columns) AS column_name\n"
    ∷ codes
        "  WHERE column_name NOT IN (SELECT col.column_name FROM UNNEST(temp_table_columns) AS col)\n);"
    ∷ [])

-- `alterTableAddColumnsSql`
unfoldable pub alter_table_add_columns_sql : Text → Text
unfolding template
alter_table_add_columns_sql table = template (
    codes "IF ARRAY_LENGTH(columns_added) > 0 THEN\n  EXECUTE IMMEDIATE (\n    \"ALTER TABLE "
    ∷ table
    ∷ codes " \" ||\n    (\n      SELECT STRING_AGG(FORMAT(\"ADD COLUMN IF NOT EXISTS %s %s\","
    ∷ codes " column_info.column_name, column_info.data_type), \", \")\n"
    ∷ codes "      FROM UNNEST(columns_added) AS column_info\n    )\n  );\nEND IF;"
    ∷ [])

abbrev pub fail_strategy : Text
fail_strategy = template (
    codes "\nIF ARRAY_LENGTH(columns_added) > 0 OR ARRAY_LENGTH(columns_removed) > 0 THEN\n"
    ∷ codes
        "  RAISE USING MESSAGE = FORMAT(\n    \"Schema mismatch defined by on_schema_change = 'FAIL'."
    ∷ codes
        " Added columns: %T, removed columns: %T\",\n    columns_added,\n    columns_removed\n  );\nEND IF;\n"
    ∷ [])

abbrev pub extend_strategy : Text → Text
extend_strategy table = template (
    codes "\nIF ARRAY_LENGTH(columns_removed) > 0 THEN\n  RAISE USING MESSAGE = FORMAT(\n"
    ∷ codes
        "    \"Column removals are not allowed when on_schema_change = 'EXTEND'. Removed columns: %T\",\n"
    ∷ codes "    columns_removed\n  );\nEND IF;\n\n"
    ∷ alter_table_add_columns_sql table
    ∷ codes "\n"
    ∷ [])

abbrev pub synchronize_strategy : Text → Text → Text
synchronize_strategy keys table = template (
    codes "\nSET invalid_removed_columns = (\n"
    ∷ codes
        "  SELECT IFNULL(ARRAY_AGG(col), []) FROM UNNEST(columns_removed) AS col WHERE col IN UNNEST("
    ∷ keys
    ∷ codes
        ")\n);\n\nIF ARRAY_LENGTH(invalid_removed_columns) > 0 THEN\n  RAISE USING MESSAGE = FORMAT(\n"
    ∷ codes "    \"Cannot drop columns %T as they are part of the unique key for table "
    ∷ table
    ∷ codes "\",\n    invalid_removed_columns\n  );\nEND IF;\n\n"
    ∷ codes "IF ARRAY_LENGTH(columns_removed) > 0 THEN\n  EXECUTE IMMEDIATE (\n    \"ALTER TABLE "
    ∷ table
    ∷ codes
        " \" ||\n    (\n      SELECT STRING_AGG(FORMAT(\"DROP COLUMN IF EXISTS %s\", col), \", \")\n"
    ∷ codes "      FROM UNNEST(columns_removed) AS col\n    )\n  );\nEND IF;\n\n"
    ∷ alter_table_add_columns_sql table
    ∷ codes "\n"
    ∷ [])

-- `OnSchemaChange[onSchemaChange]`
abbrev pub change_name : OnSchemaChange → Text
change_name OnSchemaChange.ignore = codes "IGNORE"
change_name OnSchemaChange.fail = codes "FAIL"
change_name OnSchemaChange.extend = codes "EXTEND"
change_name OnSchemaChange.synchronize = codes "SYNCHRONIZE"

abbrev pub strategy : OnSchemaChange → Text → Text → Text
strategy OnSchemaChange.ignore keys table = []
strategy OnSchemaChange.fail keys table = fail_strategy
strategy OnSchemaChange.extend keys table = extend_strategy table
strategy OnSchemaChange.synchronize keys table = synchronize_strategy keys table

module _ (g : Generator) where
  -- `applySchemaChangeStrategySql`
  unfoldable pub apply_schema_change_strategy_sql : Table → Text → Text
  unfolding template alter_table_add_columns_sql
  apply_schema_change_strategy_sql t table = template (
      codes "\n-- Apply schema change strategy ("
      ∷ change_name t.on_schema_change
      ∷ codes ")."
      ∷ strategy t.on_schema_change (g.stringify t.unique_key) table
      ∷ [])

  -- `cleanupSql`
  abbrev pub cleanup_sql : Text → Text
  cleanup_sql name =
      template (
        codes "\n-- Cleanup temporary tables.\nDROP TABLE IF EXISTS " ∷ name ∷ codes ";\n    " ∷ [])

  abbrev pub empty_temp_table : Target → Target
  empty_temp_table t =
      named t (template (t.name ∷ codes "_sa_temp_" ∷ g.unique_id ∷ codes "_empty" ∷ []))

  -- `incrementalSchemaChangeBody`
  unfoldable pub incremental_schema_change_body : Table → Text
  unfolding joined template target_sql incremental_query declare_schema_change_variables_sql
      create_empty_temp_table_sql compare_schemas_sql apply_schema_change_strategy_sql
  incremental_schema_change_body t =
      let temp = empty_temp_table t.target in
      joined (codes "\n\n") (
        declare_schema_change_variables_sql t.on_schema_change
        ∷ create_empty_temp_table_sql (target_sql g temp) (incremental_query t)
        ∷ compare_schemas_sql t.target temp
        ∷ apply_schema_change_strategy_sql t (target_sql g t.target)
        ∷ cleanup_sql (target_sql g temp)
        ∷ [])

  -- `createProcedureName`
  unfoldable pub create_procedure_name : Target → Text
  unfolding template target_sql
  create_procedure_name t = target_sql g (named t (template (codes "sa_osc_" ∷ g.unique_id ∷ [])))

  -- The two statements of `buildIncrementalSchemaChangeTasks`, the second by `safeCallAndDropProcedure`.
  unfoldable pub create_procedure_sql : Table → Text
  unfolding template create_procedure_name incremental_schema_change_body
  create_procedure_sql t = template (
      codes "CREATE OR REPLACE PROCEDURE "
      ∷ create_procedure_name t.target
      ∷ codes "()\nOPTIONS(strict_mode=false)\nBEGIN\n"
      ∷ incremental_schema_change_body t
      ∷ codes "\nEND;"
      ∷ [])

  unfoldable pub safe_call_and_drop_procedure : Table → Text
  unfolding template target_sql create_procedure_name
  safe_call_and_drop_procedure t =
      let procedure = create_procedure_name t.target in
      template (
        codes "\nBEGIN\n  CALL "
        ∷ procedure
        ∷ codes "();\nEXCEPTION WHEN ERROR THEN\n  DROP TABLE IF EXISTS "
        ∷ target_sql g (empty_temp_table t.target)
        ∷ codes ";\n  DROP PROCEDURE IF EXISTS "
        ∷ procedure
        ∷ codes ";\n  RAISE;\nEND;\nDROP PROCEDURE IF EXISTS "
        ∷ procedure
        ∷ codes ";"
        ∷ [])
