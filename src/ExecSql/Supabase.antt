-- ===== src/ExecSql/Supabase.antt =====
-- cli/api/dbadapters/supabase_execution_sql.ts: Postgres with a block of settings of its own.
use sqlanvil.Base.{
  Text, text_eq, nat_eq, Option, none, some, Bool, false, not, if◌then◌else◌, ◌==◌, List, [], ◌∷◌,
  ◌++◌, map, filter_by, codes, template, joined, get,
}
use sqlanvil.CompilationSql.{in_quotes}
use sqlanvil.Paths.{is_empty}
use sqlanvil.ExecSql.Types.{
  Table, TableMetadata, Generator, target_sql, SupabaseOptions, VectorConfig, IndexType, ivfflat,
  hnsw, PostgresOptions, Result, or_text,
}
use sqlanvil.ExecSql.Tasks.{Task}
use sqlanvil.ExecSql.Postgres.{RunConfig}
use sqlanvil.ExecSql.Postgres.Print.{publish_tasks, default_index_name}

-- `table.supabase?.postgres`
abbrev pub nested_postgres : Option SupabaseOptions → Option PostgresOptions
nested_postgres none = none
nested_postgres (some o) = o.postgres

abbrev pub or_nested : Option PostgresOptions → Option PostgresOptions → Option PostgresOptions
or_nested (some o) nested = some o
or_nested none nested = nested

-- `effectiveTable`
unfoldable pub effective_table : Table → Table
effective_table t = record t { postgres = or_nested t.postgres (nested_postgres t.supabase) }

abbrev pub when : Bool → Text → List Text
when b s = if b then s ∷ [] else []

abbrev pub index_type_as_sql : IndexType → Text
index_type_as_sql ivfflat = codes "ivfflat"
index_type_as_sql hnsw = codes "hnsw"

abbrev pub is_option : Text × Text → Bool
is_option (key, value) = not (key == codes "opclass")

abbrev pub with_options : List Text → Text
with_options [] = []
with_options (o ∷ os) = template (codes " with (" ∷ joined (codes ", ") (o ∷ os) ∷ codes ")" ∷ [])

abbrev pub param_text : Text × Text → Text
param_text (key, value) = template (key ∷ codes " = " ∷ value ∷ [])

abbrev pub text_or : Option Text → Text → Text
text_or none b = b
text_or (some a) b = or_text a b

-- The index of a vector column.
unfoldable pub vector_index : Generator → Table → VectorConfig → Text
unfolding template joined default_index_name target_sql
vector_index g t v = template (
    codes "create index "
    ∷ in_quotes 34 (default_index_name t.target.name (v.column ∷ []) false)
    ∷ codes " on "
    ∷ target_sql g t.target
    ∷ codes " using "
    ∷ index_type_as_sql v.index_type
    ∷ codes " ("
    ∷ in_quotes 34 v.column
    ∷ codes " "
    ∷ text_or (get v.params (codes "opclass")) (codes "vector_cosine_ops")
    ∷ codes ")"
    ∷ with_options (map param_text (filter_by is_option v.params))
    ∷ [])

abbrev pub vector_statements : Generator → Table → List VectorConfig → List Text
vector_statements g t [] = []
vector_statements g t (v ∷ vs) =
    codes "create extension if not exists vector cascade" ∷ map (vector_index g t) (v ∷ vs)

abbrev pub settings : Generator → Table → SupabaseOptions → List Text
settings g t o =
    let target = target_sql g t.target in
    when (not (is_empty o.owner_role)) (
      template
        (codes "alter table " ∷ target ∷ codes " owner to " ∷ in_quotes 34 o.owner_role ∷ []))
    ++ (when o.enable_rls
          (template (codes "alter table " ∷ target ∷ codes " enable row level security" ∷ []))
        ++ (vector_statements g t o.vectors
            ++ (when o.publish_to_realtime
                  (template (codes "alter table " ∷ target ∷ codes " replica identity full" ∷ []))
                ++ when o.publish_to_realtime (
                    template
                      (codes "alter publication supabase_realtime add table " ∷ target ∷ [])))))

-- `afterTableCreated`
unfoldable pub after_created : Generator → Table → List Text
unfolding vector_index template target_sql
after_created g t = elim t.supabase [ none ↦ [] | some o ↦ settings g t o ]

-- `publishTasks`
unfoldable pub publish_supabase :
    Generator → Table → RunConfig → Option TableMetadata → Result (List Task)
unfolding effective_table after_created publish_tasks
publish_supabase g t run m = publish_tasks g (after_created g) (effective_table t) run m
