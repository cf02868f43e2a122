-- ===== src/Runner/Schemas.antt =====
-- cli/api/commands/run.ts, `prepareAllSchemas`: which schemas are created before the actions run.
pub mod Laws
use sqlanvil.Base.{
  ℕ, Text, text_eq, option_text_eq, Option, none, some, Bool, true, false, List, ◌∷◌, [], ◌++◌, map,
  filter_by, contains, not, add, get, put, if◌then◌else◌,
}
use sqlanvil.Targets.{Target, truthy, text_or_empty}

-- `databaseSchemas`, from a database to the set of its schemas.
abbrev pub SchemaMap : Type 0
SchemaMap = List (Option Text × List Text)

-- `target.database || projectConfig.defaultDatabase`, where both may be missing.
abbrev pub true_database : Option Text → Target → Option Text
true_database default_database t = if truthy t.database then t.database else default_database

-- The schemas found so far for a database.
abbrev pub schemas_of : SchemaMap → Option Text → List Text
schemas_of m db = elim (get m db) [ none ↦ [] | some s ↦ s ]

-- One round of `forEach`.
unfoldable pub collect : Option Text → SchemaMap → Target → SchemaMap
collect default_database m t =
    if truthy t.schema
    then put m (true_database default_database t)
        (add (schemas_of m (true_database default_database t)) (text_or_empty t.schema))
    else m

unfoldable pub collect_all : Option Text → SchemaMap → List Target → SchemaMap
unfolding collect
collect_all default_database m [] = m
collect_all default_database m (t ∷ ts) =
    collect_all default_database (collect default_database m t) ts

-- The calls of `createSchema`; `existing` is what the warehouse answers to `schemas`.
unfoldable pub created_schemas : (Option Text → List Text) → SchemaMap → List (Option Text × Text)
created_schemas existing [] = []
created_schemas existing ((db, schemas) ∷ m) =
    map (λ (s : Text). let call : Option Text × Text = (db, s) in call)
      (filter_by (λ s. not (contains (existing db) s)) schemas)
    ++ created_schemas existing m

unfoldable pub prepare_all_schemas :
    (Option Text → List Text) → Option Text → List Target → List (Option Text × Text)
unfolding collect_all created_schemas
prepare_all_schemas existing default_database targets =
    created_schemas existing (collect_all default_database [] targets)
