-- ===== src/Resolvable.antt =====
-- core/utils.ts, `ResolvableMap`: the index by which a reference finds actions.
pub mod Laws
use sqlanvil.Base.{
  Text, text_eq, Option, none, some, Bool, true, false, List, ◌∷◌, [], ◌++◌, get, put,
  if◌then◌else◌,
}
use sqlanvil.Targets.{Target, truthy, text_or_empty}

-- `map.get(key) || []`, for a map of arrays or of maps.
abbrev pub get_or_empty {ℓ} : {V : Type ℓ} → List (Text × List V) → Text → List V
get_or_empty m k = elim (get m k) [ none ↦ [] | some vs ↦ vs ]

abbrev pub ByName : Type 0 → Type 0
ByName T = List (Text × List T)

abbrev pub BySchema : Type 0 → Type 0
BySchema T = List (Text × ByName T)

abbrev pub ByDatabase : Type 0 → Type 0
ByDatabase T = List (Text × BySchema T)

pub record ResolvableMap (T : Type 0) : Type 0 where
  pub by_name : ByName T
  pub by_schema_and_name : BySchema T
  pub by_database_and_name : BySchema T
  pub by_database_schema_and_name : ByDatabase T

module _ {T : Type 0} where
  -- `setByNameLevel`
  unfoldable pub set_by_name_level : ByName T → Text → T → ByName T
  set_by_name_level m name v = put m name (get_or_empty m name ++ v ∷ [])

  -- `setBySchemaLevel`, and the same code on the map of databases without schemas.
  unfoldable pub set_by_schema_level : BySchema T → Text → Text → T → BySchema T
  unfolding set_by_name_level
  set_by_schema_level m schema name v =
      put m schema (set_by_name_level (get_or_empty m schema) name v)

  abbrev set_by_database_level : ByDatabase T → Text → Text → Text → T → ByDatabase T
  set_by_database_level m database schema name v =
      put m database (set_by_schema_level (get_or_empty m database) schema name v)

  -- `set`
  unfoldable pub set_target : ResolvableMap T → Target → T → ResolvableMap T
  set_target m t v =
      let database = text_or_empty t.database in
      let schema = text_or_empty t.schema in
      record {
        by_name = set_by_name_level m.by_name t.name v;
        by_schema_and_name =
            if truthy t.schema
            then set_by_schema_level m.by_schema_and_name schema t.name v
            else m.by_schema_and_name;
        by_database_and_name =
            if truthy t.database
            then set_by_schema_level m.by_database_and_name database t.name v
            else m.by_database_and_name;
        by_database_schema_and_name =
            if truthy t.database
            then (if truthy t.schema
                then set_by_database_level m.by_database_schema_and_name database schema t.name v
                else m.by_database_schema_and_name)
            else m.by_database_schema_and_name;
      }

  abbrev pub empty_map : ResolvableMap T
  empty_map = record {
    by_name = [];
    by_schema_and_name = [];
    by_database_and_name = [];
    by_database_schema_and_name = [];
  }

  abbrev set_all : ResolvableMap T → List (Target × T) → ResolvableMap T
  set_all m [] = m
  set_all m ((t, v) ∷ values) = set_all (set_target m t v) values

  -- The constructor.
  unfoldable pub resolvable_map : List (Target × T) → ResolvableMap T
  unfolding set_target
  resolvable_map values = set_all empty_map values

  -- `find`
  unfoldable pub find : ResolvableMap T → Target → List T
  find m t =
      let database = text_or_empty t.database in
      let schema = text_or_empty t.schema in
      if truthy t.database
      then (if truthy t.schema
          then get_or_empty
              (get_or_empty (get_or_empty m.by_database_schema_and_name database) schema) t.name
          else get_or_empty (get_or_empty m.by_database_and_name database) t.name)
      else (if truthy t.schema
          then get_or_empty (get_or_empty m.by_schema_and_name schema) t.name
          else get_or_empty m.by_name t.name)
