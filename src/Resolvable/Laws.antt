-- ===== src/Resolvable/Laws.antt =====
-- core/utils.ts: the nested maps of `ResolvableMap` find what a scan of all the values finds.
use sqlanvil.Base.{
  Text, text_eq, Bool, List, ◌∷◌, [], ◌++◌, ◌&&◌, ◌||◌, not, put, get-put, if◌then◌else◌, ◌==◌,
  ==_iff, ◌≡◌, arith, append-nil, append_assoc,
}
use sqlanvil.Targets.{Target, truthy, text_or_empty}
use sqlanvil.Resolvable.{
  ByName, BySchema, ByDatabase, ResolvableMap, get_or_empty, set_by_name_level, set_by_schema_level,
  set_by_database_level, set_target, set_all, empty_map, resolvable_map, find,
}

-- A reference fits a target if the names agree, and the schema and the database where it has one.
abbrev pub fits : Target → Target → Bool
fits ref t =
    ref.name == t.name
    && (not (truthy ref.schema)
        || truthy t.schema && text_or_empty ref.schema == text_or_empty t.schema)
    && (not (truthy ref.database)
        || truthy t.database && text_or_empty ref.database == text_or_empty t.database)

get_or_empty-put {ℓ} :
    {V : Type ℓ} (m : List (Text × List V)) (k j : Text) (v : List V)
    → get_or_empty (put m k v) j ≡ (if k == j then v else get_or_empty m j)
get_or_empty-put m k j v = ground (arith, get-put m k j v)

module _ {T : Type 0} where
  abbrev pub scan : Target → List (Target × T) → List T
  scan ref [] = []
  scan ref ((t, v) ∷ values) = (if fits ref t then v ∷ [] else []) ++ scan ref values

  find-by_name :
      (m : ByName T) (name n : Text) (v : T)
      → get_or_empty (set_by_name_level m name v) n
        ≡ get_or_empty m n ++ (if n == name then v ∷ [] else [])
  unfolding set_by_name_level
  find-by_name m name n v = ground (
    arith,
    get_or_empty-put m name n (get_or_empty m name ++ v ∷ []),
    ==_iff name n,
    ==_iff n name,
    append-nil (get_or_empty m n),
  )

  find-by_schema :
      (m : BySchema T) (schema name s n : Text) (v : T)
      → get_or_empty (get_or_empty (set_by_schema_level m schema name v) s) n
        ≡ get_or_empty (get_or_empty m s) n ++ (if s == schema && n == name then v ∷ [] else [])
  unfolding set_by_schema_level
  find-by_schema m schema name s n v = ground (
    arith,
    get_or_empty-put m schema s (set_by_name_level (get_or_empty m schema) name v),
    find-by_name (get_or_empty m schema) name n v,
    ==_iff schema s,
    ==_iff s schema,
    append-nil (get_or_empty (get_or_empty m s) n),
  )

  find-by_database :
      (m : ByDatabase T) (database schema name d s n : Text) (v : T)
      → get_or_empty
          (get_or_empty (get_or_empty (set_by_database_level m database schema name v) d) s)
          n
        ≡ get_or_empty (get_or_empty (get_or_empty m d) s) n
          ++ (if d == database && (s == schema && n == name) then v ∷ [] else [])
  find-by_database m database schema name d s n v = ground (
    arith,
    get_or_empty-put m database d (set_by_schema_level (get_or_empty m database) schema name v),
    find-by_schema (get_or_empty m database) schema name s n v,
    ==_iff database d,
    ==_iff d database,
    append-nil (get_or_empty (get_or_empty (get_or_empty m d) s) n),
  )

  find-set_target :
      (m : ResolvableMap T) (t ref : Target) (v : T)
      → find (set_target m t v) ref ≡ find m ref ++ (if fits ref t then v ∷ [] else [])
  unfolding find set_target
  find-set_target m t ref v =
      let d = text_or_empty t.database in
      let s = text_or_empty t.schema in
      let d' = text_or_empty ref.database in
      let s' = text_or_empty ref.schema in
      ground (
        arith,
        find-by_name m.by_name t.name ref.name v,
        find-by_schema m.by_schema_and_name s t.name s' ref.name v,
        find-by_schema m.by_database_and_name d t.name d' ref.name v,
        find-by_database m.by_database_schema_and_name d s t.name d' s' ref.name v,
        append-nil (get_or_empty m.by_name ref.name),
        append-nil (get_or_empty (get_or_empty m.by_schema_and_name s') ref.name),
        append-nil (get_or_empty (get_or_empty m.by_database_and_name d') ref.name),
        append-nil (
            get_or_empty (get_or_empty (get_or_empty m.by_database_schema_and_name d') s')
              ref.name),
      )

  find-set_all :
      (values : List (Target × T)) (m : ResolvableMap T) (ref : Target)
      → find (set_all m values) ref ≡ find m ref ++ scan ref values
  find-set_all [] m ref = rw append-nil
  find-set_all ((t, v) ∷ values) m ref =
      rw (find-set_all values (set_target m t v) ref, find-set_target m t ref v, append_assoc)

  -- `find` on a map that is built from targets and values gives, in the order of insertion, all the
  -- values whose target has the reference's name, and its schema and database where it names them.
  pub find-resolvable_map :
      (values : List (Target × T)) (ref : Target)
      → find (resolvable_map values) ref ≡ scan ref values
  unfolding resolvable_map find
  find-resolvable_map values ref = rw (find-set_all values empty_map ref) (ground arith)
