-- ===== src/Runner/Schemas/Laws.antt =====
-- cli/api/commands/run.ts, `prepareAllSchemas`: exactly the missing schemas are created.
use sqlanvil.Base.{
  Text, text_eq, Option, option_text_eq, none, Bool, false, List, ◌∷◌, [], ◌++◌, ◌&&◌, ◌||◌, map,
  filter_by, contains, not, add, get, put, get-put, if◌then◌else◌, arith, ◌≡◌, refl, ◌==◌, ==_iff,
  contains-add, contains-filter_by,
}
use sqlanvil.Targets.{Target, truthy, text_or_empty}
use sqlanvil.Runner.Schemas.{
  SchemaMap, true_database, schemas_of, collect, collect_all, created_schemas, prepare_all_schemas,
}

-- Some target needs the schema `s` of the database `db`.
abbrev pub needs : Option Text → List Target → Option Text → Text → Bool
needs default_database [] db s = false
needs default_database (t ∷ ts) db s =
    truthy t.schema && (true_database default_database t == db && s == text_or_empty t.schema)
    || needs default_database ts db s

abbrev pub creates : List (Option Text × Text) → Option Text → Text → Bool
creates [] db s = false
creates ((d, x) ∷ calls) db s = d == db && s == x || creates calls db s

-- The keys of the map stand once.
abbrev KeysDistinct : SchemaMap → Type 0
KeysDistinct [] = Unit
KeysDistinct ((db, schemas) ∷ m) = (get m db ≡ none) × KeysDistinct m

get-put-none :
    (m : SchemaMap) (k j : Option Text) (v : List Text)
    → (k == j) ≡ false
    → get m j ≡ none
    → get (put m k v) j ≡ none
get-put-none m k j v ne h = ground (arith, get-put m k j v)

put-KeysDistinct :
    (m : SchemaMap) (k : Option Text) (v : List Text) → KeysDistinct m → KeysDistinct (put m k v)
put-KeysDistinct [] k v h = (refl, tt)
put-KeysDistinct ((db, schemas) ∷ m) k v h =
    ground (arith, put-KeysDistinct m k v h.1, get-put-none m k db v, ==_iff k db, ==_iff db k)

collect-KeysDistinct :
    (d : Option Text) (m : SchemaMap) (t : Target) → KeysDistinct m → KeysDistinct (collect d m t)
unfolding collect
collect-KeysDistinct d m t h = ground (
  arith,
  put-KeysDistinct m (true_database d t)
      (add (schemas_of m (true_database d t)) (text_or_empty t.schema)) h,
)

schemas_of-put :
    (m : SchemaMap) (k db : Option Text) (v : List Text)
    → schemas_of (put m k v) db ≡ (if k == db then v else schemas_of m db)
schemas_of-put m k db v = ground (arith, get-put m k db v)

contains-put :
    (m : SchemaMap) (k db : Option Text) (s x : Text)
    → contains (schemas_of (put m k (add (schemas_of m k) x)) db) s
      ≡ (contains (schemas_of m db) s || k == db && s == x)
contains-put m k db s x = ground (
  arith,
  schemas_of-put m k db (add (schemas_of m k) x),
  ==_iff k db,
  contains-add (schemas_of m k) x s,
)

contains-collect :
    (d : Option Text) (m : SchemaMap) (t : Target) (db : Option Text) (s : Text)
    → contains (schemas_of (collect d m t) db) s ≡ (
        contains (schemas_of m db) s
        || truthy t.schema && (true_database d t == db && s == text_or_empty t.schema))
unfolding collect
contains-collect d m t db s =
    ground (arith, contains-put m (true_database d t) db s (text_or_empty t.schema))

contains-collect_all :
    (d : Option Text) (ts : List Target) (m : SchemaMap) (db : Option Text) (s : Text)
    → contains (schemas_of (collect_all d m ts) db) s
      ≡ (contains (schemas_of m db) s || needs d ts db s)
unfolding collect_all
contains-collect_all d [] m db s = ground arith
contains-collect_all d (t ∷ ts) m db s =
    ground (arith, contains-collect_all d ts (collect d m t) db s, contains-collect d m t db s)

collect_all-KeysDistinct :
    (d : Option Text) (ts : List Target) (m : SchemaMap)
    → KeysDistinct m
    → KeysDistinct (collect_all d m ts)
unfolding collect_all
collect_all-KeysDistinct d [] m h = h
collect_all-KeysDistinct d (t ∷ ts) m h =
    collect_all-KeysDistinct d ts (collect d m t) (collect-KeysDistinct d m t h)

creates-append :
    (xs ys : List (Option Text × Text)) (db : Option Text) (s : Text)
    → creates (xs ++ ys) db s ≡ (creates xs db s || creates ys db s)
creates-append [] ys db s = refl
creates-append ((d, x) ∷ xs) ys db s = ground (arith, creates-append xs ys db s)

creates-map :
    (d : Option Text) (xs : List Text) (db : Option Text) (s : Text)
    → creates (map (λ (x : Text). let call : Option Text × Text = (d, x) in call) xs) db s
      ≡ (d == db && contains xs s)
creates-map d [] db s = ground arith
creates-map d (x ∷ xs) db s = ground (arith, creates-map d xs db s)

creates-created :
    (existing : Option Text → List Text) (m : SchemaMap) (db : Option Text) (s : Text)
    → KeysDistinct m
    → creates (created_schemas existing m) db s
      ≡ (not (contains (existing db) s) && contains (schemas_of m db) s)
unfolding created_schemas
creates-created existing [] db s h = ground arith
creates-created existing ((d, schemas) ∷ m) db s h = ground (
  arith,
  creates-created existing m db s h.1,
  ==_iff d db,
  h.0,
  creates-append
      (map (λ (x : Text). let call : Option Text × Text = (d, x) in call)
        (filter_by (λ x. not (contains (existing d) x)) schemas))
      (created_schemas existing m) db s,
  creates-map d (filter_by (λ x. not (contains (existing d) x)) schemas) db s,
  contains-filter_by (λ x. not (contains (existing d) x)) schemas s,
)

-- A schema of a database is created exactly when some action's target needs it and the warehouse
-- does not list it.
pub prepare_all_schemas-creates :
    (existing : Option Text → List Text) (default_database : Option Text) (targets : List Target)
    (db : Option Text) (s : Text)
    → creates (prepare_all_schemas existing default_database targets) db s
      ≡ (not (contains (existing db) s) && needs default_database targets db s)
unfolding prepare_all_schemas
prepare_all_schemas-creates existing d targets db s = ground (
  arith,
  creates-created existing (collect_all d [] targets) db s
      (collect_all-KeysDistinct d targets [] tt),
  contains-collect_all d targets [] db s,
)
