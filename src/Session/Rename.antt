-- ===== src/Session/Rename.antt =====
-- core/session.ts: `alterActionName`, the `finalize…` methods, and the target that `resolve` prints.
pub mod Laws
use sqlanvil.Base.{
  Text, Option, none, some, Bool, true, false, List, ◌∷◌, [], ◌++◌, ◌||◌, not, map, get, put,
  if◌then◌else◌,
}
use sqlanvil.Targets.{Target, target_eq, truthy, text_or_empty}
use sqlanvil.Session.Graph.{ActionProto}

-- The fields of `projectConfig` that rename actions.
pub record Naming : Type 0 where
  pub table_prefix : Option Text
  pub schema_suffix : Option Text
  pub database_suffix : Option Text

-- `getDatabaseSuffixWithUnderscore` and `getSchemaSuffixWithUnderscore`
abbrev pub suffix_with_underscore : Option Text → Text
suffix_with_underscore s = if truthy s then b'_' ∷ text_or_empty s else []

-- `getTablePrefixWithUnderscore`
abbrev pub prefix_with_underscore : Option Text → Text
prefix_with_underscore s = if truthy s then text_or_empty s ++ b'_' ∷ [] else []

unfoldable pub finalize_database : Naming → Text → Text
finalize_database n database = database ++ suffix_with_underscore n.database_suffix

unfoldable pub finalize_schema : Naming → Text → Text
finalize_schema n schema = schema ++ suffix_with_underscore n.schema_suffix

unfoldable pub finalize_name : Naming → Text → Text
finalize_name n name = prefix_with_underscore n.table_prefix ++ name

-- The target that `resolve` prints for an action that is not a declaration.
unfoldable pub resolved_target : Naming → Target → Target
unfolding finalize_database finalize_schema finalize_name
resolved_target n t = record t {
  database =
      if truthy t.database
      then some (finalize_database n (text_or_empty t.database))
      else t.database;
  schema = some (finalize_schema n (text_or_empty t.schema));
  name = finalize_name n t.name;
}

-- The new target of an action in `alterActionName`. The target of a proto reads as an empty database
-- where it has none, and the new target gets what is read.
unfoldable pub new_target : Naming → Target → Target
new_target n t = record t {
  database = some (
      if truthy t.database
      then text_or_empty t.database ++ suffix_with_underscore n.database_suffix
      else text_or_empty t.database);
  schema = some (text_or_empty t.schema ++ suffix_with_underscore n.schema_suffix);
  name = prefix_with_underscore n.table_prefix ++ t.name;
}

-- `newTargetByOriginalTarget`, from the key of a target to its new target.
abbrev pub TargetMap : Type 0
TargetMap = List (Target × Target)

abbrev pub declared : TargetMap → List Target → TargetMap
declared m [] = m
declared m (d ∷ ds) = declared (put m d d) ds

abbrev pub renamed : Naming → TargetMap → List ActionProto → TargetMap
renamed n m [] = m
renamed n m (a ∷ rest) = renamed n (put m a.target (new_target n a.target)) rest

-- `getUpdatedTarget`
unfoldable pub updated_target : TargetMap → Target → Target
updated_target m t = elim (get m t) [ none ↦ t | some t' ↦ t' ]

abbrev pub update_parent : TargetMap → Option Target → Option Target
update_parent m none = none
update_parent m (some t) = some (updated_target m t)

-- The two loops over the actions: the new target, then the dependencies and the parent.
abbrev pub rewrite_action : Naming → TargetMap → ActionProto → ActionProto
rewrite_action n m a = record a {
  target = new_target n a.target;
  dependency_targets = map (updated_target m) a.dependency_targets;
  parent_action = update_parent m a.parent_action;
}

abbrev pub is_renaming : Naming → Bool
is_renaming n = truthy n.table_prefix || truthy n.schema_suffix || truthy n.database_suffix

unfoldable pub alter_action_name : Naming → List ActionProto → List Target → List ActionProto
unfolding updated_target new_target
alter_action_name n actions declarations =
    if is_renaming n
    then map (rewrite_action n (renamed n (declared [] declarations) actions)) actions
    else actions
