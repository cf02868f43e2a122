-- ===== src/Session/Examples.antt =====
-- Runs of the models of core/session.ts and core/utils.ts on small inputs.
use sqlanvil.Base.{
  Text, text_eq, none, some, List, ◌∷◌, [], ◌≡◌, refl, not, ◌&&◌, ◌||◌, map, filter_by, contains,
  any, ◌==◌,
}
use sqlanvil.Targets.{Target, target_eq, target_beq}
use sqlanvil.Resolvable.{resolvable_map, find, set_by_name_level}
use sqlanvil.Resolvable.Laws.{scan, find-resolvable_map}
use sqlanvil.Session.Graph.{ActionProto, TestProto, CompiledGraph, targets_of}
use sqlanvil.Session.Depend.{Defaults, find_actions}
use sqlanvil.Session.Depend.Laws.{with_targets}
use sqlanvil.Resolvable.Laws.{fits}
use sqlanvil.Session.Depend.Ranking.{best, sole_or, find_actions_lem}
use sqlanvil.Session.Extracts.{referring_actions, remove_unreferenced_extracts}
use sqlanvil.Session.Extracts.Laws.{is_referenced, remove_unreferenced_extracts_lem}
use sqlanvil.CompilationSql.{bigquery, resolve_target}
use sqlanvil.Session.Resolve.{resolve, other}
use sqlanvil.Session.Resolve.Laws.{resolve-updated_target}
use sqlanvil.Session.Rename.{Naming, alter_action_name, updated_target, renamed, declared}
use sqlanvil.Session.Rename.Laws.{rewrite_by_rule, alter_action_name_lem}
use sqlanvil.Session.Unique.{checked_actions, filtered_actions, remove_non_unique_actions}
use sqlanvil.Session.Unique.Laws.{
  stands_once, has_error, remove_non_unique_actions-filter, remove_non_unique_actions-errors,
}

abbrev named : Text → Text → Target
named schema name = record {
  database = none;
  schema = some schema;
  name = name;
  include_dependent_assertions = none;
}

-- `orders` and `users` of the schema `s`, and another `orders` of the schema `t`.
abbrev orders : Target
orders = named (b's' ∷ []) (b'o' ∷ [])

abbrev users : Target
users = named (b's' ∷ []) (b'u' ∷ [])

abbrev other_orders : Target
other_orders = named (b't' ∷ []) (b'o' ∷ [])

abbrev ref_orders : Target
ref_orders = record orders { schema = none }

abbrev defaults : Defaults
defaults = record { default_database = none; default_schema = some (b's' ∷ []) }

abbrev all_targets : List Target
all_targets = other_orders ∷ orders ∷ users ∷ []

abbrev action : Target → List Target → ActionProto
action t depends = record {
  target = t;
  canonical_target = t;
  file_name = [];
  dependency_targets = depends;
  parent_action = none;
}

abbrev graph : CompiledGraph
graph = record {
  tables = action users (orders ∷ []) ∷ action users [] ∷ [];
  operations = [];
  assertions = [];
  declarations = [];
  notebooks = [];
  data_preparations = [];
  exports = [];
  imports = [];
  extracts = action orders [] ∷ action other_orders [] ∷ [];
  scripts = [];
  tests = [];
  targets = users ∷ users ∷ orders ∷ other_orders ∷ [];
}

find-resolvable_map_example :
    find (resolvable_map (with_targets all_targets)) ref_orders
    ≡ scan ref_orders (with_targets all_targets)
find-resolvable_map_example = find-resolvable_map (with_targets all_targets) ref_orders

-- The default schema decides between the two.
found_orders :
    find_actions defaults (resolvable_map (with_targets all_targets)) ref_orders ≡ orders ∷ []
unfolding find_actions find resolvable_map set_by_name_level
found_orders = refl

find_actions_example :
    find_actions defaults (resolvable_map (with_targets all_targets)) ref_orders ≡ (
      let found = filter_by (fits ref_orders) all_targets in
      sole_or (best defaults ref_orders found) found)
find_actions_example = find_actions_lem defaults all_targets ref_orders

remove_unreferenced_extracts_example :
    ((remove_unreferenced_extracts graph).extracts
      ≡ filter_by
          (λ (e : ActionProto). is_referenced (referring_actions graph) e.target)
          graph.extracts)
    × ((t : Target)
        → contains (remove_unreferenced_extracts graph).targets t ≡ (
            contains graph.targets t
            && (is_referenced (referring_actions graph) t
                || not (contains (targets_of graph.extracts) t))))
remove_unreferenced_extracts_example = remove_unreferenced_extracts_lem graph

abbrev naming : Naming
naming = record { table_prefix = none; schema_suffix = some (b'd' ∷ []); database_suffix = none }

alter_action_name_example :
    alter_action_name naming
      (action users (orders ∷ other_orders ∷ []) ∷ action orders [] ∷ [])
      (other_orders ∷ [])
    ≡ map
        (rewrite_by_rule naming (action users (orders ∷ other_orders ∷ []) ∷ action orders [] ∷ []))
        (action users (orders ∷ other_orders ∷ []) ∷ action orders [] ∷ [])
alter_action_name_example =
    alter_action_name_lem naming (action users (orders ∷ other_orders ∷ []) ∷ action orders [] ∷ [])
      (other_orders ∷ []) refl

remove_non_unique_actions-filter_example :
    checked_actions (remove_non_unique_actions graph).0
    ≡ filter_by (stands_once graph) (checked_actions graph)
remove_non_unique_actions-filter_example = remove_non_unique_actions-filter graph

remove_non_unique_actions-errors_example :
    has_error (remove_non_unique_actions graph).1 users
    ≡ any
        (λ (a : ActionProto). a.target == users && not (stands_once graph a))
        (filtered_actions graph)
remove_non_unique_actions-errors_example = remove_non_unique_actions-errors graph users

abbrev tests : List TestProto
tests =
    record { name = b'a' ∷ []; action = action users [] }
    ∷ record { name = b'a' ∷ []; action = action orders [] }
    ∷ []

resolve-updated_target_example :
    resolve bigquery defaults naming
      (λ t. other)
      (resolvable_map (with_targets all_targets))
      ref_orders
    ≡ (
      resolve_target bigquery defaults.default_database defaults.default_schema (
          updated_target
            (renamed naming
              (declared [] (other_orders ∷ []))
              (action users [] ∷ action orders [] ∷ []))
            orders),
      none,
    )
unfolding target_beq
resolve-updated_target_example =
    resolve-updated_target bigquery defaults naming (λ t. other)
      (resolvable_map (with_targets all_targets)) ref_orders orders
      (action users [] ∷ action orders [] ∷ []) (other_orders ∷ []) found_orders refl refl
