-- ===== src/Session/Compile/Examples.antt =====
-- A run of the model of `compile` in core/session.ts on a small session.
use sqlanvil.Base.{Text, none, some, true, List, [], ◌∷◌, ◌≡◌, refl, map}
use sqlanvil.Targets.{Target, target_as_readable_string, target_beq}
use sqlanvil.Resolvable.{find, resolvable_map, set_by_name_level, set_by_schema_level}
use sqlanvil.Runner.Retry.{returned}
use sqlanvil.Session.Graph.{ActionProto}
use sqlanvil.Session.Rename.{new_target, updated_target}
use sqlanvil.Session.Create.{
  table, ActionType, Action, assertion, declaration, extract, create_graph, create_errors,
  compile_graph_chunk, chunk_of, compiled_tests,
}
use sqlanvil.Session.Cycles.{check_circularity}
use sqlanvil.Session.Compile.{Session, Compiled, compile, unique_graph, all_errors, rename_graph}
use sqlanvil.Session.Compile.Whole.{IsWellFormed, compile-IsWellFormed}
use sqlanvil.Session.Depend.{find_actions, qualify, qualify_all, fully_qualify_dependencies}
use sqlanvil.Session.Unique.{
  get_non_unique_targets, remove_non_unique_actions, check_test_name_uniqueness,
}
use sqlanvil.Session.Extracts.{remove_unreferenced_extracts}

abbrev in_schema : Text → Target
in_schema name = record {
  database = none;
  schema = some (b's' ∷ []);
  name = name;
  include_dependent_assertions = none;
}

abbrev orders : Target
orders = in_schema (b'o' ∷ [])

abbrev users : Target
users = in_schema (b'u' ∷ [])

abbrev checks : Target
checks = in_schema (b'c' ∷ [])

abbrev unused : Target
unused = in_schema (b'x' ∷ [])

abbrev action : ActionType → Target → List Target → Action
action k t depends = record {
  type = k;
  target = t;
  file_name = b'f' ∷ [];
  test_name = [];
  compiled = returned (record {
    target = t;
    canonical_target = t;
    file_name = b'f' ∷ [];
    dependency_targets = depends;
    parent_action = none;
  });
  reported = [];
}

-- `orders` depends on the declaration `users` and the assertions about it; nothing depends on the
-- extract.
abbrev actions : List Action
actions =
    action table orders
      (record users { schema = none; include_dependent_assertions = some true } ∷ [])
    ∷ action assertion checks (users ∷ [])
    ∷ action declaration users []
    ∷ action extract unused []
    ∷ []

abbrev session : Session
session = record {
  defaults = record { default_database = none; default_schema = some (b's' ∷ []) };
  naming = record { table_prefix = some (b'p' ∷ []); schema_suffix = none; database_suffix = none };
  caller_file = [];
  earlier_errors = [];
  assertion_targets = (users, checks) ∷ [];
  vars_are_texts = true;
  cycles = λ vertices. [];
}

abbrev compiled : Compiled
compiled = record { graph = unique_graph session actions; errors = all_errors session actions }

no_errors : compiled.errors ≡ []
unfolding create_errors compile_graph_chunk create_graph rename_graph check_circularity find_actions
    qualify qualify_all fully_qualify_dependencies get_non_unique_targets remove_non_unique_actions
    check_test_name_uniqueness remove_unreferenced_extracts new_target updated_target chunk_of find
    resolvable_map set_by_name_level set_by_schema_level target_as_readable_string target_beq
    compiled_tests
no_errors = refl

compile-IsWellFormed_example : IsWellFormed compiled.graph
unfolding compile target_beq
compile-IsWellFormed_example =
    compile-IsWellFormed session actions compiled (refl, (refl, (refl, (refl, tt)))) (refl, tt) refl
      no_errors

-- The table and its dependencies in the compiled graph: the assertion is added and renamed, the
-- declaration keeps its name.
depends-compiled :
    map (λ (a : ActionProto). a.dependency_targets) compiled.graph.tables
    ≡ (users ∷ record (in_schema (b'p' ∷ b'_' ∷ b'c' ∷ [])) { database = some [] } ∷ []) ∷ []
unfolding create_errors compile_graph_chunk create_graph rename_graph find_actions qualify
    qualify_all fully_qualify_dependencies get_non_unique_targets remove_non_unique_actions
    remove_unreferenced_extracts new_target updated_target chunk_of find resolvable_map
    set_by_name_level set_by_schema_level target_as_readable_string target_beq
depends-compiled = refl
