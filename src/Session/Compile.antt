-- ===== src/Session/Compile.antt =====
-- core/session.ts: `compile`, from the actions of a session to the compiled graph and its errors.
-- Left out: tests as actions of the graph (`includeTestsInCompiledGraph`), the check of the graph
-- against its proto, and the fields of the graph that no pass reads.
pub mod Closed
pub mod Lists
pub mod Chunks
pub mod Passes
pub mod Whole
pub mod Examples
use sqlanvil.Base.{
  ℕ, Text, text_eq, Option, none, some, Bool, true, false, not, if◌then◌else◌, List, [], ◌∷◌, ◌++◌,
  map, filter_by, contains, nat_beq, get,
}
use sqlanvil.Targets.{Target, target_eq}
use sqlanvil.Resolvable.{ResolvableMap, resolvable_map}
use sqlanvil.Paths.{is_empty}
use sqlanvil.Runner.Retry.{Outcome, returned, threw}
use sqlanvil.Session.Graph.{
  ActionProto, TestProto, CompiledGraph, CompilationError, ErrorText, thrown, circular_dependency,
  targets_of,
}
use sqlanvil.Session.Depend.{Defaults, fully_qualify_dependencies}
use sqlanvil.Session.Depend.Laws.{with_targets}
use sqlanvil.Session.Extracts.{remove_unreferenced_extracts}
use sqlanvil.Session.Rename.{Naming, TargetMap, declared, renamed, rewrite_action, is_renaming}
use sqlanvil.Session.Unique.{remove_non_unique_actions, check_test_name_uniqueness}
use sqlanvil.Session.Create.{
  tests, ActionType, Chunk, chunk_of, chunk_number, Action, is_in, chunk_actions, thrown_error,
  add_compiled, compile_graph_chunk, named_test, compiled_tests, compiled_chunk, chunk_errors,
  create_graph, create_errors, vector_index, assertion, declaration, test, notebook,
  data_preparation, export_, import_, extract, script, extracts, scripts,
}
use sqlanvil.Session.Cycles.{action_of, cycle_error, vertex, cycle_errors, check_circularity}

-- The actions that the passes run over: all but the declarations.
abbrev pub passed_actions : CompiledGraph → List ActionProto
passed_actions g =
    g.tables
    ++ (g.assertions
        ++ (g.operations
            ++ (g.notebooks
                ++ (g.data_preparations
                    ++ (g.exports ++ (g.imports ++ (g.extracts ++ (g.scripts ++ g.tests))))))))

-- A pass that writes to each of these actions.
abbrev pub map_actions : (ActionProto → ActionProto) → CompiledGraph → CompiledGraph
map_actions f g = record g {
  tables = map f g.tables;
  assertions = map f g.assertions;
  operations = map f g.operations;
  notebooks = map f g.notebooks;
  data_preparations = map f g.data_preparations;
  exports = map f g.exports;
  imports = map f g.imports;
  extracts = map f g.extracts;
  scripts = map f g.scripts;
  tests = map f g.tests;
}

module _ (cfg : Defaults) (indexed assertion_map : ResolvableMap Target) where
  abbrev pub qualified : ActionProto → ActionProto
  qualified a = (fully_qualify_dependencies cfg indexed assertion_map a).0

  abbrev pub qualify_errors : List ActionProto → List CompilationError
  qualify_errors [] = []
  qualify_errors (a ∷ rest) =
      (fully_qualify_dependencies cfg indexed assertion_map a).1 ++ qualify_errors rest

-- `alterActionName`, on the graph.
abbrev pub new_targets : Naming → CompiledGraph → TargetMap
new_targets n g = renamed n (declared [] (targets_of g.declarations)) (passed_actions g)

unfoldable pub rename_graph : Naming → CompiledGraph → CompiledGraph
rename_graph n g = if is_renaming n then map_actions (rewrite_action n (new_targets n g)) g else g

-- What a session is given: the errors that are reported before `compile`, and the assertions by the
-- target of the action that they are about.
pub record Session : Type 0 where
  pub defaults : Defaults
  pub naming : Naming
  pub caller_file : Text
  pub earlier_errors : List CompilationError
  pub assertion_targets : List (Target × Target)
  pub vars_are_texts : Bool
  pub cycles : List (Target × List Target) → List (List Target)

pub record Compiled : Type 0 where
  pub graph : CompiledGraph
  pub errors : List CompilationError

module _ (s : Session) (actions : List Action) where
  abbrev pub indexed_actions : ResolvableMap Target
  indexed_actions = resolvable_map (with_targets (map (λ (a : Action). a.target) actions))

  abbrev pub qualified_graph : CompiledGraph
  qualified_graph =
      map_actions (qualified s.defaults indexed_actions (resolvable_map s.assertion_targets))
        (create_graph s.caller_file actions)

  abbrev pub renamed_graph : CompiledGraph
  renamed_graph = rename_graph s.naming (remove_unreferenced_extracts qualified_graph)

  abbrev pub unique_graph : CompiledGraph
  unique_graph = (remove_non_unique_actions renamed_graph).0

  abbrev pub all_errors : List CompilationError
  all_errors =
      s.earlier_errors
      ++ (create_errors s.caller_file actions
          ++ (qualify_errors s.defaults indexed_actions (resolvable_map s.assertion_targets)
                (passed_actions (create_graph s.caller_file actions))
              ++ ((remove_non_unique_actions renamed_graph).1
                  ++ (check_test_name_uniqueness (compiled_tests (chunk_actions tests actions))
                      ++ check_circularity s.cycles (passed_actions unique_graph)))))

  -- `compile`, on all actions with the tests last. Custom variables that are no texts make it throw.
  unfoldable pub compile : Option Compiled
  unfolding create_graph create_errors rename_graph check_circularity
  compile =
      if s.vars_are_texts then some (record { graph = unique_graph; errors = all_errors }) else none
