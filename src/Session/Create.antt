-- ===== src/Session/Create.antt =====
-- core/session.ts: the graph as `compile` creates it from the actions, with `compileGraphChunk` and
-- `compileError`.
use sqlanvil.Base.{
  ℕ, Text, text_eq, some, Bool, if◌then◌else◌, List, [], ◌∷◌, ◌++◌, map, filter_by, nat_beq,
}
use sqlanvil.Targets.{Target, target_eq}
use sqlanvil.Paths.{is_empty}
use sqlanvil.Runner.Retry.{Outcome, returned, threw}
use sqlanvil.Session.Graph.{ActionProto, TestProto, CompiledGraph, CompilationError, thrown}

-- The classes of actions.
pub data ActionType : Type 0 where
  table view incremental_table operation rls_policy realtime_publication wrapper foreign_table
        vector_index :
      ActionType
  assertion declaration test notebook data_preparation export_ import_ extract script : ActionType

-- The lists of the graph.
pub data Chunk : Type 0 where
  tables operations assertions declarations tests notebooks data_preparations exports imports
        extracts scripts :
      Chunk

-- The list for which `compile` selects an action by its class.
unfoldable pub chunk_of : ActionType → Chunk
chunk_of table = tables
chunk_of view = tables
chunk_of incremental_table = tables
chunk_of operation = operations
chunk_of rls_policy = operations
chunk_of realtime_publication = operations
chunk_of wrapper = operations
chunk_of foreign_table = operations
chunk_of vector_index = operations
chunk_of assertion = assertions
chunk_of declaration = declarations
chunk_of test = tests
chunk_of notebook = notebooks
chunk_of data_preparation = data_preparations
chunk_of export_ = exports
chunk_of import_ = imports
chunk_of extract = extracts
chunk_of script = scripts

abbrev pub chunk_number : Chunk → ℕ
chunk_number tables = 0
chunk_number operations = 1
chunk_number assertions = 2
chunk_number declarations = 3
chunk_number tests = 4
chunk_number notebooks = 5
chunk_number data_preparations = 6
chunk_number exports = 7
chunk_number imports = 8
chunk_number extracts = 9
chunk_number scripts = 10

-- An action of the session: `compiled` is what its `compile` returns or throws, `reported` are the
-- errors that `compile` reports on the way, and `test_name` is the name of a test.
pub record Action : Type 0 where
  pub type : ActionType
  pub target : Target
  pub file_name : Text
  pub test_name : Text
  pub compiled : Outcome Text ActionProto
  pub reported : List CompilationError

abbrev pub is_in : Chunk → Action → Bool
is_in k a = nat_beq (chunk_number (chunk_of a.type)) (chunk_number k)

abbrev pub chunk_actions : Chunk → List Action → List Action
chunk_actions k actions = filter_by (is_in k) actions

-- `compileError` for a call that has thrown. `caller_file` is what `getCallerFile` finds where the
-- action has no file.
abbrev pub thrown_error : Text → Action → Text → CompilationError
thrown_error caller_file a e = record {
  message = thrown e;
  file_name = if is_empty a.file_name then caller_file else a.file_name;
  action_target = some a.target;
}

abbrev pub add_compiled :
    Text
    → Action
    → Outcome Text ActionProto
    → List ActionProto × List CompilationError
    → List ActionProto × List CompilationError
add_compiled caller_file a (returned p) (ps, errors) = (p ∷ ps, a.reported ++ errors)
add_compiled caller_file a (threw e) (ps, errors) =
    (ps, a.reported ++ (thrown_error caller_file a e ∷ errors))

-- `compileGraphChunk`
unfoldable pub compile_graph_chunk : Text → List Action → List ActionProto × List CompilationError
compile_graph_chunk caller_file [] = ([], [])
compile_graph_chunk caller_file (a ∷ rest) =
    add_compiled caller_file a a.compiled (compile_graph_chunk caller_file rest)

-- The tests that are compiled, with their names.
abbrev pub named_test : Action → Outcome Text ActionProto → List TestProto
named_test a (returned p) = record { name = a.test_name; action = p } ∷ []
named_test a (threw e) = []

unfoldable pub compiled_tests : List Action → List TestProto
compiled_tests [] = []
compiled_tests (a ∷ rest) = named_test a a.compiled ++ compiled_tests rest

module _ (caller_file : Text) (actions : List Action) where
  abbrev pub compiled_chunk : Chunk → List ActionProto
  compiled_chunk k = (compile_graph_chunk caller_file (chunk_actions k actions)).0

  abbrev pub chunk_errors : Chunk → List CompilationError
  chunk_errors k = (compile_graph_chunk caller_file (chunk_actions k actions)).1

  -- The graph as it is created, and the errors in the order of the calls.
  unfoldable pub create_graph : CompiledGraph
  unfolding compile_graph_chunk
  create_graph = record {
    tables = compiled_chunk tables;
    operations = compiled_chunk operations;
    assertions = compiled_chunk assertions;
    declarations = compiled_chunk declarations;
    notebooks = compiled_chunk notebooks;
    data_preparations = compiled_chunk data_preparations;
    exports = compiled_chunk exports;
    imports = compiled_chunk imports;
    extracts = compiled_chunk extracts;
    scripts = compiled_chunk scripts;
    tests = compiled_chunk tests;
    targets = map (λ (a : Action). a.target) actions;
  }

  unfoldable pub create_errors : List CompilationError
  unfolding compile_graph_chunk
  create_errors =
      chunk_errors tables
      ++ (chunk_errors operations
          ++ (chunk_errors assertions
              ++ (chunk_errors declarations
                  ++ (chunk_errors tests
                      ++ (chunk_errors notebooks
                          ++ (chunk_errors data_preparations
                              ++ (chunk_errors exports
                                  ++ (chunk_errors imports
                                      ++ (chunk_errors extracts ++ chunk_errors scripts)))))))))
