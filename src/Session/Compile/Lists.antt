-- ===== src/Session/Compile/Lists.antt =====
-- core/session.ts: the lists of a compiled graph, and where an action stands in them.
use sqlanvil.Base.{text_eq, true, List, [], ◌∷◌, ◌++◌, contains, contains-append, ◌≡◌, arith}
use sqlanvil.Targets.{Target, target_eq}
use sqlanvil.Session.Graph.{ActionProto, CompiledGraph, targets_of}
use sqlanvil.Session.Create.{
  tables, operations, assertions, declarations, tests, notebooks, data_preparations, exports,
  imports, Chunk, extracts, scripts,
}
use sqlanvil.Session.Compile.{passed_actions}

-- The targets of all actions of a graph, its declarations last.
abbrev pub all_targets : CompiledGraph → List Target
all_targets g = targets_of (passed_actions g) ++ targets_of g.declarations

in_left :
    (xs ys : List ActionProto) (t : Target)
    → contains (targets_of xs) t ≡ true
    → contains (targets_of (xs ++ ys)) t ≡ true
in_left [] ys t h = absurd (ground (arith, h))
in_left (x ∷ xs) ys t h = ground (arith, h, in_left xs ys t)

in_right :
    (xs ys : List ActionProto) (t : Target)
    → contains (targets_of ys) t ≡ true
    → contains (targets_of (xs ++ ys)) t ≡ true
in_right [] ys t h = h
in_right (x ∷ xs) ys t h = ground (arith, in_right xs ys t h)

in_passed :
    (g : CompiledGraph) (t : Target)
    → contains (targets_of (passed_actions g)) t ≡ true
    → contains (all_targets g) t ≡ true
in_passed g t h =
    ground (arith, h, contains-append (targets_of (passed_actions g)) (targets_of g.declarations) t)

behind_operations :
    (g : CompiledGraph) (rest : List ActionProto) (t : Target)
    → contains (targets_of rest) t ≡ true
    → contains (targets_of (g.tables ++ (g.assertions ++ (g.operations ++ rest)))) t ≡ true
behind_operations g rest t h =
    in_right g.tables _ t (in_right g.assertions _ t (in_right g.operations rest t h))

behind_preparations :
    (g : CompiledGraph) (rest : List ActionProto) (t : Target)
    → contains (targets_of rest) t ≡ true
    → contains
        (targets_of (
          g.tables
          ++ (g.assertions ++ (g.operations ++ (g.notebooks ++ (g.data_preparations ++ rest))))))
        t
      ≡ true
behind_preparations g rest t h =
    behind_operations g _ t (in_right g.notebooks _ t (in_right g.data_preparations rest t h))

behind_imports :
    (g : CompiledGraph) (rest : List ActionProto) (t : Target)
    → contains (targets_of rest) t ≡ true
    → contains
        (targets_of (
          g.tables
          ++ (g.assertions
              ++ (g.operations
                  ++ (g.notebooks
                      ++ (g.data_preparations ++ (g.exports ++ (g.imports ++ rest))))))))
        t
      ≡ true
behind_imports g rest t h =
    behind_preparations g _ t (in_right g.exports _ t (in_right g.imports rest t h))

-- The list of the graph for a chunk.
abbrev pub chunk_list : CompiledGraph → Chunk → List ActionProto
chunk_list g tables = g.tables
chunk_list g operations = g.operations
chunk_list g assertions = g.assertions
chunk_list g declarations = g.declarations
chunk_list g tests = g.tests
chunk_list g notebooks = g.notebooks
chunk_list g data_preparations = g.data_preparations
chunk_list g exports = g.exports
chunk_list g imports = g.imports
chunk_list g extracts = g.extracts
chunk_list g scripts = g.scripts

pub in_chunk :
    (g : CompiledGraph) (k : Chunk) (t : Target)
    → contains (targets_of (chunk_list g k)) t ≡ true
    → contains (all_targets g) t ≡ true
in_chunk g declarations t h =
    ground (arith, h, contains-append (targets_of (passed_actions g)) (targets_of g.declarations) t)
in_chunk g tables t h = in_passed g t (in_left g.tables _ t h)
in_chunk g assertions t h = in_passed g t (in_right g.tables _ t (in_left g.assertions _ t h))
in_chunk g operations t h =
    in_passed g t (in_right g.tables _ t (in_right g.assertions _ t (in_left g.operations _ t h)))
in_chunk g notebooks t h = in_passed g t (behind_operations g _ t (in_left g.notebooks _ t h))
in_chunk g data_preparations t h =
    in_passed g t
      (behind_operations g _ t (in_right g.notebooks _ t (in_left g.data_preparations _ t h)))
in_chunk g exports t h = in_passed g t (behind_preparations g _ t (in_left g.exports _ t h))
in_chunk g imports t h =
    in_passed g t (behind_preparations g _ t (in_right g.exports _ t (in_left g.imports _ t h)))
in_chunk g extracts t h = in_passed g t (behind_imports g _ t (in_left g.extracts _ t h))
in_chunk g scripts t h =
    in_passed g t (behind_imports g _ t (in_right g.extracts _ t (in_left g.scripts _ t h)))
in_chunk g tests t h =
    in_passed g t (behind_imports g _ t (in_right g.extracts _ t (in_right g.scripts _ t h)))
