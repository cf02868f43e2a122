-- ===== src/Session/Extracts.antt =====
-- core/session.ts, `removeUnreferencedExtracts`.
pub mod Laws
use sqlanvil.Base.{
  Text, Option, Bool, true, false, List, ◌∷◌, [], ◌++◌, not, map, filter_by, contains, add_all,
  length, if◌then◌else◌,
}
use sqlanvil.Targets.{Target, target_eq}
use sqlanvil.Session.Graph.{ActionProto, CompiledGraph, targets_of}

abbrev pub dependencies_of : List ActionProto → List Target
dependencies_of [] = []
dependencies_of (a ∷ rest) = a.dependency_targets ++ dependencies_of rest

-- Every action but the extracts and the declarations.
abbrev pub referring_actions : CompiledGraph → List ActionProto
referring_actions g =
    g.tables
    ++ (g.assertions
        ++ (g.operations
            ++ (g.notebooks
                ++ (g.data_preparations ++ (g.exports ++ (g.imports ++ (g.scripts ++ g.tests)))))))

abbrev pub referenced_targets : CompiledGraph → List Target
referenced_targets g = add_all [] (dependencies_of (referring_actions g))

-- `prunedTargets`
abbrev pub pruned_targets : CompiledGraph → List Target
pruned_targets g = add_all [] (
    targets_of
      (filter_by (λ (e : ActionProto). not (contains (referenced_targets g) e.target)) g.extracts))

abbrev pub keep_unpruned : List Target → CompiledGraph → CompiledGraph
keep_unpruned pruned g = record g {
  extracts = filter_by (λ (e : ActionProto). not (contains pruned e.target)) g.extracts;
  targets = filter_by (λ t. not (contains pruned t)) g.targets;
}

-- `if (prunedTargets.size === 0) return;` and what follows it.
abbrev pub drop_pruned : List Target → CompiledGraph → CompiledGraph
drop_pruned [] g = g
drop_pruned (t ∷ ts) g = keep_unpruned (t ∷ ts) g

abbrev pub has_extracts : List ActionProto → Bool
has_extracts [] = false
has_extracts (_ ∷ _) = true

unfoldable pub remove_unreferenced_extracts : CompiledGraph → CompiledGraph
remove_unreferenced_extracts g =
    if has_extracts g.extracts then drop_pruned (pruned_targets g) g else g
