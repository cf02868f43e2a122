-- ===== src/Session/Cycles.antt =====
-- core/session.ts: `checkCircularity`.
use sqlanvil.Base.{
  text_eq, Option, none, some, if◌then◌else◌, List, [], ◌∷◌, ◌++◌, map, filter_by, contains,
}
use sqlanvil.Targets.{Target, target_eq}
use sqlanvil.Session.Graph.{ActionProto, CompilationError, circular_dependency, targets_of}

-- `checkCircularity`. `cycles` is the tarjan-graph package's `getCycles` on the vertices that `add`
-- has been called with; a cycle is not empty.
abbrev pub action_of : List ActionProto → Target → Option ActionProto → Option ActionProto
action_of [] t found = found
action_of (a ∷ rest) t found =
    action_of rest t (if contains (a.target ∷ []) t then some a else found)

abbrev pub cycle_error : List ActionProto → List Target → List CompilationError
cycle_error actions [] = []
cycle_error actions (t ∷ ts) = elim (action_of actions t none) [
  | none ↦ []
  | some a ↦
      record {
        message = circular_dependency (t ∷ ts);
        file_name = a.file_name;
        action_target = some a.target;
      }
      ∷ []
]

abbrev pub vertex : List ActionProto → ActionProto → Target × List Target
vertex actions a = (a.target, filter_by (λ d. contains (targets_of actions) d) a.dependency_targets)

abbrev pub cycle_errors : List ActionProto → List (List Target) → List CompilationError
cycle_errors actions [] = []
cycle_errors actions (c ∷ cs) = cycle_error actions c ++ cycle_errors actions cs

unfoldable pub check_circularity :
    (List (Target × List Target) → List (List Target)) → List ActionProto → List CompilationError
check_circularity cycles actions = cycle_errors actions (cycles (map (vertex actions) actions))
