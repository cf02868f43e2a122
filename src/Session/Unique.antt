-- ===== src/Session/Unique.antt =====
-- core/session.ts: `removeNonUniqueActionsFromCompiledGraph` and `checkTestNameUniqueness`.
pub mod Laws
use sqlanvil.Base.{
  Text, text_eq, Option, none, some, Bool, true, false, List, ◌∷◌, [], ◌++◌, ◌&&◌, ◌||◌, not,
  contains, add, filter_by, if◌then◌else◌,
}
use sqlanvil.Targets.{Target, target_eq}
use sqlanvil.Session.Graph.{
  ActionProto, TestProto, CompiledGraph, CompilationError, ErrorText, duplicate_action_name,
  duplicate_canonical_target, duplicate_test_name, targets_of, canonical_targets_of,
}

-- The loop of `getNonUniqueTargets`, with `allTargets` and `nonUniqueTargets`.
abbrev pub non_unique_from : List Target → List Target → List Target → List Target
non_unique_from all non_unique [] = non_unique
non_unique_from all non_unique (t ∷ ts) =
    non_unique_from (add all t) (if contains all t then add non_unique t else non_unique) ts

-- `getNonUniqueTargets`
unfoldable pub get_non_unique_targets : List Target → List Target
get_non_unique_targets targets = non_unique_from [] [] targets

-- The lists that the check reads, in its order.
abbrev pub checked_actions : CompiledGraph → List ActionProto
checked_actions g =
    g.tables
    ++ (g.assertions
        ++ (g.operations
            ++ (g.declarations ++ (g.notebooks ++ (g.data_preparations ++ g.scripts)))))

module _ (non_unique non_unique_canonical : List Target) where
  -- The result of `isUniqueAction`.
  abbrev pub is_unique_action : ActionProto → Bool
  is_unique_action a =
      not (contains non_unique a.target) && not (contains non_unique_canonical a.canonical_target)

  -- The errors that `isUniqueAction` reports.
  abbrev pub uniqueness_errors : ActionProto → List CompilationError
  uniqueness_errors a =
      (if contains non_unique a.target
        then record {
          message = duplicate_action_name a.target;
          file_name = a.file_name;
          action_target = some a.target;
        }
          ∷ []
        else [])
      ++ (if contains non_unique_canonical a.canonical_target
          then record {
            message = duplicate_canonical_target a.canonical_target;
            file_name = a.file_name;
            action_target = some a.target;
          }
            ∷ []
          else [])

  abbrev pub all_errors : List ActionProto → List CompilationError
  all_errors [] = []
  all_errors (a ∷ rest) = uniqueness_errors a ++ all_errors rest

  abbrev pub keep_unique : CompiledGraph → CompiledGraph
  keep_unique g = record g {
    tables = filter_by is_unique_action g.tables;
    operations = filter_by is_unique_action g.operations;
    declarations = filter_by is_unique_action g.declarations;
    assertions = filter_by is_unique_action g.assertions;
    notebooks = filter_by is_unique_action g.notebooks;
    data_preparations = filter_by is_unique_action g.data_preparations;
    scripts = filter_by is_unique_action g.scripts;
  }

-- The actions in the order in which the assignments at the end filter them.
abbrev pub filtered_actions : CompiledGraph → List ActionProto
filtered_actions g =
    g.tables
    ++ (g.operations
        ++ (g.declarations
            ++ (g.assertions ++ (g.notebooks ++ (g.data_preparations ++ g.scripts)))))

-- The graph that is left, and the errors in the order in which they are reported.
unfoldable pub remove_non_unique_actions : CompiledGraph → CompiledGraph × List CompilationError
unfolding get_non_unique_targets
remove_non_unique_actions g =
    let non_unique = get_non_unique_targets (targets_of (checked_actions g)) in
    let canonical = get_non_unique_targets (canonical_targets_of (checked_actions g)) in
    (keep_unique non_unique canonical g, all_errors non_unique canonical (filtered_actions g))

-- The loop of `checkTestNameUniqueness`, with `allNames`.
abbrev pub check_names : List Text → List TestProto → List CompilationError
check_names seen [] = []
check_names seen (t ∷ ts) =
    (if contains seen t.name
      then record {
        message = duplicate_test_name t.name;
        file_name = t.action.file_name;
        action_target = none;
      }
        ∷ []
      else [])
    ++ check_names (seen ++ t.name ∷ []) ts

unfoldable pub check_test_name_uniqueness : List TestProto → List CompilationError
check_test_name_uniqueness tests = check_names [] tests
