-- ===== src/Prune/Examples.antt =====
-- Runs of the models of core/utils.ts and cli/api/commands/prune.ts on a small graph.
use sqlanvil.Base.{
  nat_eq, Text, text_eq, none, some, true, false, ◌&&◌, List, ◌∷◌, [], ◌≡◌, refl, any, map,
  contains,
}
use sqlanvil.Targets.{Target, target_as_readable_string}
use sqlanvil.Prune.Patterns.{matched, ambiguous, match_pattern, match_patterns, glob}
use sqlanvil.Prune.Matches.{
  selects, IsAmbiguous, match_patterns-selects, match_patterns-IsAmbiguous,
}
use sqlanvil.Prune.Selection.{
  CompileAction, CompiledGraph, RunConfig, reached, all_actions, compute_included_action_names,
  selected_names, dependency_names, action_named, walk, walk_from,
}
use sqlanvil.Prune.Exact.{IsIncluded, compute_included_action_names-IsIncluded}

abbrev named : Text → Target
named name = record {
  database = none;
  schema = some (b's' ∷ []);
  name = name;
  include_dependent_assertions = none;
}

abbrev action : Text → List Text → List Text → CompileAction
action name tags depends = record {
  target = named name;
  tags = tags;
  dependency_targets = map named depends;
}

abbrev a_name : Text
a_name = b'a' ∷ []

abbrev b_name : Text
b_name = b'b' ∷ []

abbrev c_name : Text
c_name = b'c' ∷ []

-- `c` reads `b`, which reads `a`.
abbrev graph : CompiledGraph
graph = record {
  tables = action a_name [] [] ∷ action b_name [] (a_name ∷ []) ∷ [];
  operations = action c_name ((b't' ∷ []) ∷ []) (b_name ∷ []) ∷ [];
  assertions = [];
  exports = [];
  imports = [];
  extracts = [];
  scripts = [];
  targets = named a_name ∷ named b_name ∷ named c_name ∷ [];
}

abbrev select_b : RunConfig
select_b = record {
  actions = b_name ∷ [];
  tags = [];
  include_dependencies = true;
  include_dependents = false;
}

abbrev s_a : Text
s_a = b's' ∷ b'.' ∷ a_name

abbrev s_b : Text
s_b = b's' ∷ b'.' ∷ b_name

abbrev s_c : Text
s_c = b's' ∷ b'.' ∷ c_name

selected_b_and_a : compute_included_action_names graph select_b ≡ reached (s_b ∷ s_a ∷ [])
unfolding compute_included_action_names selected_names dependency_names action_named walk walk_from
    match_patterns match_pattern target_as_readable_string
selected_b_and_a = refl

compute_included_action_names-IsIncluded_example :
    IsIncluded (all_actions graph) select_b (s_b ∷ s_a ∷ [])
compute_included_action_names-IsIncluded_example =
    compute_included_action_names-IsIncluded graph select_b (s_b ∷ s_a ∷ []) refl selected_b_and_a

-- `*` finds both names, the bare name only the first.
matched_twice :
    match_patterns ((b'*' ∷ []) ∷ a_name ∷ []) (s_a ∷ s_b ∷ []) ≡ matched (s_a ∷ s_b ∷ s_a ∷ [])
unfolding match_patterns match_pattern glob
matched_twice = refl

match_patterns-selects_example : contains (s_a ∷ s_b ∷ s_a ∷ []) s_b ≡ (
    contains (s_a ∷ s_b ∷ []) s_b
    && any (λ pattern. selects pattern s_b) ((b'*' ∷ []) ∷ a_name ∷ []))
match_patterns-selects_example =
    match_patterns-selects ((b'*' ∷ []) ∷ a_name ∷ []) (s_a ∷ s_b ∷ []) (s_a ∷ s_b ∷ s_a ∷ []) s_b
      matched_twice

abbrev t_a : Text
t_a = b't' ∷ b'.' ∷ a_name

two_a :
    match_patterns (s_b ∷ a_name ∷ []) (s_a ∷ s_b ∷ t_a ∷ []) ≡ ambiguous a_name (s_a ∷ t_a ∷ [])
unfolding match_patterns match_pattern target_as_readable_string
two_a = refl

match_patterns-IsAmbiguous_example :
    (contains (s_b ∷ a_name ∷ []) a_name ≡ true)
    × IsAmbiguous (s_a ∷ s_b ∷ t_a ∷ []) a_name (s_a ∷ t_a ∷ [])
match_patterns-IsAmbiguous_example =
    match_patterns-IsAmbiguous (s_b ∷ a_name ∷ []) (s_a ∷ s_b ∷ t_a ∷ []) a_name (s_a ∷ t_a ∷ [])
      two_a
