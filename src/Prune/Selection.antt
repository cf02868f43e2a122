-- ===== src/Prune/Selection.antt =====
-- cli/api/commands/prune.ts: `computeIncludedActionNames` and `prune`, as far as an action is read
-- by the selection. `Build.prune` is the function on the whole graph, its first statement included,
-- which sets the type of each table.
use sqlanvil.Base.{
  ℕ, zero, suc, Text, text_eq, Bool, true, false, ◌||◌, if◌then◌else◌, ◌==◌, List, [], ◌∷◌, ◌++◌,
  Option, none, some, contains, add_all, filter_by, any, length, map,
}
use sqlanvil.Targets.{Target, target_as_readable_string}
use sqlanvil.Prune.Patterns.{Matching, matched, ambiguous, match_patterns}

-- An action, as far as the selection reads it.
pub record CompileAction : Type 0 where
  pub target : Target
  pub tags : List Text
  pub dependency_targets : List Target

pub record CompiledGraph : Type 0 where
  pub tables : List CompileAction
  pub operations : List CompileAction
  pub assertions : List CompileAction
  pub exports : List CompileAction
  pub imports : List CompileAction
  pub extracts : List CompileAction
  pub scripts : List CompileAction
  pub targets : List Target

pub record RunConfig : Type 0 where
  pub actions : List Text
  pub tags : List Text
  pub include_dependencies : Bool
  pub include_dependents : Bool

abbrev pub all_actions : CompiledGraph → List CompileAction
all_actions g =
    g.tables ++ g.operations ++ g.assertions ++ g.exports ++ g.imports ++ g.extracts ++ g.scripts

abbrev pub name_of : CompileAction → Text
name_of a = target_as_readable_string a.target

-- `allActionNames`: a `Set` of the names, in the order of the actions.
abbrev pub action_names : List CompileAction → List Text
action_names actions = add_all [] (map name_of actions)

-- `allActionsByName.get`: of the actions that share a name the `Map` keeps the last.
abbrev pub later : Option CompileAction → CompileAction → CompileAction
later (some b) a = b
later none a = a

unfoldable pub action_named : List CompileAction → Text → Option CompileAction
action_named [] name = none
action_named (a ∷ more) name =
    let rest = action_named more name in if name == name_of a then some (later rest a) else rest

-- What a walk over the actions ends with. A name without an action cannot occur; the source would
-- then fail on `undefined`.
pub data Walk : Type 0 where
  reached : List Text → Walk
  failed : Text → List Text → Walk
  out_of_fuel : Walk

-- The `forEach` that pushes the names that are not included yet: the queue, its end first, and the
-- set of names.
abbrev pub push_new : List Text → List Text → List Text → List Text × List Text
push_new [] queue included = (queue, included)
push_new (n ∷ ns) queue included =
    if contains included n
    then push_new ns queue included
    else push_new ns (n ∷ queue) (included ++ n ∷ [])

-- The two `while` loops, which differ in the names that `step` finds for one that is popped.
unfoldable pub walk : (Text → Matching (List Text)) → ℕ → List Text → List Text → Walk
walk step fuel [] included = reached included
walk step zero (name ∷ queue) included = out_of_fuel
walk step (suc fuel) (name ∷ queue) included = elim (step name) [
  | matched names ↦ let next = push_new names queue included in walk step fuel next.0 next.1
  | ambiguous p ms ↦ failed p ms
]

abbrev pub dependencies_of : Option CompileAction → List Text → Matching (List Text)
dependencies_of none names = matched []
dependencies_of (some a) names =
    match_patterns (map target_as_readable_string a.dependency_targets) names

unfoldable pub dependency_names : List CompileAction → Text → Matching (List Text)
dependency_names actions name = dependencies_of (action_named actions name) (action_names actions)

abbrev pub keep_dependent :
    Text → Matching (List Text) → Matching (List Text) → Matching (List Text)
keep_dependent name (ambiguous p ms) rest = ambiguous p ms
keep_dependent name (matched []) rest = rest
keep_dependent name (matched (_ ∷ _)) (matched names) = matched (name ∷ names)
keep_dependent name (matched (_ ∷ _)) (ambiguous p ms) = ambiguous p ms

unfoldable pub dependent_names : List CompileAction → Text → Matching (List Text)
dependent_names [] name = matched []
dependent_names (a ∷ more) name =
    keep_dependent (name_of a)
      (match_patterns (name ∷ []) (map target_as_readable_string a.dependency_targets))
      (dependent_names more name)

abbrev pub reversed : List Text → List Text → List Text
reversed [] ys = ys
reversed (x ∷ xs) ys = reversed xs (x ∷ ys)

-- A walk starts with every included name in the queue, the last of them popped first. Every name is
-- pushed once, so the number of the actions' names is fuel enough.
unfoldable pub walk_from : List CompileAction → (Text → Matching (List Text)) → List Text → Walk
walk_from actions step included =
    walk step (length (action_names actions)) (reversed included []) included

abbrev pub is_nonempty : List Text → Bool
is_nonempty [] = false
is_nonempty (_ ∷ _) = true

abbrev pub selected_by_tags : List CompileAction → List Text → List Text
selected_by_tags actions tags =
    map name_of (filter_by (λ a. any (λ tag. contains tags tag) a.tags) actions)

-- The names that the selectors include, before the walks.
unfoldable pub selected_names : List CompileAction → RunConfig → Walk
selected_names actions config = elim (match_patterns config.actions (action_names actions)) [
  | matched names ↦ reached (add_all (add_all [] names) (selected_by_tags actions config.tags))
  | ambiguous p ms ↦ failed p ms
]

abbrev pub then_walk : Bool → List CompileAction → (Text → Matching (List Text)) → Walk → Walk
then_walk true actions step (reached names) = walk_from actions step names
then_walk false actions step (reached names) = reached names
then_walk on actions step (failed p ms) = failed p ms
then_walk on actions step out_of_fuel = out_of_fuel

-- `computeIncludedActionNames`
unfoldable pub compute_included_action_names : CompiledGraph → RunConfig → Walk
compute_included_action_names g config =
    let actions = all_actions g in
    let selected = selected_names actions config in
    let with_dependencies =
      then_walk config.include_dependencies actions (dependency_names actions) selected in
    let with_dependents =
      then_walk config.include_dependents actions (dependent_names actions) with_dependencies in
    if is_nonempty config.actions || is_nonempty config.tags
    then with_dependents
    else reached (action_names actions)

abbrev pub kept_actions : List Text → List CompileAction → List CompileAction
kept_actions names actions = filter_by (λ a. contains names (name_of a)) actions

abbrev pub kept : List Text → CompiledGraph → CompiledGraph
kept names g = record {
  tables = kept_actions names g.tables;
  operations = kept_actions names g.operations;
  assertions = kept_actions names g.assertions;
  exports = kept_actions names g.exports;
  imports = kept_actions names g.imports;
  extracts = kept_actions names g.extracts;
  scripts = kept_actions names g.scripts;
  targets = filter_by (λ t. contains names (target_as_readable_string t)) g.targets;
}

-- `prune`: the graph, or the error that it throws.
pub data Pruned : Type 0 where
  pruned : CompiledGraph → Pruned
  thrown : Text → List Text → Pruned
  unfinished : Pruned

unfoldable pub prune : CompiledGraph → RunConfig → Pruned
prune g config = elim (compute_included_action_names g config) [
  | reached names ↦ pruned (kept names g)
  | failed p ms ↦ thrown p ms
  | out_of_fuel ↦ unfinished
]
