-- ===== src/Build.antt =====
-- cli/api/commands/build.ts and state.ts: the execution graph of a compiled graph. `Actions` builds
-- the single actions, and this module the graph.
pub mod Actions
pub mod Laws
pub mod Selected
pub mod Tables
pub mod Examples
use sqlanvil.Base.{
  Text, text_eq, Option, none, some, Bool, true, false, if◌then◌else◌, List, [], ◌∷◌, ◌++◌, map,
  filter_by, contains, add_all, get, put,
}
use sqlanvil.Targets.{Target, target_eq, target_as_readable_string}
use sqlanvil.ExecSql.Types.{
  MetadataType, metadata_beq, Table, TableMetadata, Operation, Assertion, Export, Import, Generator,
  Result, ok, error, ◌>>=◌, compilation_errors, unrecognized_selection,
}
use sqlanvil.ExecSql.Postgres.{RunConfig}
use sqlanvil.Prune.Selection.{
  CompileAction, Walk, reached, failed, out_of_fuel, compute_included_action_names,
}
use sqlanvil.Prune.Selection as Selection
use sqlanvil.Build.Actions.{
  Common, Sourced, Extract, Script, ExecutionAction, set_or_validate_table_enum_type, build_table,
  build_operation, build_assertion, build_export, build_import, build_extract, build_script,
}

-- The compiled graph, as far as `prune` and `Builder` read it.
pub record Graph : Type 0 where
  pub tables : List (Sourced Table)
  pub operations : List (Sourced Operation)
  pub assertions : List (Sourced Assertion)
  pub exports : List (Sourced Export)
  pub imports : List (Sourced Import)
  pub extracts : List (Sourced Extract)
  pub scripts : List (Sourced Script)
  pub declarations : List Target
  pub targets : List Target
  pub has_errors : Bool

pub record ExecutionGraph : Type 0 where
  pub warehouse_state : List TableMetadata
  pub declaration_targets : List Target
  pub actions : List ExecutionAction

-- `forEach` and `map` of calls that may throw: the first error ends them.
unfoldable pub traverse {ℓ κ} :
    {A : Type ℓ} {B : Type κ} → (A → Result B) → List A → Result (List B)
traverse f [] = ok []
traverse f (x ∷ xs) = f x >>= λ y. traverse f xs >>= λ ys. ok (y ∷ ys)

-- `targetAsReadableString(action.target)` for each kind of action.
abbrev pub compile_action : Common → Target → CompileAction
compile_action c t = record { target = t; tags = c.tags; dependency_targets = c.dependency_targets }

abbrev pub table_action : Sourced Table → CompileAction
table_action a = compile_action a.common a.body.target

abbrev pub operation_action : Sourced Operation → CompileAction
operation_action a = compile_action a.common a.body.target

abbrev pub assertion_action : Sourced Assertion → CompileAction
assertion_action a = compile_action a.common a.body.target

abbrev pub export_action : Sourced Export → CompileAction
export_action a = compile_action a.common a.body.target

abbrev pub import_action : Sourced Import → CompileAction
import_action a = compile_action a.common a.body.target

abbrev pub extract_action : Sourced Extract → CompileAction
extract_action a = compile_action a.common a.body.target

abbrev pub script_action : Sourced Script → CompileAction
script_action a = compile_action a.common a.body.target

-- What the selection reads of a graph.
abbrev pub selectable : Graph → Selection.CompiledGraph
selectable g = record {
  tables = map table_action g.tables;
  operations = map operation_action g.operations;
  assertions = map assertion_action g.assertions;
  exports = map export_action g.exports;
  imports = map import_action g.imports;
  extracts = map extract_action g.extracts;
  scripts = map script_action g.scripts;
  targets = g.targets;
}

-- The filter of `prune`.
abbrev pub keep {ℓ} : {A : Type ℓ} → (A → CompileAction) → List Text → List A → List A
keep action names xs = filter_by (λ x. contains names (Selection.name_of (action x))) xs

abbrev pub kept : List Text → Graph → Graph
kept names g = record {
  tables = keep table_action names g.tables;
  operations = keep operation_action names g.operations;
  assertions = keep assertion_action names g.assertions;
  exports = keep export_action names g.exports;
  imports = keep import_action names g.imports;
  extracts = keep extract_action names g.extracts;
  scripts = keep script_action names g.scripts;
  declarations = g.declarations;
  targets = filter_by (λ t. contains names (target_as_readable_string t)) g.targets;
  has_errors = g.has_errors;
}

abbrev pub typed_table : Sourced Table → Result (Sourced Table)
typed_table t = set_or_validate_table_enum_type t.body >>= λ table.
    ok (record { common = t.common; body = table })

-- `tables.forEach(setOrValidateTableEnumType)`
unfoldable pub typed_graph : Graph → Result Graph
unfolding traverse set_or_validate_table_enum_type
typed_graph g = traverse typed_table g.tables >>= λ tables. ok (record g { tables = tables })

abbrev pub select : Graph → Walk → Result Graph
select g (reached names) = ok (kept names g)
select g _ = error unrecognized_selection

-- `prune`, on the whole graph.
unfoldable pub prune : Graph → Selection.RunConfig → Result Graph
unfolding typed_graph compute_included_action_names
prune g config = typed_graph g >>= λ typed.
    select typed (compute_included_action_names (selectable typed) config)

-- `state`: the tables of the warehouse that exist. `lookup` is the adapter's `table`, whose type is
-- `UNKNOWN` where the object is none of the known ones.
abbrev pub found_table : Option TableMetadata → List TableMetadata
found_table none = []
found_table (some m) = if metadata_beq m.type MetadataType.unknown then [] else m ∷ []

unfoldable pub state : (Target → Option TableMetadata) → List Target → List TableMetadata
state lookup [] = []
state lookup (t ∷ ts) = found_table (lookup t) ++ state lookup ts

-- `tableMetadataByTarget`
unfoldable pub metadata_by_target :
    List (Target × TableMetadata) → List TableMetadata → List (Target × TableMetadata)
metadata_by_target found [] = found
metadata_by_target found (m ∷ ms) = metadata_by_target (put found m.target m) ms

abbrev pub metadata_of : List TableMetadata → Target → Option TableMetadata
metadata_of state t = get (metadata_by_target [] state) t

abbrev pub execution_graph : List TableMetadata → Graph → List ExecutionAction → ExecutionGraph
execution_graph tables graph actions = record {
  warehouse_state = tables;
  declaration_targets = graph.declarations;
  actions = actions;
}

-- `allInvolvedTargets`
abbrev pub involved_targets : Graph → List Target
involved_targets g = add_all [] (map (λ (t : Sourced Table). t.body.target) g.tables)

module _ (g : Generator) (run : RunConfig) where
  unfoldable pub all_actions : List TableMetadata → Graph → Result (List ExecutionAction)
  unfolding traverse metadata_by_target build_table build_operation build_assertion build_export
      build_import build_extract build_script
  all_actions tables graph =
      traverse (λ (t : Sourced Table). build_table g run (metadata_of tables t.body.target) t)
        graph.tables
      >>= λ a. traverse (build_operation g) graph.operations >>= λ b.
          traverse (build_assertion g) graph.assertions >>= λ c.
          traverse (build_export g) graph.exports >>= λ d.
          traverse (build_import g) graph.imports >>= λ e.
          traverse (build_extract g) graph.extracts >>= λ f.
          traverse (build_script g) graph.scripts >>= λ h.
          ok (a ++ (b ++ (c ++ (d ++ (e ++ (f ++ h))))))

  -- `Builder`, whose constructor sets the types again, and its `build`.
  unfoldable pub build_graph : List TableMetadata → Graph → Result ExecutionGraph
  unfolding typed_graph all_actions
  build_graph tables pruned = typed_graph pruned >>= λ graph.
      if graph.has_errors
      then error compilation_errors
      else (all_actions tables graph >>= λ actions. ok (execution_graph tables graph actions))

  -- `build`
  unfoldable pub build :
      (Target → Option TableMetadata) → Selection.RunConfig → Graph → Result ExecutionGraph
  unfolding prune state build_graph
  build lookup config graph =
      prune graph config >>= λ pruned. build_graph (state lookup (involved_targets pruned)) pruned
