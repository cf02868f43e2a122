-- ===== src/Build/Examples.antt =====
-- cli/api/commands/build.ts: a build of a small graph.
use sqlanvil.Base.{
  Text, text_eq, Option, none, some, true, false, List, [], ◌∷◌, map, filter_by, ◌≡◌, refl, ◌↔◌,
  arith, codes,
}
use sqlanvil.Targets.{Target, target_eq, target_beq, target_as_readable_string}
use sqlanvil.CompilationSql.{mysql}
use sqlanvil.ExecSql.Types.{
  TableType, MetadataType, TableMetadata, OnSchemaChange, IncrementalStrategy, Table, Generator, ok,
}
use sqlanvil.ExecSql.Postgres.{RunConfig}
use sqlanvil.Prune.Selection as Selection
use sqlanvil.Prune.Selection.{reached, compute_included_action_names}
use sqlanvil.Build.Actions.{
  Common, Sourced, Script, ExecutionAction, Hermeticity, hermetic, execution_action, table_spec,
  script_spec, build_table, unknown,
}
use sqlanvil.Build.{Graph, ExecutionGraph, build, state, metadata_of, selectable}
use sqlanvil.Build.Laws.{target_of, all_targets}
use sqlanvil.Build.Selected.{wanted, build-selected}
use sqlanvil.Build.Tables.{known, build_table-disabled_iff, metadata_of-state}

abbrev generator : Generator
generator = record {
  warehouse = mysql;
  default_database = none;
  default_schema = some (codes "main");
  version = codes "3.0.0";
  semver_gt = λ a b. true;
  unique_id = codes "u1";
  stringify = λ texts. [];
}

abbrev target : Text → Target
target name = record {
  database = none;
  schema = some (codes "s");
  name = name;
  include_dependent_assertions = none;
}

abbrev common : Common
common = record {
  file_name = codes "f";
  tags = [];
  dependency_targets = [];
  hermeticity = unknown;
  has_descriptor = false;
}

abbrev orders : Table
orders = record {
  target = target (codes "orders");
  enum_type = TableType.unknown_type;
  type = codes "view";
  disabled = true;
  query = codes "select 1";
  protected = false;
  materialized = false;
  where_ = [];
  incremental_query = [];
  unique_key = [];
  on_schema_change = OnSchemaChange.ignore;
  incremental_strategy = IncrementalStrategy.unspecified;
  pre_ops = [];
  post_ops = [];
  incremental_pre_ops = [];
  incremental_post_ops = [];
  bigquery = none;
  postgres = none;
  supabase = none;
  mysql = none;
}

abbrev report : Script
report = record {
  target = target (codes "report");
  disabled = true;
  language = codes "python";
  script_filename = codes "r.py";
  args = [];
  deps_file = [];
  runtime_version = [];
  env_root = [];
}

abbrev sourced {ℓ} : {A : Type ℓ} → A → Sourced A
sourced a = record { common = common; body = a }

abbrev graph : Graph
graph = record {
  tables = sourced orders ∷ [];
  operations = [];
  assertions = [];
  exports = [];
  imports = [];
  extracts = [];
  scripts = sourced report ∷ [];
  declarations = [];
  targets = [];
  has_errors = false;
}

abbrev no_selectors : Selection.RunConfig
no_selectors = record {
  actions = [];
  tags = [];
  include_dependencies = false;
  include_dependents = false;
}

abbrev run : RunConfig
run = record { full_refresh = false }

abbrev orders_view : Table
orders_view = record orders { enum_type = TableType.view }

abbrev orders_action : ExecutionAction
orders_action =
    execution_action common (target (codes "orders")) (table_spec TableType.view) [] hermetic

abbrev built : ExecutionGraph
built = record {
  warehouse_state = [];
  declaration_targets = [];
  actions =
      orders_action
      ∷ execution_action common (target (codes "report")) (script_spec report) []
          Hermeticity.non_hermetic
      ∷ [];
}

builds : build generator run (λ t. none) no_selectors graph ≡ ok built
unfolding build codes target_as_readable_string
builds = refl

build-selected_example :
    (names : List Text) × (compute_included_action_names (selectable graph) no_selectors
      ≡ reached names)
    × (map target_of built.actions ≡ filter_by (wanted names) (all_targets graph))
build-selected_example = build-selected generator run (λ t. none) no_selectors graph built builds

builds_orders : build_table generator run none (sourced orders_view) ≡ ok orders_action
unfolding build_table
builds_orders = refl

build_table-disabled_iff_example : (orders_action.tasks ≡ []) ↔ (orders_view.disabled ≡ true)
build_table-disabled_iff_example =
    build_table-disabled_iff generator run none (sourced orders_view) orders_action builds_orders

abbrev answer : Target → Option TableMetadata
answer t = some (record { target = t; type = MetadataType.view; fields = [] })

metadata_of-state_example :
    metadata_of (state answer (target (codes "orders") ∷ [])) (target (codes "orders"))
    ≡ known (answer (target (codes "orders")))
metadata_of-state_example =
    metadata_of-state answer (λ t m h. ground (arith, h)) (target (codes "orders") ∷ [])
      (target (codes "orders")) (unfold codes target_beq in refl)
