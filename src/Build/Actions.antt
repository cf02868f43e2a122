-- ===== src/Build/Actions.antt =====
-- cli/api/commands/build.ts: the actions of a compiled graph, and the execution action of each.
use sqlanvil.Base.{
  Text, text_eq, nat_eq, Option, Bool, true, false, if◌then◌else◌, List, [], ◌∷◌, codes, ◌==◌,
}
use sqlanvil.Targets.{Target}
use sqlanvil.Paths.{is_empty}
use sqlanvil.Runner.State.{TaskType}
use sqlanvil.ExecSql.Types.{
  TableType, Table, TableMetadata, Operation, Assertion, Export, Import, Generator, Result, ok,
  error, ◌>>=◌, unexpected_table_type, unexpected_type_text, types_not_equivalent,
}
use sqlanvil.ExecSql.Tasks.{Task}
use sqlanvil.ExecSql.Postgres.{RunConfig}
use sqlanvil.ExecSql.Dispatch.{
  create_table_tasks, create_operation_tasks, create_export_tasks, create_import_tasks,
  create_assertion_tasks,
}

-- `ActionHermeticity`; `unknown` is the value of a field that is not set.
pub data Hermeticity : Type 0 where
  unknown hermetic non_hermetic : Hermeticity

-- The fields that every action has beside its target.
pub record Common : Type 0 where
  pub file_name : Text
  pub tags : List Text
  pub dependency_targets : List Target
  pub hermeticity : Hermeticity
  pub has_descriptor : Bool

pub record Sourced {ℓ} (A : Type ℓ) : Type ℓ where
  pub common : Common
  pub body : A

pub record Extract : Type 0 where
  pub target : Target
  pub disabled : Bool
  pub connection_name : Text
  pub platform : Text
  pub project : Text
  pub dataset : Text
  pub database : Text
  pub source_name : Text
  pub billing_project : Text
  pub column_types : List (Text × Text)

pub record Script : Type 0 where
  pub target : Target
  pub disabled : Bool
  pub language : Text
  pub script_filename : Text
  pub args : List Text
  pub deps_file : Text
  pub runtime_version : Text
  pub env_root : Text

-- What an action carries for the runner: the `ExportSpec`, `ImportSpec`, `ExtractSpec` and
-- `ScriptSpec` hold fields of the action, so the action stands for them.
pub data Spec : Type 0 where
  table_spec : TableType → Spec
  operation_spec assertion_spec : Spec
  export_spec : Export → Spec
  import_spec : Import → Spec
  extract_spec : Extract → Spec
  script_spec : Script → Spec

pub record ExecutionAction : Type 0 where
  pub target : Target
  pub file_name : Text
  pub dependency_targets : List Target
  pub has_descriptor : Bool
  pub spec : Spec
  pub tasks : List Task
  pub hermeticity : Hermeticity

-- `setOrValidateTableEnumType` with `tableTypeStringToEnum`
abbrev pub same_type : TableType → TableType → Bool
same_type TableType.table TableType.table = true
same_type TableType.incremental TableType.incremental = true
same_type TableType.view TableType.view = true
same_type _ _ = false

unfoldable pub table_type_string_to_enum : Text → Result TableType
unfolding codes
table_type_string_to_enum type =
    if type == codes "table"
    then ok TableType.table
    else if type == codes "incremental"
    then ok TableType.incremental
    else if type == codes "view"
    then ok TableType.view
    else error (unexpected_type_text type)

abbrev pub typed : Table → TableType → Table
typed t type = record t { enum_type = type }

abbrev pub set_or_check : Table → TableType → TableType → Result Table
set_or_check t TableType.unknown_type from_text = ok (typed t from_text)
set_or_check t type from_text =
    if same_type type from_text then ok t else error (types_not_equivalent t.type type)

unfoldable pub set_or_validate_table_enum_type : Table → Result Table
unfolding table_type_string_to_enum
set_or_validate_table_enum_type t =
    if is_empty t.type
    then ok t
    else table_type_string_to_enum t.type >>= λ from_text. set_or_check t t.enum_type from_text

abbrev pub or_hermeticity : Hermeticity → Hermeticity → Hermeticity
or_hermeticity unknown default = default
or_hermeticity h default = h

-- `toPartialExecutionAction`, with what a builder adds.
abbrev pub execution_action : Common → Target → Spec → List Task → Hermeticity → ExecutionAction
execution_action c t spec tasks default = record {
  target = t;
  file_name = c.file_name;
  dependency_targets = c.dependency_targets;
  has_descriptor = c.has_descriptor;
  spec = spec;
  tasks = tasks;
  hermeticity = or_hermeticity c.hermeticity default;
}

-- `tableTypeEnumToString`, which fails on a type that is not set.
abbrev pub known_type : TableType → Result TableType
known_type TableType.unknown_type = error (unexpected_table_type TableType.unknown_type)
known_type type = ok type

abbrev pub marker : Bool → TaskType → List Task
marker disabled type = if disabled then [] else record { type = type; text = [] } ∷ []

module _ (g : Generator) where
  -- `buildTable`
  unfoldable pub build_table :
      RunConfig → Option TableMetadata → Sourced Table → Result ExecutionAction
  unfolding create_table_tasks
  build_table run m t = known_type t.body.enum_type >>= λ type.
      create_table_tasks g t.body run m >>= λ tasks.
      ok (execution_action t.common t.body.target (table_spec type) tasks hermetic)

  -- `buildOperation`, `buildAssertion`, `buildExport`, `buildImport`, `buildExtract` and `buildScript`
  unfoldable pub build_operation : Sourced Operation → Result ExecutionAction
  unfolding create_operation_tasks
  build_operation o = ok (
      execution_action o.common o.body.target operation_spec (create_operation_tasks o.body)
        non_hermetic)

  unfoldable pub build_assertion : Sourced Assertion → Result ExecutionAction
  unfolding create_assertion_tasks
  build_assertion a = ok (
      execution_action a.common a.body.target assertion_spec (create_assertion_tasks g a.body)
        hermetic)

  unfoldable pub build_export : Sourced Export → Result ExecutionAction
  unfolding create_export_tasks
  build_export e = create_export_tasks g e.body >>= λ tasks.
      ok (execution_action e.common e.body.target (export_spec e.body) tasks non_hermetic)

  unfoldable pub build_import : Sourced Import → Result ExecutionAction
  unfolding create_import_tasks
  build_import i = create_import_tasks g i.body >>= λ tasks.
      ok (execution_action i.common i.body.target (import_spec i.body) tasks non_hermetic)

  unfoldable pub build_extract : Sourced Extract → Result ExecutionAction
  build_extract e = ok (
      execution_action e.common e.body.target (extract_spec e.body)
        (marker e.body.disabled TaskType.extract) non_hermetic)

  unfoldable pub build_script : Sourced Script → Result ExecutionAction
  build_script s = ok (
      execution_action s.common s.body.target (script_spec s.body)
        (marker s.body.disabled TaskType.script) non_hermetic)
