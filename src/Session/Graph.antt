-- ===== src/Session/Graph.antt =====
-- core/session.ts: the compiled graph, its actions and the compilation errors.
use sqlanvil.Base.{Text, Option, List, map}
use sqlanvil.Targets.{Target}

-- The fields of `ActionProto` that the passes read or write. `parent_action` is an assertion's.
pub record ActionProto : Type 0 where
  pub target : Target
  pub canonical_target : Target
  pub file_name : Text
  pub dependency_targets : List Target
  pub parent_action : Option Target

pub record TestProto : Type 0 where
  pub name : Text
  pub action : ActionProto

pub record CompiledGraph : Type 0 where
  pub tables : List ActionProto
  pub operations : List ActionProto
  pub assertions : List ActionProto
  pub declarations : List ActionProto
  pub notebooks : List ActionProto
  pub data_preparations : List ActionProto
  pub exports : List ActionProto
  pub imports : List ActionProto
  pub extracts : List ActionProto
  pub scripts : List ActionProto
  pub tests : List ActionProto
  pub targets : List Target

pub data ErrorText : Type 0 where
  missing_dependency ambiguous_action_name : (action dependency : Target) → ErrorText
  duplicate_action_name duplicate_canonical_target : Target → ErrorText
  duplicate_test_name : Text → ErrorText
  thrown : Text → ErrorText
  circular_dependency : (chain : List Target) → ErrorText

pub record CompilationError : Type 0 where
  pub message : ErrorText
  pub file_name : Text
  pub action_target : Option Target

abbrev pub targets_of : List ActionProto → List Target
targets_of actions = map (λ (a : ActionProto). a.target) actions

abbrev pub canonical_targets_of : List ActionProto → List Target
canonical_targets_of actions = map (λ (a : ActionProto). a.canonical_target) actions
