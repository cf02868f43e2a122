-- ===== src/Session/Depend.antt =====
-- core/session.ts: `findActions` and `fullyQualifyDependencies`. An indexed action is its target.
pub mod Laws
pub mod Ranking
use sqlanvil.Base.{
  Text, text_eq, option_text_eq, Option, none, some, Bool, true, false, List, ◌∷◌, [], ◌++◌, ◌&&◌,
  not, map, filter_by, get, put, if◌then◌else◌, ◌==◌,
}
use sqlanvil.Targets.{Target, target_eq, truthy, text_or_empty, target_as_readable_string}
use sqlanvil.Resolvable.{ResolvableMap, find}
use sqlanvil.Session.Graph.{
  ActionProto, CompilationError, ErrorText, missing_dependency, ambiguous_action_name,
}

pub record Defaults : Type 0 where
  pub default_database : Option Text
  pub default_schema : Option Text

-- The candidates of a level, unless there are none.
abbrev pub prefer : (Target → Bool) → List Target → List Target
prefer p candidates = elim (filter_by p candidates) [ [] ↦ candidates | x ∷ xs ↦ x ∷ xs ]

abbrev pub prefer_if : Bool → (Target → Bool) → List Target → List Target
prefer_if b p candidates = if b then prefer p candidates else candidates

abbrev pub single_or : List Target → List Target → List Target
single_or (c ∷ []) found = c ∷ []
single_or _ found = found

abbrev pub narrow : Defaults → Target → List Target → List Target
narrow cfg ref found =
    let in_database =
      prefer_if (not (truthy ref.database) && truthy cfg.default_database)
        (λ t. t.database == cfg.default_database) found in
    prefer_if (not (truthy ref.schema) && truthy cfg.default_schema)
      (λ t. t.schema == cfg.default_schema) in_database

abbrev pub choose : Defaults → Target → List Target → List Target
choose cfg ref [] = []
choose cfg ref (c ∷ []) = c ∷ []
choose cfg ref (c ∷ d ∷ rest) = single_or (narrow cfg ref (c ∷ d ∷ rest)) (c ∷ d ∷ rest)

-- `findActions`
unfoldable pub find_actions : Defaults → ResolvableMap Target → Target → List Target
find_actions cfg indexed ref = choose cfg ref (find indexed ref)

-- `fullyQualifiedDependencies`, from a readable name to a target, in insertion order.
abbrev pub Qualified : Type 0
Qualified = List (Text × Target)

abbrev pub put_target : Qualified → Target → Qualified
put_target q t = put q (target_as_readable_string t) t

abbrev pub put_targets : Qualified → List Target → Qualified
put_targets q [] = q
put_targets q (t ∷ ts) = put_targets (put_target q t) ts

abbrev pub wants_assertions : Target → Bool
wants_assertions t = elim (t.include_dependent_assertions) [ none ↦ false | some b ↦ b ]

abbrev pub error_of : ActionProto → (Target → Target → ErrorText) → Target → CompilationError
error_of a message dependency = record {
  message = message a.target dependency;
  file_name = a.file_name;
  action_target = some a.target;
}

-- What one dependency adds: targets, or an error.
unfoldable pub qualify :
    ResolvableMap Target
    → ActionProto
    → Target
    → List Target
    → Qualified
    → Qualified × List CompilationError
qualify assertions a dependency [] q = (q, error_of a missing_dependency dependency ∷ [])
qualify assertions a dependency (t ∷ []) q =
    let added = put_target q t in
    (
      if wants_assertions dependency then put_targets added (find assertions dependency) else added,
      [],
    )
qualify assertions a dependency (_ ∷ _ ∷ _) q =
    (q, error_of a ambiguous_action_name dependency ∷ [])

-- The loop over the dependencies of an action.
unfoldable pub qualify_all :
    Defaults
    → ResolvableMap Target
    → ResolvableMap Target
    → ActionProto
    → List Target
    → Qualified
    → Qualified × List CompilationError
qualify_all cfg indexed assertions a [] q = (q, [])
qualify_all cfg indexed assertions a (d ∷ ds) q =
    let (q', errors) = qualify assertions a d (find_actions cfg indexed d) q in
    let (last, more) = qualify_all cfg indexed assertions a ds q' in (last, errors ++ more)

abbrev pub values : Qualified → List Target
values q = map (λ (e : Text × Target). e.1) q

-- `fullyQualifyDependencies`, on one action that is not a declaration.
unfoldable pub fully_qualify_dependencies :
    Defaults
    → ResolvableMap Target
    → ResolvableMap Target
    → ActionProto
    → ActionProto × List CompilationError
unfolding qualify_all
fully_qualify_dependencies cfg indexed assertions a =
    let (q, errors) = qualify_all cfg indexed assertions a a.dependency_targets [] in
    (record a { dependency_targets = values q }, errors)
