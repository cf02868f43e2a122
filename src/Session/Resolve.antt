-- ===== src/Session/Resolve.antt =====
-- core/session.ts: `resolve`, from the target that a reference stands for. An indexed action is
-- represented by its target, and `kind_of` tells what stands at a target: where two actions share
-- one, both are found, and the reference is an error.
pub mod Laws
use sqlanvil.Base.{Text, Option, none, some, Bool, true, false, List, [], ◌∷◌}
use sqlanvil.Targets.{Target}
use sqlanvil.Resolvable.{ResolvableMap}
use sqlanvil.CompilationSql.{Warehouse, resolve_target}
use sqlanvil.Session.Depend.{Defaults, find_actions}
use sqlanvil.Session.Rename.{Naming, resolved_target}

pub data ActionKind : Type 0 where
  declaration : ActionKind
  operation : Bool → ActionKind
  other : ActionKind

pub data ResolveError : Type 0 where
  ambiguous_action : List Target → ResolveError
  no_output : ResolveError
  could_not_resolve : Target → ResolveError

-- The text that `resolve` returns, and the error that it reports.
abbrev pub Resolution : Type 0
Resolution = Text × Option ResolveError

module _ (warehouse : Warehouse) (cfg : Defaults) (naming : Naming)
    (kind_of : Target → ActionKind) where
  abbrev pub printed : Target → Text
  printed t = resolve_target warehouse cfg.default_database cfg.default_schema t

  abbrev pub resolve_kind : Target → ActionKind → Resolution
  resolve_kind t declaration = (printed t, none)
  resolve_kind t (operation false) = ([], some no_output)
  resolve_kind t (operation true) = (printed (resolved_target naming t), none)
  resolve_kind t other = (printed (resolved_target naming t), none)

  abbrev pub resolve_found : Target → List Target → Resolution
  resolve_found ref [] = ([], some (could_not_resolve ref))
  resolve_found ref (t ∷ []) = resolve_kind t (kind_of t)
  resolve_found ref (t ∷ u ∷ ts) = ([], some (ambiguous_action (t ∷ u ∷ ts)))

  -- `resolve`
  unfoldable pub resolve : ResolvableMap Target → Target → Resolution
  resolve indexed ref = resolve_found ref (find_actions cfg indexed ref)
