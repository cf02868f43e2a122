-- ===== src/Session/Resolve/Laws.antt =====
-- core/session.ts: the SQL that `resolve` prints names what `alterActionName` makes of the target.
use sqlanvil.Base.{
  Option, ap, Text, some, none, Bool, true, false, not, List, [], ◌∷◌, contains, ◌≡◌, refl, ◌∙◌,
  if◌then◌else◌,
}
use sqlanvil.Targets.{Target, target_eq}
use sqlanvil.Resolvable.{ResolvableMap}
use sqlanvil.CompilationSql.{Warehouse, resolve_target}
use sqlanvil.Session.Graph.{ActionProto, targets_of}
use sqlanvil.Session.Depend.{Defaults, find_actions}
use sqlanvil.Session.Rename.{resolved_target, Naming, new_target, declared, renamed, updated_target}
use sqlanvil.Session.Rename.Laws.{updated-rule}
use sqlanvil.Session.Resolve.{
  ActionKind, declaration, operation, other, resolve_kind, resolve, printed,
}

abbrev pub is_declaration : ActionKind → Bool
is_declaration declaration = true
is_declaration _ = false

abbrev pub has_output : ActionKind → Bool
has_output (operation output) = output
has_output _ = true

if-not {ℓ} : {A : Type ℓ} (b : Bool) (x y : A) → (if not b then x else y) ≡ (if b then y else x)
if-not true x y = refl
if-not false x y = refl

-- The target that `resolve` prints for an action and the one that `alterActionName` gives it have one
-- printed name: they differ in an empty database and none.
printed-resolved_target :
    (warehouse : Warehouse) (cfg : Defaults) (naming : Naming) (t : Target)
    → resolve_target warehouse cfg.default_database cfg.default_schema (resolved_target naming t)
      ≡ resolve_target warehouse cfg.default_database cfg.default_schema (new_target naming t)
unfolding resolve_target resolved_target new_target
printed-resolved_target warehouse cfg naming t = go warehouse t.database
  where
    go :
        (w : Warehouse) (d : Option Text)
        → let u : Target = record t { database = d } in
          resolve_target w cfg.default_database cfg.default_schema (resolved_target naming u)
          ≡ resolve_target w cfg.default_database cfg.default_schema (new_target naming u)
    go w none = refl
    go w (some []) = refl
    go w (some (c ∷ cs)) = refl

module _ (warehouse : Warehouse) (cfg : Defaults) (naming : Naming)
    (kind_of : Target → ActionKind) where
  resolve_kind-printed :
      (t : Target) (kind : ActionKind)
      → has_output kind ≡ true
      → resolve_kind warehouse cfg naming kind_of t kind ≡ (
        printed warehouse cfg naming kind_of
            (if is_declaration kind then t else new_target naming t),
        none,
      )
  resolve_kind-printed t declaration h = refl
  resolve_kind-printed t (operation true) h =
      ap (λ (s : Text). (s, none)) (printed-resolved_target warehouse cfg naming t)
  resolve_kind-printed t (operation false) h = absurd (cc h)
  resolve_kind-printed t other h =
      ap (λ (s : Text). (s, none)) (printed-resolved_target warehouse cfg naming t)

  -- Where a reference is found to stand for one action with output, and the actions that are renamed
  -- hold its target just where it is no declaration, `resolve` prints without an error the name of
  -- the target that `alterActionName` puts in the place of that target.
  pub resolve-updated_target :
      (indexed : ResolvableMap Target) (ref t : Target) (actions : List ActionProto)
      (declarations : List Target)
      → find_actions cfg indexed ref ≡ t ∷ []
      → has_output (kind_of t) ≡ true
      → contains (targets_of actions) t ≡ not (is_declaration (kind_of t))
      → resolve warehouse cfg naming kind_of indexed ref ≡ (
        resolve_target warehouse cfg.default_database cfg.default_schema
            (updated_target (renamed naming (declared [] declarations) actions) t),
        none,
      )
  unfolding resolve
  resolve-updated_target indexed ref t actions declarations found output listed =
      let rule : updated_target (renamed naming (declared [] declarations) actions) t
          ≡ (if is_declaration (kind_of t) then t else new_target naming t) =
        updated-rule naming actions declarations t
        ∙ rw listed (if-not (is_declaration (kind_of t)) (new_target naming t) t) in
      rw (found, rule, resolve) (resolve_kind-printed t (kind_of t) output)
