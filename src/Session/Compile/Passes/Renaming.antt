-- ===== src/Session/Compile/Passes/Renaming.antt =====
-- core/session.ts: the passes that write to the actions of a graph keep it closed.
use sqlanvil.Base.{
  text_eq, true, List, [], ◌∷◌, ◌++◌, map, contains, All, contains-append, ◌==◌, ==_iff, ◌≡◌, refl,
  ap, sym, ◌∙◌, arith, Bool-cases, inl, inr, subst,
}
use sqlanvil.Targets.{Target, target_eq}
use sqlanvil.Resolvable.{ResolvableMap}
use sqlanvil.Session.Graph.{ActionProto, CompiledGraph, targets_of}
use sqlanvil.Session.Depend.{Defaults, fully_qualify_dependencies}
use sqlanvil.Session.Extracts.{referring_actions}
use sqlanvil.Session.Rename.{
  Naming, TargetMap, updated_target, rewrite_action, new_target, is_renaming,
}
use sqlanvil.Session.Rename.Laws.{updated-rule}
use sqlanvil.Session.Compile.{passed_actions, map_actions, qualified, new_targets, rename_graph}
use sqlanvil.Session.Compile.Closed.{IsWithin}
use sqlanvil.Session.Compile.Lists.{all_targets}
use sqlanvil.Session.Compile.Passes.{IsClosed, All-referring}

map-both {ℓ κ} :
    {A : Type ℓ} {B : Type κ} (f : A → B) (xs ys : List A) (zs : List B)
    → zs ≡ map f ys
    → map f xs ++ zs ≡ map f (xs ++ ys)
map-both f [] ys zs h = h
map-both f (x ∷ xs) ys zs h = ap (λ r. f x ∷ r) (map-both f xs ys zs h)

passed-map_actions :
    (f : ActionProto → ActionProto) (g : CompiledGraph)
    → passed_actions (map_actions f g) ≡ map f (passed_actions g)
passed-map_actions f g = map-both f g.tables _ _ (
    map-both f g.assertions _ _ (
      map-both f g.operations _ _ (
        map-both f g.notebooks _ _ (
          map-both f g.data_preparations _ _ (
            map-both f g.exports _ _ (
              map-both f g.imports _ _
                (map-both f g.extracts _ _ (map-both f g.scripts _ _ refl))))))))

referring-map_actions :
    (f : ActionProto → ActionProto) (g : CompiledGraph)
    → referring_actions (map_actions f g) ≡ map f (referring_actions g)
referring-map_actions f g = map-both f g.tables _ _ (
    map-both f g.assertions _ _ (
      map-both f g.operations _ _ (
        map-both f g.notebooks _ _ (
          map-both f g.data_preparations _ _ (
            map-both f g.exports _ _ (map-both f g.imports _ _ (map-both f g.scripts _ _ refl)))))))

-- The dependencies are written without the targets.
targets-qualified :
    (cfg : Defaults) (indexed assertion_map : ResolvableMap Target) (xs : List ActionProto)
    → targets_of (map (qualified cfg indexed assertion_map) xs) ≡ targets_of xs
unfolding fully_qualify_dependencies
targets-qualified cfg indexed assertion_map [] = refl
targets-qualified cfg indexed assertion_map (x ∷ xs) =
    ap (λ r. x.target ∷ r) (targets-qualified cfg indexed assertion_map xs)

pub all_targets-qualified :
    (cfg : Defaults) (indexed assertion_map : ResolvableMap Target) (g : CompiledGraph)
    → all_targets (map_actions (qualified cfg indexed assertion_map) g) ≡ all_targets g
all_targets-qualified cfg indexed assertion_map g =
    ap (λ (xs : List Target). xs ++ targets_of g.declarations)
      (ap targets_of (passed-map_actions (qualified cfg indexed assertion_map) g)
        ∙ targets-qualified cfg indexed assertion_map (passed_actions g))

module _ (n : Naming) (m : TargetMap) where
  contains-rewritten :
      (xs : List ActionProto) (t : Target)
      → contains (targets_of xs) t ≡ true
      → contains (targets_of (map (rewrite_action n m) xs)) (new_target n t) ≡ true
  contains-rewritten [] t h = absurd (ground (arith, h))
  contains-rewritten (x ∷ xs) t h = elim (Bool-cases (t == x.target)) [
    | inl here ↦
        let same : new_target n t ≡ new_target n x.target =
          ap (new_target n) ((==_iff t x.target).0 here) in
        ground (arith, (==_iff (new_target n t) (new_target n x.target)).1 same)
    | inr other ↦ ground (arith, h, other, contains-rewritten xs t)
  ]

module _ (n : Naming) (g : CompiledGraph) where
  rewritten-targets :
      (t : Target)
      → contains (targets_of (passed_actions g)) t ≡ true
      → contains (all_targets (map_actions (rewrite_action n (new_targets n g)) g)) (new_target n t)
        ≡ true
  rewritten-targets t h =
      let f = rewrite_action n (new_targets n g) in
      let there = contains-rewritten n (new_targets n g) (passed_actions g) t h in
      let same =
        ap (λ (xs : List ActionProto). contains (targets_of xs) (new_target n t))
          (passed-map_actions f g) in
      ground (
        arith,
        same,
        there,
        contains-append (targets_of (passed_actions (map_actions f g))) (targets_of g.declarations)
            (new_target n t),
      )

  updated-within :
      (t : Target)
      → contains (all_targets g) t ≡ true
      → contains
          (all_targets (map_actions (rewrite_action n (new_targets n g)) g))
          (updated_target (new_targets n g) t)
        ≡ true
  updated-within t h =
      let f = rewrite_action n (new_targets n g) in
      rw (updated-rule n (passed_actions g) (targets_of g.declarations) t) (
        ground (
          arith,
          h,
          rewritten-targets t,
          contains-append (targets_of (passed_actions g)) (targets_of g.declarations) t,
          contains-append (targets_of (passed_actions (map_actions f g)))
              (targets_of g.declarations) t,
        ))

  IsWithin-updated :
      (ds : List Target)
      → IsWithin (all_targets g) ds
      → IsWithin
          (all_targets (map_actions (rewrite_action n (new_targets n g)) g))
          (map (updated_target (new_targets n g)) ds)
  IsWithin-updated [] h = tt
  IsWithin-updated (d ∷ ds) h = (updated-within d h.0, IsWithin-updated ds h.1)

  IsWithin-rewritten :
      (xs : List ActionProto)
      → All (λ (a : ActionProto). IsWithin (all_targets g) a.dependency_targets) xs
      → All
          (λ (a : ActionProto).
            IsWithin
              (all_targets (map_actions (rewrite_action n (new_targets n g)) g))
              a.dependency_targets)
          (map (rewrite_action n (new_targets n g)) xs)
  IsWithin-rewritten [] h = tt
  IsWithin-rewritten (x ∷ xs) h =
      (IsWithin-updated x.dependency_targets h.0, IsWithin-rewritten xs h.1)

  IsClosed-rewritten : IsClosed g → IsClosed (map_actions (rewrite_action n (new_targets n g)) g)
  IsClosed-rewritten h =
      rw (referring-map_actions (rewrite_action n (new_targets n g)) g)
        (IsWithin-rewritten (referring_actions g) h)

  pub IsClosed-rename : IsClosed g → IsClosed (rename_graph n g)
  unfolding rename_graph
  IsClosed-rename h = elim (Bool-cases (is_renaming n)) [
    | inl yes_ ↦ rw yes_ (IsClosed-rewritten h)
    | inr no_ ↦ rw no_ h
  ]

module _ (cfg : Defaults) (indexed assertion_map : ResolvableMap Target) where
  pub IsClosed-qualified :
      (g : CompiledGraph)
      → All
          (λ (a : ActionProto). IsWithin (all_targets g) a.dependency_targets)
          (map (qualified cfg indexed assertion_map) (passed_actions g))
      → IsClosed (map_actions (qualified cfg indexed assertion_map) g)
  IsClosed-qualified g h =
      let f = qualified cfg indexed assertion_map in
      let P : List Target → ActionProto → Type 0 = λ all a. IsWithin all a.dependency_targets in
      subst (λ all. All (P all) (referring_actions (map_actions f g)))
        (sym (all_targets-qualified cfg indexed assertion_map g))
        (All-referring (P (all_targets g)) (map_actions f g)
          (subst (All (P (all_targets g))) (sym (passed-map_actions f g)) h))
