-- ===== src/Session/Compile/Whole.antt =====
-- core/session.ts: what `compile` promises of a graph that it gives without an error.
use sqlanvil.Base.{
  Bool-cases, inl, inr, text_eq, none, some, Bool, true, false, if◌then◌else◌, List, [], ◌∷◌, ◌++◌,
  map, filter_by, contains, All, ◌≡◌, refl, ap, sym, ◌∙◌, arith, subst,
}
use sqlanvil.Targets.{Target, target_eq}
use sqlanvil.Resolvable.{resolvable_map}
use sqlanvil.Session.Graph.{ActionProto, CompiledGraph}
use sqlanvil.Session.Depend.Laws.{append-nil_iff}
use sqlanvil.Session.Extracts.{remove_unreferenced_extracts}
use sqlanvil.Session.Unique.{
  remove_non_unique_actions, filtered_actions, checked_actions, get_non_unique_targets,
  is_unique_action, uniqueness_errors, keep_unique,
}
use sqlanvil.Session.Unique.Laws.{stands_once, remove_non_unique_actions-filter}
use sqlanvil.Session.Unique as Unique
use sqlanvil.Session.Create.{Action, create_graph, create_errors}
use sqlanvil.Session.Compile.{
  Session, Compiled, compile, qualify_errors, passed_actions, qualified_graph, renamed_graph,
  indexed_actions, unique_graph, all_errors,
}
use sqlanvil.Session.Compile.Closed.{IsWithin, IsWithin-qualified}
use sqlanvil.Session.Compile.Chunks.{HasOwnTarget, action_targets, create_graph-targets}
use sqlanvil.Session.Compile.Lists.{all_targets}
use sqlanvil.Session.Compile.Passes.{IsClosed, IsClosed-remove}
use sqlanvil.Session.Compile.Passes.Renaming.{IsClosed-rename, IsClosed-qualified}

module _ (u c : List Target) where
  abbrev kept : List ActionProto → List ActionProto
  kept xs = filter_by (is_unique_action u c) xs

  no_uniqueness_error :
      (a : ActionProto) → uniqueness_errors u c a ≡ [] → is_unique_action u c a ≡ true
  no_uniqueness_error a h = ground (arith, h)

  filter-none :
      (xs ys : List ActionProto)
      → Unique.all_errors u c (xs ++ ys) ≡ []
      → (kept xs ≡ xs) × (Unique.all_errors u c ys ≡ [])
  filter-none [] ys h = (refl, h)
  filter-none (x ∷ xs) ys h =
      let (first, rest) = (append-nil_iff (uniqueness_errors u c x) _).0 h in
      let (same, later) = filter-none xs ys rest in
      (rw (no_uniqueness_error x first) (ap (λ r. x ∷ r) same), later)

  filter-last : (xs : List ActionProto) → Unique.all_errors u c xs ≡ [] → kept xs ≡ xs
  filter-last [] h = refl
  filter-last (x ∷ xs) h =
      let (first, rest) = (append-nil_iff (uniqueness_errors u c x) _).0 h in
      rw (no_uniqueness_error x first) (ap (λ r. x ∷ r) (filter-last xs rest))

  -- Where no action is reported, each of them stays.
  keep_unique-none :
      (g : CompiledGraph) → Unique.all_errors u c (filtered_actions g) ≡ [] → keep_unique u c g ≡ g
  keep_unique-none g h =
      let (t, h1) = filter-none g.tables _ h in
      let (o, h2) = filter-none g.operations _ h1 in
      let (d, h3) = filter-none g.declarations _ h2 in
      let (a, h4) = filter-none g.assertions _ h3 in
      let (n, h5) = filter-none g.notebooks _ h4 in
      let (p, h6) = filter-none g.data_preparations _ h5 in
      let s = filter-last g.scripts h6 in
      λ i. record g {
        tables = t i;
        operations = o i;
        declarations = d i;
        assertions = a i;
        notebooks = n i;
        data_preparations = p i;
        scripts = s i;
      }

remove_non_unique_actions-none :
    (g : CompiledGraph) → (remove_non_unique_actions g).1 ≡ [] → (remove_non_unique_actions g).0 ≡ g
unfolding remove_non_unique_actions
remove_non_unique_actions-none g h = keep_unique-none _ _ g h

filter_by-holds :
    (p : ActionProto → Bool) (xs : List ActionProto) → All (λ a. p a ≡ true) (filter_by p xs)
filter_by-holds p [] = tt
filter_by-holds p (x ∷ xs) = elim (Bool-cases (p x)) [
  | inl yes_ ↦ rw yes_ (yes_, filter_by-holds p xs)
  | inr no_ ↦ rw no_ (filter_by-holds p xs)
]

-- Among the checked actions of a graph no two have one target or one canonical target.
abbrev pub IsUnique : CompiledGraph → Type 0
IsUnique g = All (λ a. stands_once g a ≡ true) (checked_actions g)

remove_non_unique_actions-IsUnique :
    (g : CompiledGraph)
    → (remove_non_unique_actions g).1 ≡ []
    → IsUnique (remove_non_unique_actions g).0
remove_non_unique_actions-IsUnique g h =
    let same = remove_non_unique_actions-none g h in
    subst IsUnique (sym same) (
      subst (All (λ a. stands_once g a ≡ true))
        (sym (remove_non_unique_actions-filter g) ∙ ap checked_actions same)
        (filter_by-holds (stands_once g) (checked_actions g)))

-- A graph whose dependencies are actions of it, and whose checked actions are distinct.
abbrev pub IsWellFormed : CompiledGraph → Type 0
IsWellFormed g = IsClosed g × IsUnique g

module _ (s : Session) (actions : List Action) (own : All HasOwnTarget actions)
    (asserted : IsWithin
      (action_targets actions)
      (map (λ (e : Target × Target). e.1) s.assertion_targets)) where
  all_asserted :
      (all : List Target)
      → ((t : Target) → contains (action_targets actions) t ≡ true → contains all t ≡ true)
      → (es : List (Target × Target))
      → IsWithin (action_targets actions) (map (λ (e : Target × Target). e.1) es)
      → All (λ (e : Target × Target). contains all e.1 ≡ true) es
  all_asserted all sub [] h = tt
  all_asserted all sub (e ∷ es) h = (sub e.1 h.0, all_asserted all sub es h.1)

  IsClosed-qualified_graph :
      create_errors s.caller_file actions ≡ []
      → qualify_errors s.defaults
          (indexed_actions s actions)
          (resolvable_map s.assertion_targets)
          (passed_actions (create_graph s.caller_file actions))
        ≡ []
      → IsClosed (qualified_graph s actions)
  IsClosed-qualified_graph created qualified_ =
      let g = create_graph s.caller_file actions in
      let there : (t : Target)
          → contains (action_targets actions) t ≡ true
          → contains (all_targets g) t ≡ true =
        λ t h. create_graph-targets s.caller_file actions t own created h in
      IsClosed-qualified s.defaults (indexed_actions s actions) (resolvable_map s.assertion_targets)
        g
        (IsWithin-qualified (all_targets g) s.defaults (action_targets actions) s.assertion_targets
          there (all_asserted (all_targets g) there s.assertion_targets asserted) (passed_actions g)
          qualified_)

  IsWellFormed-unique_graph : all_errors s actions ≡ [] → IsWellFormed (unique_graph s actions)
  IsWellFormed-unique_graph h =
      let (_, h1) = (append-nil_iff s.earlier_errors _).0 h in
      let (created, h2) = (append-nil_iff (create_errors s.caller_file actions) _).0 h1 in
      let (qualified_, h3) =
        (append-nil_iff
            (qualify_errors s.defaults (indexed_actions s actions)
              (resolvable_map s.assertion_targets)
              (passed_actions (create_graph s.caller_file actions)))
            _).0
          h2 in
      let (unique_, _) =
        (append-nil_iff (remove_non_unique_actions (renamed_graph s actions)).1 _).0 h3 in
      (
        subst IsClosed (sym (remove_non_unique_actions-none (renamed_graph s actions) unique_)) (
            IsClosed-rename s.naming (remove_unreferenced_extracts (qualified_graph s actions)) (
              IsClosed-remove (qualified_graph s actions)
                (IsClosed-qualified_graph created qualified_))),
        remove_non_unique_actions-IsUnique (renamed_graph s actions) unique_,
      )

compiled_is : (b : Bool) (x c : Compiled) → (if b then some x else none) ≡ some c → x ≡ c
compiled_is true x c h = cc h
compiled_is false x c h = absurd (cc h)

-- A compile that reports no error gives a graph in which each dependency of an action other than an
-- extract is the target of an action or a declaration of the graph, and in which no two of the tables,
-- assertions, operations, declarations, notebooks, data preparations and scripts have one target or one
-- canonical target, where an empty database and none are different targets; if each action compiles to
-- something of its own target and the assertions of the session are among its actions.
pub compile-IsWellFormed :
    (s : Session) (actions : List Action) (c : Compiled)
    → All HasOwnTarget actions
    → IsWithin (action_targets actions) (map (λ (e : Target × Target). e.1) s.assertion_targets)
    → compile s actions ≡ some c
    → c.errors ≡ []
    → IsWellFormed c.graph
unfolding compile
compile-IsWellFormed s actions c own asserted e h =
    let same = compiled_is s.vars_are_texts _ c e in
    subst (λ (x : Compiled). IsWellFormed x.graph) same
      (IsWellFormed-unique_graph s actions own asserted (ap (λ (x : Compiled). x.errors) same ∙ h))
