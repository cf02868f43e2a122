-- ===== src/Build/Selected.antt =====
-- cli/api/commands/build.ts with prune.ts and state.ts: which actions a build contains.
use sqlanvil.Base.{
  Text, text_eq, Option, Bool, List, [], ◌∷◌, ◌++◌, map, filter_by, filter_by-append, contains, ◌≡◌,
  refl, ap, subst, arith, sym, ◌∙◌, Bool-cases, inl, inr,
}
use sqlanvil.Targets.{Target, target_eq, target_as_readable_string}
use sqlanvil.Paths.{is_empty}
use sqlanvil.ExecSql.Types.{Table, TableType, TableMetadata, Generator, ok, ◌>>=◌}
use sqlanvil.ExecSql.Postgres.{RunConfig}
use sqlanvil.Prune.Selection as Selection
use sqlanvil.Prune.Selection.{
  Walk, reached, failed, out_of_fuel, compute_included_action_names, CompileAction,
}
use sqlanvil.Build.Actions.{
  Sourced, set_or_validate_table_enum_type, set_or_check, table_type_string_to_enum,
}
use sqlanvil.Build.{
  Graph, ExecutionGraph, traverse, prune, select, kept, selectable, typed_graph, typed_table,
  table_action, build_graph, build, state, all_actions, execution_graph, involved_targets,
}
use sqlanvil.ExecSql.Results.{bind-ok, ok-injective}
use sqlanvil.Build.Laws.{
  traverse-map, target_of, table_target, action_targets, all_targets, all_actions-targets,
}

-- The targets whose readable names a selection holds.
abbrev pub wanted : List Text → Target → Bool
wanted names t = contains names (target_as_readable_string t)

filter_by-map {ℓ κ} :
    {A : Type ℓ} {B : Type κ} (f : A → B) (p : B → Bool) (xs : List A)
    → map f (filter_by (λ x. p (f x)) xs) ≡ filter_by p (map f xs)
filter_by-map f p [] = refl
filter_by-map f p (x ∷ xs) = ground (arith, filter_by-map f p xs)

filter_by-parts {ℓ} :
    {A : Type ℓ} (p : A → Bool) (xs ys us vs : List A)
    → us ≡ filter_by p xs
    → vs ≡ filter_by p ys
    → us ++ vs ≡ filter_by p (xs ++ ys)
filter_by-parts p xs ys us vs hx hy = cc (filter_by-append p xs ys, hx, hy)

all_targets-kept :
    (names : List Text) (g : Graph)
    → all_targets (kept names g) ≡ filter_by (wanted names) (all_targets g)
all_targets-kept names g =
    filter_by-parts (wanted names) (map table_target g.tables) (action_targets g) _ _
      (filter_by-map table_target (wanted names) g.tables)
      (filter_by-parts (wanted names) _ _ _ _ (filter_by-map _ (wanted names) g.operations) (
        filter_by-parts (wanted names) _ _ _ _ (filter_by-map _ (wanted names) g.assertions) (
          filter_by-parts (wanted names) _ _ _ _ (filter_by-map _ (wanted names) g.exports) (
            filter_by-parts (wanted names) _ _ _ _ (filter_by-map _ (wanted names) g.imports) (
              filter_by-parts (wanted names) _ _ _ _ (filter_by-map _ (wanted names) g.extracts)
                (filter_by-map _ (wanted names) g.scripts))))))

target-set_or_check :
    (t u : Table) (type from_text : TableType)
    → set_or_check t type from_text ≡ ok u
    → u.target ≡ t.target
target-set_or_check t u TableType.unknown_type from_text h = ground (arith, h)
target-set_or_check t u TableType.table from_text h = ground (arith, h)
target-set_or_check t u TableType.incremental from_text h = ground (arith, h)
target-set_or_check t u TableType.view from_text h = ground (arith, h)

target-set_or_validate :
    (t u : Table) → set_or_validate_table_enum_type t ≡ ok u → u.target ≡ t.target
unfolding set_or_validate_table_enum_type
target-set_or_validate t u h = elim (Bool-cases (is_empty t.type)) [
  | inl unset ↦ ground (arith, h, unset)
  | inr set ↦
      let checked : (table_type_string_to_enum t.type >>= λ type. set_or_check t t.enum_type type)
          ≡ ok u =
        ground (arith, h, set) in
      let (type, _, e) = bind-ok (table_type_string_to_enum t.type) _ u checked in
      target-set_or_check t u t.enum_type type e
]

typed_table-action : (t u : Sourced Table) → typed_table t ≡ ok u → table_action u ≡ table_action t
typed_table-action t u h =
    let (table, checked, e) = bind-ok (set_or_validate_table_enum_type t.body) _ u h in
    cc (ok-injective e, target-set_or_validate t.body table checked)

typed_graph-ok :
    (g h : Graph)
    → typed_graph g ≡ ok h
    → (tables : List (Sourced Table)) × (traverse typed_table g.tables ≡ ok tables)
      × (h ≡ record g { tables = tables })
unfolding typed_graph
typed_graph-ok g h e =
    let (tables, made, rest) = bind-ok (traverse typed_table g.tables) _ h e in
    (tables, made, sym (ok-injective rest))

selectable-typed : (g h : Graph) → typed_graph g ≡ ok h → selectable h ≡ selectable g
selectable-typed g h e =
    let (tables, made, same) = typed_graph-ok g h e in
    let actions =
      traverse-map typed_table table_action table_action typed_table-action g.tables tables made in
    rw same (ap (λ r. record (selectable g) { tables = r }) actions)

all_targets-typed : (g h : Graph) → typed_graph g ≡ ok h → all_targets h ≡ all_targets g
all_targets-typed g h e =
    let (tables, made, same) = typed_graph-ok g h e in
    let targets =
      traverse-map typed_table table_target table_target
        (λ t u r. ap (λ (a : CompileAction). a.target) (typed_table-action t u r)) g.tables tables
        made in
    rw same (ap (λ r. r ++ action_targets g) targets)

build_graph-targets :
    (g : Generator) (run : RunConfig) (tables : List TableMetadata) (pruned : Graph)
    (built : ExecutionGraph)
    → build_graph g run tables pruned ≡ ok built
    → map target_of built.actions ≡ all_targets pruned
unfolding build_graph
build_graph-targets g run tables pruned built h =
    let (graph, typed, rest) = bind-ok (typed_graph pruned) _ built h in
    elim (Bool-cases graph.has_errors) [
      | inl broken ↦ absurd (ground (arith, rest, broken))
      | inr fine ↦
          let finished : (all_actions g run tables graph >>= λ actions.
          ok (execution_graph tables graph actions))
              ≡ ok built =
            ground (arith, rest, fine) in
          let (actions, made, e) = bind-ok (all_actions g run tables graph) _ built finished in
          let same : actions ≡ built.actions =
            ap (λ (b : ExecutionGraph). b.actions) (ok-injective e) in
          subst (λ r. map target_of r ≡ all_targets pruned) same
            (all_actions-targets g run tables graph actions made
              ∙ all_targets-typed pruned graph typed)
    ]

select-reached :
    (g h : Graph) (w : Walk)
    → select g w ≡ ok h
    → (names : List Text) × (w ≡ reached names) × (h ≡ kept names g)
select-reached g h (reached names) e = (names, refl, sym (ok-injective e))
select-reached g h (failed p ms) e = absurd (ground (arith, e))
select-reached g h out_of_fuel e = absurd (ground (arith, e))

-- A build that returns has selected names from the compiled graph, and its execution graph holds
-- exactly the actions of the compiled graph with a selected name: each as often as it stands there,
-- tables, operations, assertions, exports, imports, extracts and scripts in this order.
pub build-selected :
    (g : Generator) (run : RunConfig) (lookup : Target → Option TableMetadata)
    (config : Selection.RunConfig) (graph : Graph) (built : ExecutionGraph)
    → build g run lookup config graph ≡ ok built
    → (names : List Text) × (compute_included_action_names (selectable graph) config
        ≡ reached names)
      × (map target_of built.actions ≡ filter_by (wanted names) (all_targets graph))
unfolding build prune
build-selected g run lookup config graph built h =
    let (pruned, selected, rest) = bind-ok (prune graph config) _ built h in
    let (typed, same, chosen) = bind-ok (typed_graph graph) _ pruned selected in
    let (names, walked, result) = select-reached typed pruned _ chosen in
    let included =
      ap (λ s. compute_included_action_names s config) (selectable-typed graph typed same) in
    (
      names,
      sym included ∙ walked,
      build_graph-targets g run (state lookup (involved_targets pruned)) pruned built rest
          ∙ ap all_targets result
          ∙ all_targets-kept names typed
          ∙ ap (filter_by (wanted names)) (all_targets-typed graph typed same),
    )
