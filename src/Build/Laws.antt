-- ===== src/Build/Laws.antt =====
-- cli/api/commands/build.ts: the actions of the execution graph are those of the selected graph.
use sqlanvil.Base.{Option, List, [], ◌∷◌, ◌++◌, map, ◌≡◌, refl, subst, arith}
use sqlanvil.Targets.{Target}
use sqlanvil.ExecSql.Types.{
  Table, TableMetadata, Operation, Assertion, Export, Import, Generator, Result, ok,
}
use sqlanvil.ExecSql.Results.{bind-ok, ok-injective}
use sqlanvil.ExecSql.Postgres.{RunConfig}
use sqlanvil.ExecSql.Dispatch.{create_table_tasks, create_export_tasks, create_import_tasks}
use sqlanvil.Build.Actions.{
  Sourced, ExecutionAction, build_table, build_operation, build_assertion, build_export,
  build_import, build_extract, build_script, known_type, Extract, Script,
}
use sqlanvil.Build.{Graph, traverse, all_actions, metadata_of}

-- What a map that may throw keeps of each item, its result keeps in the same order.
pub traverse-map {ℓ κ μ} :
    {A : Type ℓ} {B : Type κ} {C : Type μ} (f : A → Result B) (p : A → C) (q : B → C)
    → ((a : A) (b : B) → f a ≡ ok b → q b ≡ p a)
    → (xs : List A) (ys : List B) → traverse f xs ≡ ok ys
    → map q ys ≡ map p xs
unfolding traverse
traverse-map f p q keeps [] ys h = ground (arith, h)
traverse-map f p q keeps (x ∷ xs) ys h =
    let (y, head, rest) = bind-ok (f x) _ ys h in
    let (zs, tail, e) = bind-ok (traverse f xs) _ ys rest in
    cc (e, keeps x y head, traverse-map f p q keeps xs zs tail)

abbrev pub target_of : ExecutionAction → Target
target_of a = a.target

-- The targets of a graph's actions, kind after kind.
abbrev pub table_target : Sourced Table → Target
table_target t = t.body.target

abbrev pub action_targets : Graph → List Target
action_targets g =
    map (λ (t : Sourced Operation). t.body.target) g.operations
    ++ (map (λ (t : Sourced Assertion). t.body.target) g.assertions
        ++ (map (λ (t : Sourced Export). t.body.target) g.exports
            ++ (map (λ (t : Sourced Import). t.body.target) g.imports
                ++ (map (λ (t : Sourced Extract). t.body.target) g.extracts
                    ++ map (λ (t : Sourced Script). t.body.target) g.scripts))))

abbrev pub all_targets : Graph → List Target
all_targets g = map table_target g.tables ++ action_targets g

-- A map of lists that are put together.
map-parts {ℓ κ} :
    {A : Type ℓ} {B : Type κ} (f : A → B) (xs ys : List A) (us vs : List B)
    → map f xs ≡ us
    → map f ys ≡ vs
    → map f (xs ++ ys) ≡ us ++ vs
map-parts f [] ys us vs hx hy = cc (hx, hy)
map-parts f (x ∷ xs) ys us vs hx hy = cc (hx, map-parts f xs ys (map f xs) vs refl hy)

module _ (g : Generator) (run : RunConfig) where
  targets-table :
      (m : Option TableMetadata) (t : Sourced Table) (a : ExecutionAction)
      → build_table g run m t ≡ ok a
      → target_of a ≡ t.body.target
  unfolding build_table
  targets-table m t a h =
      let (type, known, rest) = bind-ok (known_type t.body.enum_type) _ a h in
      let (tasks, made, e) = bind-ok (create_table_tasks g t.body run m) _ a rest in
      ground (arith, e)

  targets-export :
      (t : Sourced Export) (a : ExecutionAction)
      → build_export g t ≡ ok a
      → target_of a ≡ t.body.target
  unfolding build_export
  targets-export t a h =
      let (tasks, made, e) = bind-ok (create_export_tasks g t.body) _ a h in ground (arith, e)

  targets-import :
      (t : Sourced Import) (a : ExecutionAction)
      → build_import g t ≡ ok a
      → target_of a ≡ t.body.target
  unfolding build_import
  targets-import t a h =
      let (tasks, made, e) = bind-ok (create_import_tasks g t.body) _ a h in ground (arith, e)

  targets-operation :
      (t : Sourced Operation) (a : ExecutionAction)
      → build_operation g t ≡ ok a
      → target_of a ≡ t.body.target
  unfolding build_operation
  targets-operation t a h = ground (arith, h)

  targets-assertion :
      (t : Sourced Assertion) (a : ExecutionAction)
      → build_assertion g t ≡ ok a
      → target_of a ≡ t.body.target
  unfolding build_assertion
  targets-assertion t a h = ground (arith, h)

  targets-extract :
      (t : Sourced Extract) (a : ExecutionAction)
      → build_extract g t ≡ ok a
      → target_of a ≡ t.body.target
  unfolding build_extract
  targets-extract t a h = ground (arith, h)

  targets-script :
      (t : Sourced Script) (a : ExecutionAction)
      → build_script g t ≡ ok a
      → target_of a ≡ t.body.target
  unfolding build_script
  targets-script t a h = ground (arith, h)

  pub all_actions-targets :
      (tables : List TableMetadata) (graph : Graph) (actions : List ExecutionAction)
      → all_actions g run tables graph ≡ ok actions
      → map target_of actions ≡ all_targets graph
  unfolding all_actions
  all_actions-targets tables graph actions h =
      let (a, ea, h1) =
        bind-ok
          (traverse (λ (t : Sourced Table). build_table g run (metadata_of tables t.body.target) t)
            graph.tables)
          _ actions h in
      let (b, eb, h2) = bind-ok (traverse (build_operation g) graph.operations) _ actions h1 in
      let (c, ec, h3) = bind-ok (traverse (build_assertion g) graph.assertions) _ actions h2 in
      let (d, ed, h4) = bind-ok (traverse (build_export g) graph.exports) _ actions h3 in
      let (e, ee, h5) = bind-ok (traverse (build_import g) graph.imports) _ actions h4 in
      let (f, ef, h6) = bind-ok (traverse (build_extract g) graph.extracts) _ actions h5 in
      let (i, ei, h7) = bind-ok (traverse (build_script g) graph.scripts) _ actions h6 in
      let parts =
        map-parts target_of a (b ++ (c ++ (d ++ (e ++ (f ++ i))))) _ _
          (traverse-map _ table_target target_of
            (λ t. targets-table (metadata_of tables t.body.target) t) graph.tables a ea)
          (map-parts target_of b (c ++ (d ++ (e ++ (f ++ i)))) _ _
            (traverse-map _ _ target_of targets-operation graph.operations b eb)
            (map-parts target_of c (d ++ (e ++ (f ++ i))) _ _
              (traverse-map _ _ target_of targets-assertion graph.assertions c ec)
              (map-parts target_of d (e ++ (f ++ i)) _ _
                (traverse-map _ _ target_of targets-export graph.exports d ed)
                (map-parts target_of e (f ++ i) _ _
                  (traverse-map _ _ target_of targets-import graph.imports e ee)
                  (map-parts target_of f i _ _
                    (traverse-map _ _ target_of targets-extract graph.extracts f ef)
                    (traverse-map _ _ target_of targets-script graph.scripts i ei)))))) in
      subst (λ r. map target_of r ≡ all_targets graph) (ok-injective h7) parts
