-- ===== src/Build/Tables.antt =====
-- cli/api/commands/build.ts, state.ts and core/utils.ts: the tables of a build.
use sqlanvil.Base.{
  text_eq, Option, none, some, true, if◌then◌else◌, ◌==◌, ==_iff, List, [], ◌∷◌, ◌++◌, get, put,
  get-put, contains, ◌≡◌, refl, ap, ◌∙◌, ◌↔◌, arith, Bool-cases, inl, inr,
}
use sqlanvil.Targets.{Target, target_eq}
use sqlanvil.ExecSql.Types.{MetadataType, metadata_beq, Table, TableMetadata, Generator, ok}
use sqlanvil.ExecSql.Results.{bind-ok, ok-injective}
use sqlanvil.ExecSql.Postgres.{RunConfig}
use sqlanvil.ExecSql.Dispatch.{create_table_tasks, publish_tasks}
use sqlanvil.ExecSql.Nonempty.{publish_tasks-ne-nil}
use sqlanvil.Build.Actions.{Sourced, ExecutionAction, build_table, known_type}
use sqlanvil.Build.{state, found_table, metadata_by_target, metadata_of}

-- The execution action of a table has no tasks exactly when the table is disabled.
pub build_table-disabled_iff :
    (g : Generator) (run : RunConfig) (m : Option TableMetadata) (t : Sourced Table)
    (a : ExecutionAction)
    → build_table g run m t ≡ ok a
    → (a.tasks ≡ []) ↔ (t.body.disabled ≡ true)
unfolding build_table create_table_tasks
build_table-disabled_iff g run m t a h =
    let (type, _, rest) = bind-ok (known_type t.body.enum_type) _ a h in
    let (tasks, made, e) = bind-ok (create_table_tasks g t.body run m) _ a rest in
    let same : tasks ≡ a.tasks = ap (λ (b : ExecutionAction). b.tasks) (ok-injective e) in
    elim (Bool-cases t.body.disabled) [
      | inl off ↦ (λ _. off, λ _. ground (arith, made, off, same))
      | inr on ↦
          let published : publish_tasks g.warehouse g t.body run m ≡ ok tasks =
            ground (arith, made, on) in
          let nonempty = publish_tasks-ne-nil g.warehouse g t.body run m tasks published in
          (λ none_. absurd (nonempty (same ∙ none_)), λ off. ground (arith, on, off))
    ]

-- What the warehouse says of a target, as far as a build reads it: an object of no known type is as
-- none.
abbrev pub known : Option TableMetadata → Option TableMetadata
known none = none
known (some m) = if metadata_beq m.type MetadataType.unknown then none else some m

abbrev pub last_of : List TableMetadata → Target → Option TableMetadata → Option TableMetadata
last_of [] t found = found
last_of (m ∷ ms) t found = last_of ms t (if m.target == t then some m else found)

-- A table is built with the last state of its target.
pub get-metadata_by_target :
    (ms : List TableMetadata) (found : List (Target × TableMetadata)) (t : Target)
    → get (metadata_by_target found ms) t ≡ last_of ms t (get found t)
unfolding metadata_by_target
get-metadata_by_target [] found t = refl
get-metadata_by_target (m ∷ ms) found t =
    get-metadata_by_target ms (put found m.target m) t
    ∙ ap (last_of ms t) (get-put found m.target t m)

abbrev pub later : Option TableMetadata → Option TableMetadata → Option TableMetadata
later none found = found
later (some m) found = some m

later_twice : (o found : Option TableMetadata) → later o (later o found) ≡ later o found
later_twice none found = refl
later_twice (some m) found = refl

later-none : (o : Option TableMetadata) → later o none ≡ o
later-none none = refl
later-none (some m) = refl

last_of-found_table :
    (o found : Option TableMetadata) (ms : List TableMetadata) (u t : Target)
    → ((m : TableMetadata) → o ≡ some m → m.target ≡ u)
    → last_of (found_table o ++ ms) t found
      ≡ last_of ms t (if u == t then later (known o) found else found)
last_of-found_table none found ms u t own = ground arith
last_of-found_table (some m) found ms u t own = ground (arith, own m refl, ==_iff u t)

module _ (lookup : Target → Option TableMetadata)
    (own : (t : Target) (m : TableMetadata) → lookup t ≡ some m → m.target ≡ t) where
  last_of-state :
      (ts : List Target) (t : Target) (found : Option TableMetadata)
      → last_of (state lookup ts) t found
        ≡ (if contains ts t then later (known (lookup t)) found else found)
  unfolding state
  last_of-state [] t found = refl
  last_of-state (u ∷ ts) t found =
      let next = if u == t then later (known (lookup u)) found else found in
      last_of-found_table (lookup u) found (state lookup ts) u t (own u)
      ∙ last_of-state ts t next
      ∙ ground (arith, ==_iff u t, ==_iff t u, ap lookup, later_twice (known (lookup t)) found)

  -- Where the adapter answers for a target with a state of that target, each involved table is built
  -- with what the warehouse says of it, and an object of no known type counts as none.
  pub metadata_of-state :
      (ts : List Target) (t : Target)
      → contains ts t ≡ true
      → metadata_of (state lookup ts) t ≡ known (lookup t)
  metadata_of-state ts t h =
      get-metadata_by_target (state lookup ts) [] t
      ∙ last_of-state ts t none
      ∙ ground (arith, h, later-none (known (lookup t)))
