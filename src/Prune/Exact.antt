-- ===== src/Prune/Exact.antt =====
-- cli/api/commands/prune.ts: `computeIncludedActionNames` and `prune` end, and keep exactly the
-- selected actions and those that the walks reach from them.
use sqlanvil.Base.{
  Text, text_eq, Bool, true, false, ◌||◌, List, contains, IsSubset, ◌≡◌, ◌≢◌, refl, ◌↔◌, Bool-cases,
  inl, inr, ◌⊎◌,
}
use sqlanvil.Prune.Patterns.{Matching, matched}
use sqlanvil.Prune.Selection.{
  Walk, reached, failed, out_of_fuel, all_actions, action_names, CompileAction, CompiledGraph,
  RunConfig, dependency_names, dependent_names, selected_names, then_walk, is_nonempty,
  compute_included_action_names, prune, unfinished,
}
use sqlanvil.Prune.Walks.{Reaches}
use sqlanvil.Prune.Reaching.{walk_from-Reaches}
use sqlanvil.Prune.Ending.{IsSelection, walk_from-ends, walk_from-IsSelection}
use sqlanvil.Prune.Included.{
  selected_names-IsSelection, selected_names-ends, dependency_names-IsSubset,
  dependent_names-IsSubset,
}

-- The names that a walk includes: where it is switched off, the roots.
abbrev pub Closure : Bool → (Text → Matching (List Text)) → List Text → Text → Type 0
Closure true step roots n = Reaches step roots n
Closure false step roots n = contains roots n ≡ true

Walk-cases :
    (w : Walk)
    → ((names : List Text) × (w ≡ reached names))
      ⊎ (((p : Text) × (ms : List Text) × (w ≡ failed p ms)) ⊎ (w ≡ out_of_fuel))
Walk-cases (reached names) = inl (names, refl)
Walk-cases (failed p ms) = inr (inl (p, ms, refl))
Walk-cases out_of_fuel = inr (inr refl)

-- A selection that does not run out of fuel, and includes distinct names of the actions.
abbrev Settled : List Text → Walk → Type 0
Settled universe w =
    (w ≢ out_of_fuel) × ((names : List Text) → w ≡ reached names → IsSelection universe names)

module _ (actions : List CompileAction) (step : Text → Matching (List Text))
    (inside : (n : Text) (names : List Text)
      → step n ≡ matched names
      → IsSubset names (action_names actions)) where
  then_walk-Settled :
      (on : Bool) (w : Walk)
      → Settled (action_names actions) w
      → Settled (action_names actions) (then_walk on actions step w)
  then_walk-Settled true (reached names) (ends, selects) = (
    walk_from-ends step (action_names actions) inside actions names refl (selects names refl),
    λ found e.
        walk_from-IsSelection step (action_names actions) inside actions names found e
          (selects names refl),
  )
  then_walk-Settled false (reached names) settled = settled
  then_walk-Settled on (failed p ms) settled = settled
  then_walk-Settled on out_of_fuel settled = settled

then_walk-Closure :
    (on : Bool) (actions : List CompileAction) (step : Text → Matching (List Text)) (w : Walk)
    (names : List Text)
    → then_walk on actions step w ≡ reached names
    → (roots : List Text) × (w ≡ reached roots)
      × ((n : Text) → (contains names n ≡ true) ↔ Closure on step roots n)
then_walk-Closure true actions step (reached roots) names e =
    (roots, refl, λ n. walk_from-Reaches step roots actions names n e)
then_walk-Closure false actions step (reached roots) names e =
    let same : roots ≡ names = cc e in (roots, refl, λ n. rw same (λ h. h, λ h. h))
then_walk-Closure on actions step (failed p ms) names e = absurd (cc e)
then_walk-Closure on actions step out_of_fuel names e = absurd (cc e)

module _ (actions : List CompileAction) (config : RunConfig) where
  abbrev after_dependencies : Walk
  after_dependencies =
      then_walk config.include_dependencies actions (dependency_names actions)
        (selected_names actions config)

  abbrev after_dependents : Walk
  after_dependents =
      then_walk config.include_dependents actions (dependent_names actions) after_dependencies

  after_dependents-Settled : Settled (action_names actions) after_dependents
  after_dependents-Settled =
      then_walk-Settled actions (dependent_names actions) (dependent_names-IsSubset actions)
        config.include_dependents after_dependencies
        (then_walk-Settled actions (dependency_names actions) (dependency_names-IsSubset actions)
          config.include_dependencies (selected_names actions config)
          (
            selected_names-ends actions config,
            λ names e. selected_names-IsSelection actions config names e,
          ))

  -- What is included, in terms of what the selectors select.
  abbrev pub IsIncluded : List Text → Type 0
  IsIncluded names =
      (base : List Text) × (middle : List Text) × (selected_names actions config ≡ reached base)
      × ((n : Text)
          → (contains middle n ≡ true)
            ↔ Closure config.include_dependencies (dependency_names actions) base n)
      × ((n : Text)
          → (contains names n ≡ true)
            ↔ Closure config.include_dependents (dependent_names actions) middle n)

  after_dependents-IsIncluded :
      (names : List Text) → after_dependents ≡ reached names → IsIncluded names
  after_dependents-IsIncluded names e =
      let (middle, e1, outer) =
        then_walk-Closure config.include_dependents actions (dependent_names actions)
          after_dependencies names e in
      let (base, e2, inner) =
        then_walk-Closure config.include_dependencies actions (dependency_names actions)
          (selected_names actions config) middle e1 in
      (base, middle, e2, inner, outer)

-- The selection ends: it gives names, or the error for an ambiguous name.
pub compute_included_action_names-ends :
    (g : CompiledGraph) (config : RunConfig) → compute_included_action_names g config ≢ out_of_fuel
unfolding compute_included_action_names
compute_included_action_names-ends g config =
    elim (Bool-cases (is_nonempty config.actions || is_nonempty config.tags)) [
      | inl selecting ↦ rw selecting (after_dependents-Settled (all_actions g) config).0
      | inr all ↦ rw all (λ e. cc e)
    ]

-- Where actions or tags select, the names that are included are the selected ones, closed
-- under matching dependencies where those are asked for, and then under dependents where
-- those are.
pub compute_included_action_names-IsIncluded :
    (g : CompiledGraph) (config : RunConfig) (names : List Text)
    → (is_nonempty config.actions || is_nonempty config.tags) ≡ true
    → compute_included_action_names g config ≡ reached names
    → IsIncluded (all_actions g) config names
unfolding compute_included_action_names
compute_included_action_names-IsIncluded g config names selecting e =
    after_dependents-IsIncluded (all_actions g) config names
      (rw (selecting, compute_included_action_names) at e)

-- `prune` ends for every graph and selection: it gives a graph or the error for an ambiguous
-- name.
pub prune-ends : (g : CompiledGraph) (config : RunConfig) → prune g config ≢ unfinished
unfolding prune
prune-ends g config e = elim (Walk-cases (compute_included_action_names g config)) [
  | inl (names, found) ↦ cc (rw (found, prune) at e)
  | inr (inl (p, ms, found)) ↦ cc (rw (found, prune) at e)
  | inr (inr found) ↦ compute_included_action_names-ends g config found
]
