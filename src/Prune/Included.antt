-- ===== src/Prune/Included.antt =====
-- core/utils.ts: what `matchPatterns` finds stands among the values, and cli/api/commands/prune.ts:
-- what the selectors and the steps of the walks find stands among the names of the actions.
use sqlanvil.Base.{
  nat_eq, Text, text_eq, HasEq, Bool, ◌||◌, List, [], ◌∷◌, map, any, contains, filter_by,
  IsDistinct, IsSubset, add, add_all, contains-add, ◌≡◌, ◌≢◌, refl, arith, Bool-cases, inl, inr,
  Option, none, some,
}
use sqlanvil.Prune.Patterns.{Matching, matched, ambiguous, match_patterns}
use sqlanvil.Prune.Selection.{
  reached, out_of_fuel, action_names, action_named, CompileAction, RunConfig, name_of,
  dependency_names, dependent_names, dependencies_of, keep_dependent, selected_names,
  selected_by_tags,
}
use sqlanvil.Targets.{target_as_readable_string}
use sqlanvil.Prune.Walks.{Matching-cases}
use sqlanvil.Prune.Matches.{match_patterns-IsSubset}
use sqlanvil.Prune.Ending.{IsSelection, IsDistinct-snoc}

module _ {ℓ} {A : Type ℓ} ⦃e : HasEq A⦄ where
  pub contains-add_all :
      (xs ys : List A) (a : A) → contains (add_all xs ys) a ≡ (contains xs a || contains ys a)
  contains-add_all xs [] a = ground arith
  contains-add_all xs (y ∷ ys) a =
      ground (arith, contains-add_all (add xs y) ys a, contains-add xs y a)

  IsDistinct-add : (xs : List A) (a : A) → IsDistinct xs → IsDistinct (add xs a)
  IsDistinct-add xs a h = elim (Bool-cases (contains xs a)) [
    | inl old ↦ rw old h
    | inr new ↦ rw new (IsDistinct-snoc xs a h new)
  ]

  pub IsDistinct-add_all : (xs ys : List A) → IsDistinct xs → IsDistinct (add_all xs ys)
  IsDistinct-add_all xs [] h = h
  IsDistinct-add_all xs (y ∷ ys) h = IsDistinct-add_all (add xs y) ys (IsDistinct-add xs y h)

IsSubset-matched :
    (xs names values : List Text)
    → matched xs ≡ matched names
    → IsSubset xs values
    → IsSubset names values
IsSubset-matched xs names values e inside = let same : xs ≡ names = cc e in rw (← same) inside

dependencies_of-IsSubset :
    (found : Option CompileAction) (values names : List Text)
    → dependencies_of found values ≡ matched names
    → IsSubset names values
dependencies_of-IsSubset none values names e =
    IsSubset-matched [] names values e (λ m h. absurd (ground (arith, h)))
dependencies_of-IsSubset (some a) values names e =
    match_patterns-IsSubset (map target_as_readable_string a.dependency_targets) values names e

pub dependency_names-IsSubset :
    (actions : List CompileAction) (name : Text) (names : List Text)
    → dependency_names actions name ≡ matched names
    → IsSubset names (action_names actions)
unfolding dependency_names
dependency_names-IsSubset actions name names e =
    dependencies_of-IsSubset (action_named actions name) (action_names actions) names e

keep_dependent-IsSubset :
    (name : Text) (first rest : Matching (List Text)) (values names : List Text)
    → ((ns : List Text) → rest ≡ matched ns → IsSubset ns values)
    → keep_dependent name first rest ≡ matched names
    → IsSubset names (name ∷ values)
keep_dependent-IsSubset name (ambiguous p ms) rest values names hr e = absurd (cc e)
keep_dependent-IsSubset name (matched []) rest values names hr e =
    λ n h. ground (arith, hr names e n h)
keep_dependent-IsSubset name (matched (_ ∷ _)) (matched ns) values names hr e =
    IsSubset-matched (name ∷ ns) names (name ∷ values) e
      (λ m found. ground (arith, found, hr ns refl m))
keep_dependent-IsSubset name (matched (_ ∷ _)) (ambiguous p ms) values names hr e = absurd (cc e)

dependent_names-inside :
    (actions : List CompileAction) (name : Text) (names : List Text)
    → dependent_names actions name ≡ matched names
    → IsSubset names (map name_of actions)
unfolding dependent_names
dependent_names-inside [] name names e =
    IsSubset-matched [] names [] e (λ m found. absurd (ground (arith, found)))
dependent_names-inside (a ∷ more) name names e =
    keep_dependent-IsSubset (name_of a)
      (match_patterns (name ∷ []) (map target_as_readable_string a.dependency_targets))
      (dependent_names more name) (map name_of more) names (dependent_names-inside more name) e

contains-action_names :
    (actions : List CompileAction) (n : Text)
    → contains (action_names actions) n ≡ contains (map name_of actions) n
contains-action_names actions n = ground (arith, contains-add_all [] (map name_of actions) n)

pub dependent_names-IsSubset :
    (actions : List CompileAction) (name : Text) (names : List Text)
    → dependent_names actions name ≡ matched names
    → IsSubset names (action_names actions)
dependent_names-IsSubset actions name names e n h =
    rw (contains-action_names actions n) (dependent_names-inside actions name names e n h)

contains-map-filter_by :
    (p : CompileAction → Bool) (actions : List CompileAction)
    → IsSubset (map name_of (filter_by p actions)) (map name_of actions)
contains-map-filter_by p [] n h = h
contains-map-filter_by p (a ∷ more) n h = ground (arith, h, contains-map-filter_by p more n)

selected_by_tags-IsSubset :
    (actions : List CompileAction) (tags : List Text)
    → IsSubset (selected_by_tags actions tags) (action_names actions)
selected_by_tags-IsSubset actions tags n h =
    rw (contains-action_names actions n)
      (contains-map-filter_by (λ a. any (λ tag. contains tags tag) a.tags) actions n h)

reached-IsSelection :
    (xs names universe : List Text)
    → reached xs ≡ reached names
    → IsSelection universe xs
    → IsSelection universe names
reached-IsSelection xs names universe e selection =
    let same : xs ≡ names = cc e in rw (← same) selection

add_all-IsSelection :
    (universe xs ys : List Text)
    → IsSubset xs universe
    → IsSubset ys universe
    → IsSelection universe (add_all (add_all [] xs) ys)
add_all-IsSelection universe xs ys hx hy = (
  IsDistinct-add_all (add_all [] xs) ys (IsDistinct-add_all [] xs tt),
  λ n h.
      ground
        (arith, h, hx n, hy n, contains-add_all (add_all [] xs) ys n, contains-add_all [] xs n),
)

-- Of the names of the actions the selectors include some, each once.
pub selected_names-IsSelection :
    (actions : List CompileAction) (config : RunConfig) (names : List Text)
    → selected_names actions config ≡ reached names
    → IsSelection (action_names actions) names
unfolding selected_names
selected_names-IsSelection actions config names e =
    elim (Matching-cases (match_patterns config.actions (action_names actions))) [
      | inl (found, m) ↦
          reached-IsSelection (add_all (add_all [] found) (selected_by_tags actions config.tags))
            names (action_names actions) (rw (m, selected_names) at e)
            (add_all-IsSelection (action_names actions) found (selected_by_tags actions config.tags)
              (match_patterns-IsSubset config.actions (action_names actions) found m)
              (selected_by_tags-IsSubset actions config.tags))
      | inr (p, ms, m) ↦ absurd (cc (rw (m, selected_names) at e))
    ]

pub selected_names-ends :
    (actions : List CompileAction) (config : RunConfig)
    → selected_names actions config ≢ out_of_fuel
unfolding selected_names
selected_names-ends actions config e =
    elim (Matching-cases (match_patterns config.actions (action_names actions))) [
      | inl (found, m) ↦ absurd (cc (rw (m, selected_names) at e))
      | inr (p, ms, m) ↦ absurd (cc (rw (m, selected_names) at e))
    ]
