-- ===== src/Session/Extracts/Laws.antt =====
-- core/session.ts: after `removeUnreferencedExtracts` the extracts are the referenced ones.
use sqlanvil.Base.{
  Bool, true, false, List, ◌∷◌, [], ◌&&◌, ◌||◌, not, filter_by, contains, add, add_all,
  contains-add, contains-append, ==_iff, ◌≡◌, refl, arith, sym, List-cases, inl, inr, ==_refl, All,
  contains-filter_by,
}
use sqlanvil.Targets.{Target, target_eq}
use sqlanvil.Session.Graph.{ActionProto, CompiledGraph, targets_of}
use sqlanvil.Session.Extracts.{
  dependencies_of, referring_actions, referenced_targets, pruned_targets, drop_pruned,
  remove_unreferenced_extracts,
}

pub contains-add_all :
    (xs ys : List Target) (t : Target)
    → contains (add_all xs ys) t ≡ (contains xs t || contains ys t)
contains-add_all xs [] t = ground arith
contains-add_all xs (y ∷ ys) t =
    ground (arith, contains-add_all (add xs y) ys t, contains-add xs y t)

-- Some action of the list depends on the target.
abbrev pub is_referenced : List ActionProto → Target → Bool
is_referenced [] t = false
is_referenced (a ∷ rest) t = contains a.dependency_targets t || is_referenced rest t

contains-dependencies_of :
    (actions : List ActionProto) (t : Target)
    → contains (dependencies_of actions) t ≡ is_referenced actions t
contains-dependencies_of [] t = refl
contains-dependencies_of (a ∷ rest) t = ground (
  arith,
  contains-append a.dependency_targets (dependencies_of rest) t,
  contains-dependencies_of rest t,
)

module _ (p : Target → Bool) where
  contains-filtered :
      (xs : List ActionProto) (t : Target)
      → contains (targets_of (filter_by (λ (e : ActionProto). not (p e.target)) xs)) t
        ≡ (not (p t) && contains (targets_of xs) t)
  contains-filtered [] t = ground arith
  contains-filtered (x ∷ xs) t = ground (arith, contains-filtered xs t, ==_iff t x.target)

filter_by-same {ℓ} :
    {A : Type ℓ} (p q : A → Bool) (xs : List A)
    → All (λ x. p x ≡ q x) xs
    → filter_by p xs ≡ filter_by q xs
filter_by-same p q [] h = refl
filter_by-same p q (x ∷ xs) h = ground (arith, h.0, filter_by-same p q xs h.1)

filter_by-all {ℓ} :
    {A : Type ℓ} (p : A → Bool) → ((a : A) → p a ≡ true) → (xs : List A) → filter_by p xs ≡ xs
filter_by-all p h [] = refl
filter_by-all p h (x ∷ xs) = ground (arith, h x, filter_by-all p h xs)

All-weaken {ℓ κ μ} :
    {A : Type ℓ} (P : A → Type κ) (Q : A → Type μ)
    → ((a : A) → P a → Q a)
    → (xs : List A) → All P xs
    → All Q xs
All-weaken P Q f [] h = tt
All-weaken P Q f (x ∷ xs) h = (f x h.0, All-weaken P Q f xs h.1)

All-listed : (xs : List ActionProto) → All (λ x. contains (targets_of xs) x.target ≡ true) xs
All-listed [] = tt
All-listed (x ∷ xs) =
    (ground (arith, ==_refl x.target), All-weaken _ _ (λ y h. ground arith) xs (All-listed xs))

drop_pruned-extracts :
    (ts : List Target) (g : CompiledGraph)
    → (drop_pruned ts g).extracts
      ≡ filter_by (λ (e : ActionProto). not (contains ts e.target)) g.extracts
drop_pruned-extracts [] g = sym (filter_by-all (λ (e : ActionProto). true) (λ e. refl) g.extracts)
drop_pruned-extracts (t ∷ ts) g = refl

drop_pruned-targets :
    (ts : List Target) (g : CompiledGraph) (t : Target)
    → contains (drop_pruned ts g).targets t ≡ (contains g.targets t && not (contains ts t))
drop_pruned-targets [] g t = ground arith
drop_pruned-targets (x ∷ ts) g t =
    ground (arith, contains-filter_by (λ u. not (contains (x ∷ ts) u)) g.targets t)

module _ (g : CompiledGraph) where
  pruned_iff :
      (t : Target)
      → contains (pruned_targets g) t
        ≡ (not (is_referenced (referring_actions g) t) && contains (targets_of g.extracts) t)
  pruned_iff t = ground (
    arith,
    contains-add_all []
        (targets_of (
          filter_by (λ (e : ActionProto). not (contains (referenced_targets g) e.target))
            g.extracts))
        t,
    contains-filtered (contains (referenced_targets g)) g.extracts t,
    contains-add_all [] (dependencies_of (referring_actions g)) t,
    contains-dependencies_of (referring_actions g) t,
  )

  kept :
      filter_by (λ (e : ActionProto). not (contains (pruned_targets g) e.target)) g.extracts
      ≡ filter_by (λ (e : ActionProto). is_referenced (referring_actions g) e.target) g.extracts
  kept = filter_by-same _ _ g.extracts (
      All-weaken _ _ (λ x h. ground (arith, pruned_iff x.target)) g.extracts
        (All-listed g.extracts))

  -- The extracts that are left are, in order, those that some other action depends on; and a target is
  -- listed after the pass exactly when it was listed before, unless it names a pruned extract.
  pub remove_unreferenced_extracts_lem :
      ((remove_unreferenced_extracts g).extracts
        ≡ filter_by (λ (e : ActionProto). is_referenced (referring_actions g) e.target) g.extracts)
      × ((t : Target)
          → contains (remove_unreferenced_extracts g).targets t ≡ (
              contains g.targets t
              && (is_referenced (referring_actions g) t
                  || not (contains (targets_of g.extracts) t))))
  unfolding remove_unreferenced_extracts
  remove_unreferenced_extracts_lem = elim (List-cases g.extracts) [
    | inl none_left ↦ (ground (arith, none_left), λ t. ground (arith, none_left))
    | inr (x, xs, e) ↦ (
      ground (arith, e, drop_pruned-extracts (pruned_targets g) g, kept),
      λ t. ground (arith, e, drop_pruned-targets (pruned_targets g) g t, pruned_iff t),
    )
  ]
