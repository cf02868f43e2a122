-- ===== src/Session/Unique/Laws.antt =====
-- core/session.ts: the uniqueness checks, by the number of times that a target stands in the graph.
use sqlanvil.Base.{
  ◌≤◌, Text, text_eq, none, some, Bool, true, false, List, ◌∷◌, [], ◌++◌, ◌&&◌, ◌||◌, not, contains,
  add, contains-add, contains-append, count, filter_by, filter_by-append, map, if◌then◌else◌, ◌==◌,
  ==_iff, ◌≡◌, refl, ◌↔◌, arith, ◌∙◌, ltb, ltb→le, any, IsDistinct, Bool-cases, inl, inr,
}
use sqlanvil.Targets.{Target, target_eq}
use sqlanvil.Session.Graph.{
  ActionProto, TestProto, CompiledGraph, CompilationError, targets_of, canonical_targets_of,
}
use sqlanvil.Session.Unique.{
  non_unique_from, get_non_unique_targets, checked_actions, is_unique_action, uniqueness_errors,
  all_errors, keep_unique, filtered_actions, remove_non_unique_actions, check_names,
  check_test_name_uniqueness,
}

contains-non_unique_from :
    (ts all found : List Target) (t : Target)
    → contains (non_unique_from all found ts) t
      ≡ (contains found t || (ltb 1 (count t ts) || contains all t && ltb 0 (count t ts)))
contains-non_unique_from [] all found t = ground arith
contains-non_unique_from (x ∷ ts) all found t = ground (
  arith,
  contains-non_unique_from ts (add all x) (if contains all x then add found x else found) t,
  contains-add all x t,
  contains-add found x t,
  ==_iff t x,
)

-- A target is among the non-unique ones exactly when it stands more than once.
contains-non_unique :
    (ts : List Target) (t : Target) → contains (get_non_unique_targets ts) t ≡ ltb 1 (count t ts)
unfolding get_non_unique_targets
contains-non_unique ts t = ground (arith, contains-non_unique_from ts [] [] t)

-- An action's target, and its canonical target, stand once in the checked lists.
abbrev pub stands_once : CompiledGraph → ActionProto → Bool
stands_once g a =
    not (ltb 1 (count a.target (targets_of (checked_actions g))))
    && not (ltb 1 (count a.canonical_target (canonical_targets_of (checked_actions g))))

filter_by-eq {ℓ} :
    {A : Type ℓ} (p q : A → Bool)
    → ((a : A) → p a ≡ q a)
    → (xs : List A) → filter_by p xs ≡ filter_by q xs
filter_by-eq p q h [] = refl
filter_by-eq p q h (x ∷ xs) = ground (arith, h x, filter_by-eq p q h xs)

module _ (g : CompiledGraph) where
  unique_iff :
      (a : ActionProto)
      → is_unique_action
          (get_non_unique_targets (targets_of (checked_actions g)))
          (get_non_unique_targets (canonical_targets_of (checked_actions g)))
          a
        ≡ stands_once g a
  unique_iff a = ground (
    arith,
    contains-non_unique (targets_of (checked_actions g)) a.target,
    contains-non_unique (canonical_targets_of (checked_actions g)) a.canonical_target,
  )

  checked-keep_unique :
      (u c : List Target)
      → checked_actions (keep_unique u c g) ≡ filter_by (is_unique_action u c) (checked_actions g)
  checked-keep_unique u c = let p = is_unique_action u c in simp (filter_by-append p)

  -- Of the checked lists together are left, in their order, the actions whose target and canonical
  -- target each stand once in them.
  pub remove_non_unique_actions-filter :
      checked_actions (remove_non_unique_actions g).0
      ≡ filter_by (stands_once g) (checked_actions g)
  unfolding remove_non_unique_actions
  remove_non_unique_actions-filter =
      checked-keep_unique _ _ ∙ filter_by-eq _ _ unique_iff (checked_actions g)

count-filter-le :
    (p : ActionProto → Bool) (xs : List ActionProto) (t : Target)
    → count t (targets_of (filter_by p xs)) ≤ count t (targets_of xs)
count-filter-le p [] t = omega arith
count-filter-le p (x ∷ xs) t = ground (arith, count-filter-le p xs t)

count-filter-zero :
    (p : ActionProto → Bool) (xs : List ActionProto) (t : Target)
    → ((a : ActionProto) → p a ≡ true → (a.target == t) ≡ false)
    → count t (targets_of (filter_by p xs)) ≡ 0
count-filter-zero p [] t h = refl
count-filter-zero p (x ∷ xs) t h =
    ground (arith, h x, ==_iff x.target t, ==_iff t x.target, count-filter-zero p xs t h)

-- After the pass no target stands twice in the checked lists.
pub remove_non_unique_actions-distinct :
    (g : CompiledGraph) (t : Target)
    → count t (targets_of (checked_actions (remove_non_unique_actions g).0)) ≤ 1
remove_non_unique_actions-distinct g t =
    rw (remove_non_unique_actions-filter g)
      (elim (Bool-cases (ltb 1 (count t (targets_of (checked_actions g))))) [
        | inl many ↦
            let zero_left =
              count-filter-zero (stands_once g) (checked_actions g) t
                (λ a h. ground (arith, ==_iff a.target t)) in
            omega arith
        | inr few ↦ omega (arith, count-filter-le (stands_once g) (checked_actions g) t, ltb→le)
      ])

-- Some error is about an action with this target.
abbrev pub has_error : List CompilationError → Target → Bool
has_error [] t = false
has_error (e ∷ rest) t =
    elim (e.action_target) [ none ↦ false | some u ↦ u == t ] || has_error rest t

has_error-append :
    (xs ys : List CompilationError) (t : Target)
    → has_error (xs ++ ys) t ≡ (has_error xs t || has_error ys t)
has_error-append [] ys t = refl
has_error-append (x ∷ xs) ys t = ground (arith, has_error-append xs ys t)

has_error-one :
    (u c : List Target) (a : ActionProto) (t : Target)
    → has_error (uniqueness_errors u c a) t ≡ (a.target == t && not (is_unique_action u c a))
has_error-one u c a t = ground arith

has_error-all :
    (u c : List Target) (xs : List ActionProto) (t : Target)
    → has_error (all_errors u c xs) t
      ≡ any (λ (a : ActionProto). a.target == t && not (is_unique_action u c a)) xs
has_error-all u c [] t = refl
has_error-all u c (a ∷ xs) t = ground (
  arith,
  has_error-append (uniqueness_errors u c a) (all_errors u c xs) t,
  has_error-one u c a t,
  has_error-all u c xs t,
)

any-eq {ℓ} :
    {A : Type ℓ} (p q : A → Bool) → ((a : A) → p a ≡ q a) → (xs : List A) → any p xs ≡ any q xs
any-eq p q h [] = refl
any-eq p q h (x ∷ xs) = ground (arith, h x, any-eq p q h xs)

-- An error is reported for a target exactly when some checked action with that target is taken out.
pub remove_non_unique_actions-errors :
    (g : CompiledGraph) (t : Target)
    → has_error (remove_non_unique_actions g).1 t
      ≡ any (λ (a : ActionProto). a.target == t && not (stands_once g a)) (filtered_actions g)
unfolding remove_non_unique_actions
remove_non_unique_actions-errors g t =
    has_error-all _ _ (filtered_actions g) t
    ∙ any-eq _ _ (λ a. ground (arith, unique_iff g a)) (filtered_actions g)

abbrev pub names_of : List TestProto → List Text
names_of tests = map (λ (t : TestProto). t.name) tests

-- No name of the list is in `seen`, and none stands twice.
abbrev AllNew : List Text → List Text → Type 0
AllNew seen [] = Unit
AllNew seen (x ∷ xs) = (contains seen x ≡ false) × AllNew (seen ++ x ∷ []) xs

check_names-nil :
    (seen : List Text) (tests : List TestProto)
    → (check_names seen tests ≡ []) ↔ AllNew seen (names_of tests)
check_names-nil seen [] = (λ _. tt, λ _. refl)
check_names-nil seen (t ∷ ts) = ground (arith, check_names-nil (seen ++ t.name ∷ []) ts)

disjoint : List Text → List Text → Bool
disjoint seen [] = true
disjoint seen (x ∷ xs) = not (contains seen x) && disjoint seen xs

disjoint-snoc :
    (seen : List Text) (y : Text) (xs : List Text)
    → disjoint (seen ++ y ∷ []) xs ≡ (disjoint seen xs && not (contains xs y))
unfolding disjoint
disjoint-snoc seen y [] = refl
disjoint-snoc seen y (x ∷ xs) =
    ground (arith, disjoint-snoc seen y xs, contains-append seen (y ∷ []) x, ==_iff x y, ==_iff y x)

AllNew-IsDistinct :
    (seen xs : List Text) → AllNew seen xs ↔ (disjoint seen xs ≡ true) × IsDistinct xs
unfolding disjoint
AllNew-IsDistinct seen [] = (λ _. (refl, tt), λ _. tt)
AllNew-IsDistinct seen (x ∷ xs) =
    ground (arith, AllNew-IsDistinct (seen ++ x ∷ []) xs, disjoint-snoc seen x xs)

disjoint-nil : (xs : List Text) → disjoint [] xs ≡ true
unfolding disjoint
disjoint-nil [] = refl
disjoint-nil (x ∷ xs) = disjoint-nil xs

-- The tests have no error exactly when their names are distinct.
pub check_test_name_uniqueness-nil_iff :
    (tests : List TestProto) → (check_test_name_uniqueness tests ≡ []) ↔ IsDistinct (names_of tests)
unfolding check_test_name_uniqueness
check_test_name_uniqueness-nil_iff tests = ground (
  arith,
  check_names-nil [] tests,
  AllNew-IsDistinct [] (names_of tests),
  disjoint-nil (names_of tests),
)
