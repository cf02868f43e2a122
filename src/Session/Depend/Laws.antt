-- ===== src/Session/Depend/Laws.antt =====
-- core/session.ts: which actions a dependency is resolved to, and when that is an error.
use sqlanvil.Base.{
  text_eq, option_text_eq, Bool, true, false, List, ◌∷◌, [], ◌++◌, ◌&&◌, ◌||◌, not, contains,
  contains-filter_by, if◌then◌else◌, ◌==◌, ==_iff, ==_refl, ◌≡◌, refl, ◌↔◌, arith, ap, ◌∙◌, nat_eq,
  inl, inr, every, ◌⊎◌,
}
use sqlanvil.Targets.{Target, target_eq, truthy}
use sqlanvil.Resolvable.{ResolvableMap, find, resolvable_map}
use sqlanvil.Resolvable.Laws.{fits, scan, find-resolvable_map}
use sqlanvil.Session.Graph.{ActionProto}
use sqlanvil.Session.Depend.{
  Defaults, prefer, prefer_if, single_or, narrow, choose, find_actions, Qualified, qualify,
  qualify_all, fully_qualify_dependencies,
}

contains-prefer :
    (p : Target → Bool) (xs : List Target) (t : Target)
    → contains (prefer p xs) t ≡ true
    → contains xs t ≡ true
contains-prefer p xs t h = ground (arith, contains-filter_by p xs t)

contains-prefer_if :
    (b : Bool) (p : Target → Bool) (xs : List Target) (t : Target)
    → contains (prefer_if b p xs) t ≡ true
    → contains xs t ≡ true
contains-prefer_if true p xs t h = contains-prefer p xs t h
contains-prefer_if false p xs t h = h

contains-narrow :
    (cfg : Defaults) (ref : Target) (xs : List Target) (t : Target)
    → contains (narrow cfg ref xs) t ≡ true
    → contains xs t ≡ true
contains-narrow cfg ref xs t h =
    let by_database = not (truthy ref.database) && truthy cfg.default_database in
    let in_database = λ (u : Target). u.database == cfg.default_database in
    contains-prefer_if by_database in_database xs t (
      contains-prefer_if (not (truthy ref.schema) && truthy cfg.default_schema)
        (λ u. u.schema == cfg.default_schema) (prefer_if by_database in_database xs) t h)

single_or_cases :
    (n found : List Target)
    → (single_or n found ≡ found) ⊎ ((t : Target) × (single_or n found ≡ t ∷ []) × (n ≡ t ∷ []))
single_or_cases [] found = inl refl
single_or_cases (c ∷ []) found = inr (c, refl, refl)
single_or_cases (c ∷ d ∷ rest) found = inl refl

-- `findActions` gives all the targets that the index finds, or a single one of them.
pub find_actions-choice :
    (cfg : Defaults) (indexed : ResolvableMap Target) (ref : Target)
    → (find_actions cfg indexed ref ≡ find indexed ref)
      ⊎ ((t : Target) × (find_actions cfg indexed ref ≡ t ∷ [])
          × (contains (find indexed ref) t ≡ true))
unfolding find_actions
find_actions-choice cfg indexed ref = go (find indexed ref)
  where
    go :
        (found : List Target)
        → (choose cfg ref found ≡ found)
          ⊎ ((t : Target) × (choose cfg ref found ≡ t ∷ []) × (contains found t ≡ true))
    go [] = inl refl
    go (c ∷ []) = inl refl
    go (c ∷ d ∷ rest) =
        let found = c ∷ d ∷ rest in
        elim (single_or_cases (narrow cfg ref found) found) [
          | inl all ↦ inl all
          | inr (t, single, from) ↦
              inr (t, single, contains-narrow cfg ref found t (rw from (rw (==_refl t) refl)))
        ]

contains-choice :
    (cfg : Defaults) (indexed : ResolvableMap Target) (ref t : Target)
    → contains (find_actions cfg indexed ref) t ≡ true
    → contains (find indexed ref) t ≡ true
contains-choice cfg indexed ref t h = elim (find_actions-choice cfg indexed ref) [
  | inl all ↦ rw all at h
  | inr (u, single, there) ↦ let same = rw single at h in ground (arith, same, ==_iff t u, there)
]

abbrev pub with_targets : List Target → List (Target × Target)
with_targets [] = []
with_targets (t ∷ ts) = (t, t) ∷ with_targets ts

contains-one :
    (b : Bool) (t u : Target) (rest : List Target)
    → contains ((if b then u ∷ [] else []) ++ rest) t ≡ (b && t == u || contains rest t)
contains-one true t u rest = refl
contains-one false t u rest = refl

regroup :
    (f : Target → Bool) (t u : Target) (c : Bool)
    → (f u && t == u || f t && c) ≡ (f t && (t == u || c))
regroup f t u c = ground (arith, ==_iff t u)

contains-scan :
    (ref t : Target) (ts : List Target)
    → contains (scan ref (with_targets ts)) t ≡ (fits ref t && contains ts t)
contains-scan ref t [] = ground arith
contains-scan ref t (u ∷ ts) =
    contains-one (fits ref u) t u (scan ref (with_targets ts))
    ∙ ap (λ c. fits ref u && t == u || c) (contains-scan ref t ts)
    ∙ regroup (fits ref) t u (contains ts t)

-- A target that `findActions` gives for a reference is one of the indexed actions, has the name of
-- the reference, and has its schema and its database where the reference names them.
pub find_actions-fits :
    (cfg : Defaults) (targets : List Target) (ref t : Target)
    → contains (find_actions cfg (resolvable_map (with_targets targets)) ref) t ≡ true
    → (fits ref t ≡ true) × (contains targets t ≡ true)
find_actions-fits cfg targets ref t h =
    let found = contains-choice cfg (resolvable_map (with_targets targets)) ref t h in
    ground
      (arith, found, find-resolvable_map (with_targets targets) ref, contains-scan ref t targets)

-- Each dependency of the list is resolved to one target.
abbrev pub resolves : List Target → Bool
resolves (t ∷ []) = true
resolves _ = false

qualify-nil :
    (assertions : ResolvableMap Target) (a : ActionProto) (d : Target) (found : List Target)
    (q : Qualified)
    → ((qualify assertions a d found q).1 ≡ []) ↔ (resolves found ≡ true)
unfolding qualify
qualify-nil assertions a d [] q = ground arith
qualify-nil assertions a d (t ∷ []) q = ground arith
qualify-nil assertions a d (t ∷ u ∷ us) q = ground arith

pub append-nil_iff {ℓ} : {A : Type ℓ} (xs ys : List A) → (xs ++ ys ≡ []) ↔ (xs ≡ []) × (ys ≡ [])
append-nil_iff [] ys = (λ h. (refl, h), λ h. h.1)
append-nil_iff (x ∷ xs) ys = ground arith

qualify_all-nil :
    (cfg : Defaults) (indexed assertions : ResolvableMap Target) (a : ActionProto)
    (ds : List Target) (q : Qualified)
    → ((qualify_all cfg indexed assertions a ds q).1 ≡ [])
      ↔ (every (λ d. resolves (find_actions cfg indexed d)) ds ≡ true)
unfolding qualify_all
qualify_all-nil cfg indexed assertions a [] q = (λ _. refl, λ _. refl)
qualify_all-nil cfg indexed assertions a (d ∷ ds) q =
    let found = find_actions cfg indexed d in
    let (q', errors) = qualify assertions a d found q in
    let more = (qualify_all cfg indexed assertions a ds q').1 in
    let both = append-nil_iff errors more in
    let first = qualify-nil assertions a d found q in
    let rest = qualify_all-nil cfg indexed assertions a ds q' in ground (arith, both, first, rest)

-- The dependencies of an action are resolved without an error exactly when `findActions` gives one
-- target for each of them.
pub fully_qualify_dependencies-nil_iff :
    (cfg : Defaults) (indexed assertions : ResolvableMap Target) (a : ActionProto)
    → ((fully_qualify_dependencies cfg indexed assertions a).1 ≡ [])
      ↔ (every (λ d. resolves (find_actions cfg indexed d)) a.dependency_targets ≡ true)
unfolding fully_qualify_dependencies
fully_qualify_dependencies-nil_iff cfg indexed assertions a =
    qualify_all-nil cfg indexed assertions a a.dependency_targets []
