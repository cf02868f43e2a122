-- ===== src/Session/Depend/Ranking.antt =====
-- core/session.ts: which of the actions that a reference fits `findActions` gives.
use sqlanvil.Base.{
  text_eq, option_text_eq, Bool, true, false, List, ◌∷◌, [], ◌&&◌, ◌||◌, not, filter_by, ◌==◌, ◌≡◌,
  refl, arith, ap, ◌∙◌, sym, inl, inr, Bool-cases,
}
use sqlanvil.Targets.{Target, truthy}
use sqlanvil.Resolvable.{resolvable_map}
use sqlanvil.Resolvable.Laws.{fits, scan, find-resolvable_map}
use sqlanvil.Session.Depend.{Defaults, prefer, prefer_if, single_or, narrow, choose, find_actions}
use sqlanvil.Session.Depend.Laws.{with_targets}

-- The first list that is not empty.
abbrev pub first_some : List Target → List Target → List Target
first_some [] ys = ys
first_some (x ∷ xs) ys = x ∷ xs

-- The only element of the best, or all.
abbrev pub sole_or : List Target → List Target → List Target
sole_or (t ∷ []) all = t ∷ []
sole_or _ all = all

-- What a reference leaves open is as the configuration has it.
abbrev pub in_database : Defaults → Target → Target → Bool
in_database cfg ref t =
    truthy ref.database || (not (truthy cfg.default_database) || t.database == cfg.default_database)

abbrev pub in_schema : Defaults → Target → Target → Bool
in_schema cfg ref t =
    truthy ref.schema || (not (truthy cfg.default_schema) || t.schema == cfg.default_schema)

-- The candidates of the best rank: both defaults count more than the database alone, that more than the
-- schema alone, and that more than none.
abbrev pub best : Defaults → Target → List Target → List Target
best cfg ref found =
    first_some (filter_by (λ t. in_database cfg ref t && in_schema cfg ref t) found) (
      first_some (filter_by (in_database cfg ref) found)
        (first_some (filter_by (in_schema cfg ref) found) found))

filter_by-all : (xs : List Target) → filter_by (λ t. true) xs ≡ xs
filter_by-all [] = refl
filter_by-all (x ∷ xs) = ap (λ r. x ∷ r) (filter_by-all xs)

first_some-same : (xs : List Target) → first_some xs xs ≡ xs
first_some-same [] = refl
first_some-same (x ∷ xs) = refl

prefer-first_some :
    (p : Target → Bool) (xs : List Target) → prefer p xs ≡ first_some (filter_by p xs) xs
prefer-first_some p xs = go (filter_by p xs)
  where
    go : (ys : List Target) → (elim ys [ [] ↦ xs | z ∷ zs ↦ z ∷ zs ]) ≡ first_some ys xs
    go [] = refl
    go (y ∷ ys) = refl

prefer_if-first_some :
    (given default : Bool) (p : Target → Bool) (xs : List Target)
    → prefer_if (not given && default) p xs
      ≡ first_some (filter_by (λ t. given || (not default || p t)) xs) xs
prefer_if-first_some true default p xs =
    sym (first_some-same xs) ∙ ap (λ r. first_some r xs) (sym (filter_by-all xs))
prefer_if-first_some false false p xs =
    sym (first_some-same xs) ∙ ap (λ r. first_some r xs) (sym (filter_by-all xs))
prefer_if-first_some false true p xs = prefer-first_some p xs

filter_by-both :
    (p q : Target → Bool) (xs : List Target)
    → filter_by q (filter_by p xs) ≡ filter_by (λ t. p t && q t) xs
filter_by-both p q [] = refl
filter_by-both p q (x ∷ xs) = ground (arith, filter_by-both p q xs)

first_some-twice :
    (p q : Target → Bool) (xs : List Target)
    → first_some (filter_by q (first_some (filter_by p xs) xs)) (first_some (filter_by p xs) xs)
      ≡ first_some
          (filter_by (λ t. p t && q t) xs)
          (first_some (filter_by p xs) (first_some (filter_by q xs) xs))
first_some-twice p q xs = rw⁻¹ (filter_by-both p q xs) (go (filter_by p xs))
  where
    go :
        (ys : List Target)
        → first_some (filter_by q (first_some ys xs)) (first_some ys xs)
          ≡ first_some (filter_by q ys) (first_some ys (first_some (filter_by q xs) xs))
    go [] = refl
    go (y ∷ ys) = refl

narrow-best :
    (cfg : Defaults) (ref : Target) (xs : List Target) → narrow cfg ref xs ≡ best cfg ref xs
narrow-best cfg ref xs =
    prefer_if-first_some (truthy ref.schema) (truthy cfg.default_schema)
      (λ t. t.schema == cfg.default_schema)
      (prefer_if (not (truthy ref.database) && truthy cfg.default_database)
        (λ t. t.database == cfg.default_database) xs)
    ∙ ap (λ ys. first_some (filter_by (in_schema cfg ref) ys) ys)
        (prefer_if-first_some (truthy ref.database) (truthy cfg.default_database)
          (λ t. t.database == cfg.default_database) xs)
    ∙ first_some-twice (in_database cfg ref) (in_schema cfg ref) xs

sole_or-single_or : (xs ys : List Target) → single_or xs ys ≡ sole_or xs ys
sole_or-single_or [] ys = refl
sole_or-single_or (x ∷ []) ys = refl
sole_or-single_or (x ∷ z ∷ xs) ys = refl

choose-best :
    (cfg : Defaults) (ref : Target) (xs : List Target)
    → choose cfg ref xs ≡ sole_or (best cfg ref xs) xs
choose-best cfg ref [] = refl
choose-best cfg ref (c ∷ []) = ground arith
choose-best cfg ref (c ∷ d ∷ rest) =
    sole_or-single_or (narrow cfg ref (c ∷ d ∷ rest)) (c ∷ d ∷ rest)
    ∙ ap (λ r. sole_or r (c ∷ d ∷ rest)) (narrow-best cfg ref (c ∷ d ∷ rest))

scan-filter_by :
    (ref : Target) (ts : List Target) → scan ref (with_targets ts) ≡ filter_by (fits ref) ts
scan-filter_by ref [] = refl
scan-filter_by ref (t ∷ ts) = elim (Bool-cases (fits ref t)) [
  | inl yes_ ↦ rw yes_ (ap (λ r. t ∷ r) (scan-filter_by ref ts))
  | inr no_ ↦ rw no_ (scan-filter_by ref ts)
]

-- Of the actions that fit a reference, `findActions` gives the only one of the best rank, or else all:
-- those in the default database and the default schema rank first, then those in the default database,
-- then those in the default schema, where a part counts only if the reference leaves it open and the
-- configuration has it.
pub find_actions_lem :
    (cfg : Defaults) (targets : List Target) (ref : Target)
    → let found = filter_by (fits ref) targets in
      find_actions cfg (resolvable_map (with_targets targets)) ref
      ≡ sole_or (best cfg ref found) found
unfolding find_actions
find_actions_lem cfg targets ref =
    ap (choose cfg ref)
      (find-resolvable_map (with_targets targets) ref ∙ scan-filter_by ref targets)
    ∙ choose-best cfg ref (filter_by (fits ref) targets)
