-- ===== src/Prune/Ending.antt =====
-- cli/api/commands/prune.ts: the two `while` loops end, since every name is queued at most once.
use sqlanvil.Base.{
  ℕ, zero, suc, ◌+◌, ◌≤◌, Text, text_eq, true, false, not, HasEq, ◌==◌, ==_iff, ==_refl, List, [],
  ◌∷◌, ◌++◌, contains, contains-append, contains-filter_by, filter_by, length, length-append,
  length-filter_by, IsDistinct, IsSubset, ◌≡◌, ◌≢◌, refl, arith, Bool-cases, inl, inr,
}
use sqlanvil.Prune.Patterns.{Matching, matched}
use sqlanvil.Prune.Selection.{
  reached, out_of_fuel, push_new, walk, walk_from, reversed, action_names, CompileAction,
}
use sqlanvil.Prune.Walks.{
  included-push_new, walk_ind, Matching-cases, walk-nil, walk-matched, walk-ambiguous,
}

module _ {ℓ} {A : Type ℓ} ⦃e : HasEq A⦄ where
  abbrev without : A → List A → List A
  without x ys = filter_by (λ y. not (y == x)) ys

  length-without :
      (x : A) (ys : List A) → contains ys x ≡ true → suc (length (without x ys)) ≤ length ys
  length-without x [] h = absurd (ground (arith, h))
  length-without x (y ∷ ys) h = ground (
    arith,
    h,
    ==_iff x y,
    ==_iff y x,
    length-filter_by (λ y. not (y == x)) ys,
    length-without x ys,
  )

  -- Distinct values that all stand in a list are not more than it has.
  pub length-IsSubset : (xs ys : List A) → IsDistinct xs → IsSubset xs ys → length xs ≤ length ys
  length-IsSubset [] ys distinct inside = omega arith
  length-IsSubset (x ∷ xs) ys distinct inside =
      let rest = length-IsSubset xs (without x ys) distinct.1 (λ a h.
        rw (contains-filter_by (λ y. not (y == x)) ys a)
          (ground (arith, inside a, h, distinct.0, ==_iff a x))) in
      omega (arith, rest, length-without x ys (inside x (ground (arith, ==_refl x))))

  pub IsDistinct-snoc :
      (xs : List A) (a : A) → IsDistinct xs → contains xs a ≡ false → IsDistinct (xs ++ a ∷ [])
  IsDistinct-snoc [] a distinct new = (refl, tt)
  IsDistinct-snoc (x ∷ xs) a distinct new = (
    rw (contains-append xs (a ∷ []) x) (ground (arith, distinct, new, ==_iff x a, ==_iff a x)),
    IsDistinct-snoc xs a distinct.1 (ground (arith, new)),
  )

-- Distinct names, out of those of the actions.
abbrev pub IsSelection : List Text → List Text → Type 0
IsSelection universe names = IsDistinct names × IsSubset names universe

IsDistinct-push_new :
    (ns queue included : List Text)
    → IsDistinct included
    → IsDistinct (push_new ns queue included).1
IsDistinct-push_new [] queue included h = h
IsDistinct-push_new (n ∷ ns) queue included h = elim (Bool-cases (contains included n)) [
  | inl old ↦ rw old (IsDistinct-push_new ns queue included h)
  | inr new ↦
      rw new
        (IsDistinct-push_new ns (n ∷ queue) (included ++ n ∷ []) (IsDistinct-snoc included n h new))
]

-- A name is queued when it is included, and only then.
length-push_new :
    (ns queue included : List Text)
    → length (push_new ns queue included).0 + length included
      ≡ length queue + length (push_new ns queue included).1
length-push_new [] queue included = omega arith
length-push_new (n ∷ ns) queue included = ground (
  arith,
  length-push_new ns queue included,
  length-push_new ns (n ∷ queue) (included ++ n ∷ []),
  length-append included (n ∷ []),
)

length-reversed : (xs ys : List Text) → length (reversed xs ys) ≡ length xs + length ys
length-reversed [] ys = omega arith
length-reversed (x ∷ xs) ys = omega (arith, length-reversed xs (x ∷ ys))

module _ (step : Text → Matching (List Text)) (universe : List Text)
    (inside : (n : Text) (names : List Text)
      → step n ≡ matched names
      → IsSubset names universe) where
  abbrev Selecting : List Text → List Text → Type 0
  Selecting queue included = IsSelection universe included

  IsSelection-push_new :
      (name : Text) (queue included names : List Text)
      → step name ≡ matched names
      → IsSelection universe included
      → IsSelection universe (push_new names queue included).1
  IsSelection-push_new name queue included names e (distinct, within) = (
    IsDistinct-push_new names queue included distinct,
    λ m h.
        ground
          (arith, h, included-push_new m names queue included, inside name names e m, within m),
  )

  walk-fuel :
      (fuel : ℕ) (queue included : List Text)
      → IsSelection universe included
      → length queue + length universe ≤ fuel + length included
      → walk step fuel queue included ≢ out_of_fuel
  walk-fuel fuel [] included selection h e = absurd (cc (walk-nil step fuel included, e))
  walk-fuel zero (name ∷ queue) included selection h e =
      absurd (omega (arith, h, length-IsSubset included universe selection.0 selection.1))
  walk-fuel (suc fuel) (name ∷ queue) included selection h e = elim (Matching-cases (step name)) [
    | inl (found, m) ↦
        walk-fuel fuel (push_new found queue included).0 (push_new found queue included).1
          (IsSelection-push_new name queue included found m selection)
          (omega (arith, h, length-push_new found queue included))
          (cc (walk-matched step fuel name queue included found m, e))
    | inr (q, ms, m) ↦ absurd (cc (walk-ambiguous step fuel name queue included q ms m, e))
  ]

  pub walk_from-IsSelection :
      (actions : List CompileAction) (included names : List Text)
      → walk_from actions step included ≡ reached names
      → IsSelection universe included
      → IsSelection universe names
  unfolding walk_from
  walk_from-IsSelection actions included names e selection =
      walk_ind step Selecting IsSelection-push_new (length (action_names actions))
        (reversed included []) included names e selection

  pub walk_from-ends :
      (actions : List CompileAction) (included : List Text)
      → universe ≡ action_names actions
      → IsSelection universe included
      → walk_from actions step included ≢ out_of_fuel
  unfolding walk_from
  walk_from-ends actions included same selection =
      walk-fuel (length (action_names actions)) (reversed included []) included selection
        (rw same (omega (arith, length-reversed included [])))
