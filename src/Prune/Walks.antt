-- ===== src/Prune/Walks.antt =====
-- cli/api/commands/prune.ts: the two `while` loops end, and include exactly what can be reached.
use sqlanvil.Base.{
  ℕ, zero, suc, Text, text_eq, true, false, not, ◌||◌, ◌&&◌, ◌==◌, ==_iff, List, [], ◌∷◌, ◌++◌,
  contains, contains-append, IsSubset, ◌≡◌, refl, ◌⊎◌, arith, Bool-cases, inl, inr,
}
use sqlanvil.Prune.Patterns.{Matching, matched, ambiguous}
use sqlanvil.Prune.Selection.{reached, failed, out_of_fuel, push_new, walk}

-- `push_new` includes the names, and queues those that were not included.
module _ (n : Text) where
  pub included-push_new :
      (ns queue included : List Text)
      → contains (push_new ns queue included).1 n ≡ (contains included n || contains ns n)
  included-push_new [] queue included = ground arith
  included-push_new (m ∷ ns) queue included = ground (
    arith,
    included-push_new ns queue included,
    included-push_new ns (m ∷ queue) (included ++ m ∷ []),
    contains-append included (m ∷ []) n,
    ==_iff n m,
  )

  pub queue-push_new :
      (ns queue included : List Text)
      → contains (push_new ns queue included).0 n
        ≡ (contains queue n || contains ns n && not (contains included n))
  queue-push_new [] queue included = ground arith
  queue-push_new (m ∷ ns) queue included = ground (
    arith,
    queue-push_new ns queue included,
    queue-push_new ns (m ∷ queue) (included ++ m ∷ []),
    contains-append included (m ∷ []) n,
    ==_iff n m,
  )

pub Matching-cases :
    (r : Matching (List Text))
    → ((names : List Text) × (r ≡ matched names))
      ⊎ ((p : Text) × (ms : List Text) × (r ≡ ambiguous p ms))
Matching-cases (matched names) = inl (names, refl)
Matching-cases (ambiguous p ms) = inr (p, ms, refl)

-- What can be reached from the roots, where `step` finds the names behind a name.
pub data Reaches (step : Text → Matching (List Text)) (roots : List Text) : Text → Type 0 where
  root : {n : Text} → contains roots n ≡ true → Reaches step roots n
  behind :
      {n m : Text} (names : List Text)
      → Reaches step roots n
      → step n ≡ matched names
      → contains names m ≡ true
      → Reaches step roots m

module _ (step : Text → Matching (List Text)) where
  -- The names behind `n` are found, and included.
  abbrev pub Done : List Text → Text → Type 0
  Done included n = (names : List Text) × (step n ≡ matched names) × IsSubset names included

  Done-push_new :
      (ns queue included : List Text) (n : Text)
      → Done included n
      → Done (push_new ns queue included).1 n
  Done-push_new ns queue included n (names, e, inside) =
      (names, e, λ m h. rw (included-push_new m ns queue included) (ground (arith, inside m h)))

  -- An included name is queued or done.
  abbrev Progress : List Text → List Text → Type 0
  Progress queue included =
      (n : Text) → contains included n ≡ true → contains queue n ≡ false → Done included n

  Progress-push_new :
      (name : Text) (queue included names : List Text)
      → step name ≡ matched names
      → Progress (name ∷ queue) included
      → Progress (push_new names queue included).0 (push_new names queue included).1
  Progress-push_new name queue included names e progress n here unqueued =
      let now = included-push_new n names queue included in
      let left = queue-push_new n names queue included in
      elim (Bool-cases (n == name)) [
        | inl same ↦
            let found : step n ≡ matched names = rw ((==_iff n name).0 same) e in
            (names, found, λ m h. rw (included-push_new m names queue included) (ground (arith, h)))
        | inr other ↦
            Done-push_new names queue included n
              (progress n (ground (arith, now, left)) (ground (arith, now, left)))
      ]

  pub walk-nil : (fuel : ℕ) (included : List Text) → walk step fuel [] included ≡ reached included
  unfolding walk
  walk-nil zero included = refl
  walk-nil (suc fuel) included = refl

  pub walk-matched :
      (fuel : ℕ) (name : Text) (queue included names : List Text)
      → step name ≡ matched names
      → walk step (suc fuel) (name ∷ queue) included
        ≡ walk step fuel (push_new names queue included).0 (push_new names queue included).1
  unfolding walk
  walk-matched fuel name queue included names e = rw (e, walk) refl

  pub walk-ambiguous :
      (fuel : ℕ) (name : Text) (queue included : List Text) (p : Text) (ms : List Text)
      → step name ≡ ambiguous p ms
      → walk step (suc fuel) (name ∷ queue) included ≡ failed p ms
  unfolding walk
  walk-ambiguous fuel name queue included p ms e = rw (e, walk) refl

  pub walk-zero :
      (name : Text) (queue included : List Text)
      → walk step zero (name ∷ queue) included ≡ out_of_fuel
  unfolding walk
  walk-zero name queue included = refl

  module _ {κ} (P : List Text → List Text → Type κ)
      (keep : (name : Text) (queue included names : List Text)
        → step name ≡ matched names
        → P (name ∷ queue) included
        → P (push_new names queue included).0 (push_new names queue included).1) where
    -- What each round keeps of the queue and the included names holds at the end of a walk.
    pub walk_ind :
        (fuel : ℕ) (queue included names : List Text)
        → walk step fuel queue included ≡ reached names
        → P queue included
        → P [] names
    walk_ind fuel [] included names e p =
        let same : included ≡ names = cc (walk-nil fuel included) in rw (← same) p
    walk_ind zero (name ∷ queue) included names e p = absurd (cc (walk-zero name queue included))
    walk_ind (suc fuel) (name ∷ queue) included names e p = elim (Matching-cases (step name)) [
      | inl (found, m) ↦
          walk_ind fuel (push_new found queue included).0 (push_new found queue included).1 names
            (cc (walk-matched fuel name queue included found m))
            (keep name queue included found m p)
      | inr (q, ms, m) ↦ absurd (cc (walk-ambiguous fuel name queue included q ms m))
    ]

  pub walk-Done :
      (fuel : ℕ) (queue included names : List Text)
      → walk step fuel queue included ≡ reached names
      → Progress queue included
      → (n : Text) → contains names n ≡ true
      → Done names n
  walk-Done fuel queue included names e progress n here =
      walk_ind Progress Progress-push_new fuel queue included names e progress n here refl
