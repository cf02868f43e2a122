-- ===== src/ValidateGraph/Releasing.antt =====
-- cli/api/commands/validate_graph.ts: what sorting and the release of dependents change.
use sqlanvil.Base.{
  ℕ, suc, ◌+◌, ◌-◌, ◌≤◌, leb, Text, text_eq, nat_eq, Bool, not, ◌&&◌, ◌||◌, if◌then◌else◌, ◌==◌,
  ==_iff, List, [], ◌∷◌, ◌++◌, contains, contains-append, contains-count, count, length,
  length-append, get, put, get-put, ◌≡◌, refl, arith, Bool-cases, inl, inr, ap, ◌∙◌, sym,
}
use sqlanvil.ValidateGraph.Order.{before, insert_by, sort_by, or_zero, Indegrees, release_all}

module _ (precedes : Text → Text → Bool) (k : Text) where
  contains-insert_by :
      (x : Text) (xs : List Text) → contains (insert_by precedes x xs) k ≡ (k == x || contains xs k)
  contains-insert_by x [] = ground arith
  contains-insert_by x (y ∷ xs) = ground (arith, contains-insert_by x xs)

  pub contains-sort_by : (xs : List Text) → contains (sort_by precedes xs) k ≡ contains xs k
  contains-sort_by [] = refl
  contains-sort_by (x ∷ xs) =
      ground (arith, contains-insert_by x (sort_by precedes xs), contains-sort_by xs)

  count-insert_by :
      (x : Text) (xs : List Text)
      → count k (insert_by precedes x xs) ≡ count k (x ∷ []) + count k xs
  count-insert_by x [] = ground arith
  count-insert_by x (y ∷ xs) = ground (arith, count-insert_by x xs)

  pub count-sort_by : (xs : List Text) → count k (sort_by precedes xs) ≡ count k xs
  count-sort_by [] = refl
  count-sort_by (x ∷ xs) = ground (arith, count-insert_by x (sort_by precedes xs), count-sort_by xs)

module _ (precedes : Text → Text → Bool) where
  length-insert_by :
      (x : Text) (xs : List Text) → length (insert_by precedes x xs) ≡ suc (length xs)
  length-insert_by x [] = refl
  length-insert_by x (y ∷ xs) = ground (arith, length-insert_by x xs)

  pub length-sort_by : (xs : List Text) → length (sort_by precedes xs) ≡ length xs
  length-sort_by [] = refl
  length-sort_by (x ∷ xs) = length-insert_by x (sort_by precedes xs) ∙ ap suc (length-sort_by xs)

or_zero-put :
    (indegree : Indegrees) (dep k : Text) (n : ℕ)
    → or_zero (get (put indegree dep n) k) ≡ (if dep == k then n else or_zero (get indegree k))
or_zero-put indegree dep k n = ground (arith, get-put indegree dep k n)

module _ (emitted : List Text) (k : Text) where
  -- Each occurrence among the dependents takes one off the count.
  pub indegree-release_all :
      (deps ready : List Text) (indegree : Indegrees)
      → or_zero (get (release_all emitted deps ready indegree).1 k)
        ≡ or_zero (get indegree k) - count k deps
  indegree-release_all [] ready indegree = omega arith
  indegree-release_all (dep ∷ deps) ready indegree =
      let left = or_zero (get indegree dep) - 1 in
      let after = put indegree dep left in
      ground (
        arith,
        indegree-release_all deps (sort_by before (ready ++ dep ∷ [])) after,
        indegree-release_all deps ready after,
        or_zero-put indegree dep k left,
        ==_iff dep k,
        ==_iff k dep,
      )

  -- A key becomes ready when its count comes to 0.
  pub ready-release_all :
      (deps ready : List Text) (indegree : Indegrees)
      → contains (release_all emitted deps ready indegree).0 k ≡ (
          contains ready k
          || contains deps k
            && leb (or_zero (get indegree k)) (count k deps)
            && not (contains emitted k))
  ready-release_all [] ready indegree = ground arith
  ready-release_all (dep ∷ deps) ready indegree =
      let left = or_zero (get indegree dep) - 1 in
      let after = put indegree dep left in
      let pushed = ready-release_all deps (sort_by before (ready ++ dep ∷ [])) after in
      let passed = ready-release_all deps ready after in
      let queued = contains-sort_by before k (ready ++ dep ∷ []) in
      let appended = contains-append ready (dep ∷ []) k in
      let changed = or_zero-put indegree dep k left in
      let counted = contains-count k deps in
      elim (Bool-cases (k == dep)) [
        | inl same ↦
            let equal : dep ≡ k = sym ((==_iff k dep).0 same) in
            let degree : or_zero (get indegree dep) ≡ or_zero (get indegree k) = rw equal refl in
            let done : contains emitted dep ≡ contains emitted k = rw equal refl in
            ground (arith, pushed, passed, queued, appended, changed, counted, ==_iff dep k)
        | inr other ↦
            ground (arith, pushed, passed, queued, appended, changed, ==_iff dep k, ==_iff k dep)
      ]

pub length-release_all :
    (emitted deps ready : List Text) (indegree : Indegrees)
    → length (release_all emitted deps ready indegree).0 ≤ length ready + length deps
length-release_all emitted [] ready indegree = omega arith
length-release_all emitted (dep ∷ deps) ready indegree =
    let after = put indegree dep (or_zero (get indegree dep) - 1) in
    ground (
      arith,
      length-release_all emitted deps (sort_by before (ready ++ dep ∷ [])) after,
      length-release_all emitted deps ready after,
      length-sort_by before (ready ++ dep ∷ []),
      length-append ready (dep ∷ []),
    )
