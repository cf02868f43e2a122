-- ===== src/ValidateGraph/Emission.antt =====
-- cli/api/commands/validate_graph.ts: what every round of the `while` loop of `topoOrder` keeps.
use sqlanvil.Base.{
  ℕ, zero, suc, ◌+◌, ◌≤◌, leb, Text, text_eq, nat_eq, true, false, not, ◌&&◌, ◌||◌, if◌then◌else◌,
  ◌==◌, ==_iff, ==_refl, List, [], ◌∷◌, ◌++◌, none, some, contains, contains-append, contains-count,
  count, length, get, IsDistinct, IsSubset, ◌≡◌, ◌≢◌, arith, Bool-cases, inl, inr, ◌∙◌,
}
use sqlanvil.Prune.Ending.{IsDistinct-snoc}
use sqlanvil.ValidateGraph.Order.{
  before, sort_by, or_zero, or_empty, Indegrees, Dependents, release_all, emit,
}
use sqlanvil.ValidateGraph.Releasing.{
  count-sort_by, length-sort_by, indegree-release_all, ready-release_all, length-release_all,
}
use sqlanvil.ValidateGraph.Waiting.{
  left, left-snoc, left-zero, Follows, Follows-snoc, every-contains, weight, weight-emitted,
}

module _ (keys : List Text) (deps : Text → List Text) (dependents : Dependents)
    (deps_distinct : (k : Text) → IsDistinct (deps k))
    (deps_inside : (k d : Text) → contains (deps k) d ≡ true → contains keys k ≡ true)
    (listed : (d k : Text)
      → count k (or_empty (get dependents d)) ≡ (if contains (deps k) d then 1 else 0)) where
  -- What is emitted: keys, each once, each after its dependencies.
  abbrev pub IsEmitted : List Text → Type 0
  IsEmitted emitted = Follows deps [] emitted × IsDistinct emitted × IsSubset emitted keys

  -- The counts are those of the dependencies left, and the keys with none left wait in the queue.
  abbrev pub IsSound : List Text → List Text → Indegrees → Type 0
  IsSound ready emitted indegree =
      ((k : Text) → or_zero (get indegree k) ≡ left emitted (deps k))
      × ((k : Text)
          → contains ready k ≡ true
          → (contains keys k ≡ true) × (left emitted (deps k) ≡ 0))
      × ((k : Text)
          → contains keys k ≡ true
          → left emitted (deps k) ≡ 0
          → (contains emitted k || contains ready k) ≡ true)
      × IsEmitted emitted

  -- A key that was emitted before is passed over.
  IsSound-skip :
      (key : Text) (ready emitted : List Text) (indegree : Indegrees)
      → contains emitted key ≡ true
      → IsSound (key ∷ ready) emitted indegree
      → IsSound ready emitted indegree
  IsSound-skip key ready emitted indegree old (degree, queued, waiting, emission) = (
    degree,
    λ k h. queued k (ground (arith, h)),
    λ k h none_left. elim (Bool-cases (k == key)) [
      | inl same ↦ let equal : k ≡ key = (==_iff k key).0 same in rw equal (ground (arith, old))
      | inr other ↦ ground (arith, waiting k h none_left, other)
    ],
    emission,
  )

  module _ (key : Text) (ready emitted : List Text) (indegree : Indegrees)
      (new : contains emitted key ≡ false) (sound : IsSound (key ∷ ready) emitted indegree) where
    abbrev emitted_now : List Text
    emitted_now = emitted ++ key ∷ []

    abbrev released : List Text
    released = sort_by before (or_empty (get dependents key))

    abbrev next : List Text × Indegrees
    next = release_all emitted_now released ready indegree

    released-count : (k : Text) → count k released ≡ (if contains (deps k) key then 1 else 0)
    released-count k = count-sort_by before k (or_empty (get dependents key)) ∙ listed key k

    left-now :
        (k : Text)
        → left emitted (deps k)
          ≡ left emitted_now (deps k) + (if contains (deps k) key then 1 else 0)
    left-now k = left-snoc emitted key (deps k) (deps_distinct k) new

    degree-now : (k : Text) → or_zero (get next.1 k) ≡ left emitted_now (deps k)
    degree-now k = omega (
      arith,
      indegree-release_all emitted_now k released ready indegree,
      released-count k,
      left-now k,
      sound.0 k,
    )

    freed :
        (k : Text)
        → contains next.0 k ≡ (
            contains ready k
            || contains released k
              && leb (or_zero (get indegree k)) (count k released)
              && not (contains emitted_now k))
    freed k = ready-release_all emitted_now k released ready indegree

    queued-now :
        (k : Text)
        → contains next.0 k ≡ true
        → (contains keys k ≡ true) × (left emitted_now (deps k) ≡ 0)
    queued-now k h = elim (Bool-cases (contains ready k)) [
      | inl old ↦
          let (inside, none_left) = sound.1 k (ground (arith, old)) in
          (inside, omega (arith, none_left, left-now k))
      | inr unqueued ↦
          let counted = contains-count k released in
          let dep : contains (deps k) key ≡ true =
            ground (arith, h, unqueued, freed k, counted, released-count k) in
          (
            deps_inside k key dep,
            ground (arith, h, unqueued, dep, freed k, released-count k, left-now k, sound.0 k),
          )
    ]

    waiting-now :
        (k : Text)
        → contains keys k ≡ true
        → left emitted_now (deps k) ≡ 0
        → (contains emitted_now k || contains next.0 k) ≡ true
    waiting-now k h none_left =
        let now = contains-append emitted (key ∷ []) k in
        elim (Bool-cases (contains (deps k) key)) [
          | inl dep ↦
              let counted = contains-count k released in
              ground
                (arith, none_left, dep, freed k, counted, released-count k, left-now k, sound.0 k)
          | inr other ↦
              let before_now : left emitted (deps k) ≡ 0 =
                ground (arith, none_left, other, left-now k) in
              ground (arith, sound.2 k h before_now, now, freed k)
        ]

    emission-now : IsEmitted emitted_now
    emission-now =
        let (degree, queued, waiting, (follows, distinct, inside)) = sound in
        let (key_inside, none_left) = queued key (ground (arith, ==_refl key)) in
        (
          Follows-snoc deps [] emitted key follows (
              every-contains (deps key) emitted
                (λ d h. left-zero emitted (deps key) d none_left h)),
          IsDistinct-snoc emitted key distinct new,
          λ k h. elim (Bool-cases (k == key)) [
            | inl same ↦ let equal : k ≡ key = (==_iff k key).0 same in rw equal key_inside
            | inr other ↦ inside k (ground (arith, h, other, contains-append emitted (key ∷ []) k))
          ],
        )

    IsSound-emit : IsSound next.0 emitted_now next.1
    IsSound-emit = (degree-now, queued-now, waiting-now, emission-now)

  -- The loop ends with the keys that no dependency keeps back.
  abbrev pub IsDone : List Text → Type 0
  IsDone emitted =
      ((k : Text) → contains keys k ≡ true → left emitted (deps k) ≡ 0 → contains emitted k ≡ true)
      × IsEmitted emitted

  IsDone-empty :
      (emitted result : List Text) (indegree : Indegrees)
      → some emitted ≡ some result
      → IsSound [] emitted indegree
      → IsDone result
  IsDone-empty emitted result indegree e (degree, queued, waiting, emission) =
      let same : emitted ≡ result = cc e in
      rw (← same) (λ k h none_left. ground (arith, waiting k h none_left), emission)

  pub emit-IsDone :
      (fuel : ℕ) (ready emitted result : List Text) (indegree : Indegrees)
      → emit dependents fuel ready emitted indegree ≡ some result
      → IsSound ready emitted indegree
      → IsDone result
  unfolding emit
  emit-IsDone zero [] emitted result indegree e sound = IsDone-empty emitted result indegree e sound
  emit-IsDone (suc fuel) [] emitted result indegree e sound =
      IsDone-empty emitted result indegree e sound
  emit-IsDone zero (key ∷ ready) emitted result indegree e sound = absurd (cc e)
  emit-IsDone (suc fuel) (key ∷ ready) emitted result indegree e sound =
      elim (Bool-cases (contains emitted key)) [
        | inl old ↦
            emit-IsDone fuel ready emitted result indegree (rw (old, emit) at e)
              (IsSound-skip key ready emitted indegree old sound)
        | inr new ↦
            emit-IsDone fuel (next key ready emitted indegree new sound).0 (emitted ++ key ∷ [])
              result (next key ready emitted indegree new sound).1 (rw (new, emit) at e)
              (IsSound-emit key ready emitted indegree new sound)
      ]

  pub emit-ends :
      (fuel : ℕ) (ready emitted : List Text) (indegree : Indegrees)
      → length ready + weight dependents emitted keys ≤ fuel
      → IsSound ready emitted indegree
      → emit dependents fuel ready emitted indegree ≢ none
  unfolding emit
  emit-ends zero [] emitted indegree h sound e = cc e
  emit-ends (suc fuel) [] emitted indegree h sound e = cc e
  emit-ends zero (key ∷ ready) emitted indegree h sound e = absurd (omega (arith, h))
  emit-ends (suc fuel) (key ∷ ready) emitted indegree h sound e =
      elim (Bool-cases (contains emitted key)) [
        | inl old ↦
            emit-ends fuel ready emitted indegree (omega (arith, h))
              (IsSound-skip key ready emitted indegree old sound) (rw (old, emit) at e)
        | inr new ↦
            let inside = (sound.1 key (ground (arith, ==_refl key))).0 in
            emit-ends fuel (next key ready emitted indegree new sound).0 (emitted ++ key ∷ [])
              (next key ready emitted indegree new sound).1
              (omega (
                arith,
                h,
                weight-emitted dependents emitted key keys inside new,
                length-release_all (emitted ++ key ∷ [])
                    (released key ready emitted indegree new sound) ready indegree,
                length-sort_by before (or_empty (get dependents key)),
              ))
              (IsSound-emit key ready emitted indegree new sound) (rw (new, emit) at e)
      ]
