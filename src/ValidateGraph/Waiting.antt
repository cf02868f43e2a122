-- ===== src/ValidateGraph/Waiting.antt =====
-- cli/api/commands/validate_graph.ts: the dependencies that are left, the order of what is emitted,
-- and the dependents still to be released.
use sqlanvil.Base.{
  every, ℕ, ◌+◌, ◌≤◌, Text, text_eq, nat_eq, true, false, not, if◌then◌else◌, ◌==◌, ==_iff, ==_refl,
  List, [], ◌∷◌, ◌++◌, append_assoc, append-nil, contains, contains-append, length, filter_by, get,
  IsDistinct, IsSubset, ◌≡◌, refl, arith, Bool-cases, inl, inr,
}
use sqlanvil.ValidateGraph.Order.{or_empty, Dependents, rounds}

-- How many of the dependencies are not emitted.
abbrev pub left : List Text → List Text → ℕ
left emitted ds = length (filter_by (λ d. not (contains emitted d)) ds)

pub left-snoc :
    (emitted : List Text) (key : Text) (ds : List Text)
    → IsDistinct ds
    → contains emitted key ≡ false
    → left emitted ds ≡ left (emitted ++ key ∷ []) ds + (if contains ds key then 1 else 0)
left-snoc emitted key [] distinct new = omega arith
left-snoc emitted key (d ∷ ds) distinct new =
    let rest = left-snoc emitted key ds distinct.1 new in
    let now = contains-append emitted (key ∷ []) d in
    elim (Bool-cases (d == key)) [
      | inl same ↦
          let equal : d ≡ key = (==_iff d key).0 same in
          let unseen : contains emitted d ≡ false = rw equal new in
          let once : contains ds key ≡ false = rw equal at (distinct.0) in
          ground (arith, rest, now, same, unseen, once, ==_iff key d)
      | inr other ↦ ground (arith, rest, now, other, ==_iff key d, ==_iff d key)
    ]

pub left-zero :
    (emitted : List Text) (ds : List Text) (d : Text)
    → left emitted ds ≡ 0
    → contains ds d ≡ true
    → contains emitted d ≡ true
left-zero emitted [] d h inside = absurd (ground (arith, inside))
left-zero emitted (x ∷ ds) d h inside = elim (Bool-cases (d == x)) [
  | inl same ↦
      let equal : d ≡ x = (==_iff d x).0 same in
      let seen : contains emitted x ≡ true = ground (arith, h) in rw equal seen
  | inr other ↦ left-zero emitted ds d (ground (arith, h)) (ground (arith, inside, other))
]

-- Each key comes after its dependencies, the first ones after `done`.
abbrev pub Follows : (Text → List Text) → List Text → List Text → Type 0
Follows deps done [] = Unit
Follows deps done (k ∷ ks) =
    (every (contains done) (deps k) ≡ true) × Follows deps (done ++ k ∷ []) ks

pub every-contains : (ds done : List Text) → IsSubset ds done → every (contains done) ds ≡ true
every-contains [] done h = refl
every-contains (d ∷ ds) done h = ground (
  arith,
  h d (ground (arith, ==_refl d)),
  every-contains ds done (λ a i. h a (ground (arith, i))),
)

pub Follows-snoc :
    (deps : Text → List Text) (done ks : List Text) (k : Text)
    → Follows deps done ks
    → every (contains (done ++ ks)) (deps k) ≡ true
    → Follows deps done (ks ++ k ∷ [])
Follows-snoc deps done [] k follows inside = (let same = append-nil done in rw same at inside, tt)
Follows-snoc deps done (x ∷ ks) k follows inside = (
  follows.0,
  Follows-snoc deps (done ++ x ∷ []) ks k follows.1 (rw (append_assoc done (x ∷ []) ks) inside),
)

module _ (dependents : Dependents) where
  -- The dependents of the keys that are not emitted yet.
  abbrev pub weight : List Text → List Text → ℕ
  weight emitted [] = 0
  weight emitted (k ∷ ks) =
      if contains emitted k
      then weight emitted ks
      else length (or_empty (get dependents k)) + weight emitted ks

  pub weight-shrinks :
      (emitted : List Text) (key : Text) (ks : List Text)
      → weight (emitted ++ key ∷ []) ks ≤ weight emitted ks
  weight-shrinks emitted key [] = omega arith
  weight-shrinks emitted key (k ∷ ks) =
      ground (arith, weight-shrinks emitted key ks, contains-append emitted (key ∷ []) k)

  pub weight-emitted :
      (emitted : List Text) (key : Text) (ks : List Text)
      → contains ks key ≡ true
      → contains emitted key ≡ false
      → weight (emitted ++ key ∷ []) ks + length (or_empty (get dependents key)) ≤ weight emitted ks
  weight-emitted emitted key [] h new = absurd (ground (arith, h))
  weight-emitted emitted key (k ∷ ks) h new = elim (Bool-cases (key == k)) [
    | inl same ↦
        let equal : key ≡ k = (==_iff key k).0 same in
        let size : length (or_empty (get dependents key)) ≡ length (or_empty (get dependents k)) =
          rw equal refl in
        let unseen : contains emitted k ≡ false = rw equal at new in
        ground (
          arith,
          weight-shrinks emitted key ks,
          contains-append emitted (key ∷ []) k,
          ==_iff k key,
          equal,
        )
    | inr other ↦ ground (
      arith,
      h,
      weight-emitted emitted key ks,
      contains-append emitted (key ∷ []) k,
      new,
      ==_iff k key,
      ==_iff key k,
    )
  ]

  pub weight-rounds : (ks : List Text) → length ks + weight [] ks ≡ rounds dependents ks
  weight-rounds [] = omega arith
  weight-rounds (k ∷ ks) = omega (arith, weight-rounds ks)
