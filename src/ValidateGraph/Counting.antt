-- ===== src/ValidateGraph/Counting.antt =====
-- cli/api/commands/validate_graph.ts: the counts and lists that the first loop of `topoOrder` makes,
-- where no two nodes have one key.
use sqlanvil.Base.{
  ◌+◌, Text, text_eq, nat_eq, true, false, not, ◌&&◌, if◌then◌else◌, ◌==◌, ==_iff, List, [], ◌∷◌,
  ◌++◌, Option, none, some, contains, contains-filter_by, count, count-append, length, filter_by,
  map, get, put, get-put, IsDistinct, IsSubset, ◌≡◌, refl, arith, Bool-cases, Option-cases, inl,
  inr, ◌∙◌, sym,
}
use sqlanvil.Prune.Included.{contains-add_all, IsDistinct-add_all}
use sqlanvil.ValidateGraph.Order.{
  OrderedNode, key_of, node_named, in_graph_deps, or_zero, or_empty, Indegrees, Dependents,
  add_dependent, indegrees, all_dependents, is_ready,
}

pub in_graph_deps-IsDistinct :
    (keys : List Text) (n : OrderedNode) → IsDistinct (in_graph_deps keys n)
unfolding in_graph_deps
in_graph_deps-IsDistinct keys n =
    IsDistinct-add_all [] (filter_by (λ d. contains keys d && not (d == n.key)) n.dependency_keys)
      tt

pub in_graph_deps-IsSubset :
    (keys : List Text) (n : OrderedNode) → IsSubset (in_graph_deps keys n) keys
unfolding in_graph_deps
in_graph_deps-IsSubset keys n d h =
    let inside = λ (k : Text). contains keys k && not (k == n.key) in
    ground (
      arith,
      h,
      contains-add_all [] (filter_by inside n.dependency_keys) d,
      contains-filter_by inside n.dependency_keys d,
    )

pub node_named-none :
    (ns : List OrderedNode) (k : Text) → contains (map key_of ns) k ≡ false → node_named ns k ≡ none
node_named-none [] k h = refl
node_named-none (n ∷ ns) k h =
    let rest = node_named-none ns k (ground (arith, h)) in
    let other : k == n.key ≡ false = ground (arith, h) in rw (rest, other) refl

pub node_named-key :
    (ns : List OrderedNode) (k : Text) (n : OrderedNode) → node_named ns k ≡ some n → n.key ≡ k
node_named-key [] k n e = absurd (cc e)
node_named-key (m ∷ ns) k n e = elim (Option-cases (node_named ns k)) [
  | inr (last, found) ↦ node_named-key ns k n (found ∙ (rw found at e))
  | inl nothing ↦ elim (Bool-cases (k == m.key)) [
    | inl same ↦
        let last : some m ≡ some n = rw (nothing, same) at e in
        let equal : m ≡ n = cc last in rw (← equal) (sym ((==_iff k m.key).0 same))
    | inr other ↦ let missing : none ≡ some n = rw (nothing, other) at e in absurd (cc missing)
  ]
]

pub node_named-some :
    (ns : List OrderedNode) (k : Text)
    → contains (map key_of ns) k ≡ true
    → (n : OrderedNode) × (node_named ns k ≡ some n)
node_named-some [] k h = absurd (ground (arith, h))
node_named-some (m ∷ ns) k h = elim (Option-cases (node_named ns k)) [
  | inr (last, found) ↦ (last, rw found refl)
  | inl nothing ↦ elim (Bool-cases (k == m.key)) [
    | inl same ↦ (m, rw (nothing, same) refl)
    | inr other ↦
        let (n, found) = node_named-some ns k (ground (arith, h, other)) in
        absurd (cc (nothing, found))
  ]
]

module _ (keys : List Text) where
  abbrev pub deps_found : Option OrderedNode → List Text
  deps_found none = []
  deps_found (some n) = in_graph_deps keys n

  abbrev pub deps_in : List OrderedNode → Text → List Text
  deps_in ns k = deps_found (node_named ns k)

  pub deps_found-IsDistinct : (found : Option OrderedNode) → IsDistinct (deps_found found)
  deps_found-IsDistinct none = tt
  deps_found-IsDistinct (some n) = in_graph_deps-IsDistinct keys n

  pub deps_found-IsSubset : (found : Option OrderedNode) → IsSubset (deps_found found) keys
  deps_found-IsSubset none d h = absurd (ground (arith, h))
  deps_found-IsSubset (some n) d h = in_graph_deps-IsSubset keys n d h

  deps_in-cons :
      (n : OrderedNode) (ns : List OrderedNode) (k : Text)
      → contains (map key_of ns) n.key ≡ false
      → deps_in (n ∷ ns) k ≡ (if k == n.key then in_graph_deps keys n else deps_in ns k)
  deps_in-cons n ns k new = elim (Bool-cases (k == n.key)) [
    | inl same ↦
        let equal : k ≡ n.key = (==_iff k n.key).0 same in
        let nothing : node_named ns k ≡ none = node_named-none ns k (rw equal new) in
        rw (nothing, same) refl
    | inr other ↦ elim (Option-cases (node_named ns k)) [
      | inl nothing ↦ rw (nothing, other) refl
      | inr (last, found) ↦ rw (found, other) refl
    ]
  ]

  count-add_dependent :
      (key : Text) (deps : List Text) (dependents : Dependents) (d k : Text)
      → IsDistinct deps
      → count k (or_empty (get (add_dependent key deps dependents) d))
        ≡ count k (or_empty (get dependents d)) + (if k == key && contains deps d then 1 else 0)
  count-add_dependent key [] dependents d k distinct = ground arith
  count-add_dependent key (dep ∷ deps) dependents d k distinct =
      let listed = or_empty (get dependents dep) ++ key ∷ [] in
      let after = put dependents dep listed in
      let changed : or_empty (get after d)
          ≡ (if dep == d then listed else or_empty (get dependents d)) =
        ground (arith, get-put dependents dep d listed) in
      let counted : count k (or_empty (get after d)) ≡ (
          if dep == d
          then count k (or_empty (get dependents d)) + count k (key ∷ [])
          else count k (or_empty (get dependents d))) =
        elim (Bool-cases (dep == d)) [
          | inl same ↦
              let equal : dep ≡ d = (==_iff dep d).0 same in
              let old : or_empty (get dependents dep) ≡ or_empty (get dependents d) =
                rw equal refl in
              rw (changed, same, old) (count-append k (or_empty (get dependents d)) (key ∷ []))
          | inr other ↦ rw (changed, other) refl
        ] in
      elim (Bool-cases (d == dep)) [
        | inl same ↦
            let equal : d ≡ dep = (==_iff d dep).0 same in
            let once : contains deps d ≡ false = rw equal distinct.0 in
            ground (
              arith,
              count-add_dependent key deps after d k distinct.1,
              counted,
              once,
              ==_iff dep d,
            )
        | inr other ↦ ground (
          arith,
          count-add_dependent key deps after d k distinct.1,
          counted,
          ==_iff d dep,
          ==_iff dep d,
        )
      ]

  pub count-all_dependents :
      (ns : List OrderedNode) (dependents : Dependents) (d k : Text)
      → IsDistinct (map key_of ns)
      → count k (or_empty (get (all_dependents keys ns dependents) d))
        ≡ count k (or_empty (get dependents d)) + (if contains (deps_in ns k) d then 1 else 0)
  count-all_dependents [] dependents d k distinct = omega arith
  count-all_dependents (n ∷ ns) dependents d k distinct =
      let deps = in_graph_deps keys n in
      let rest = count-all_dependents ns (add_dependent n.key deps dependents) d k distinct.1 in
      let added = count-add_dependent n.key deps dependents d k (in_graph_deps-IsDistinct keys n) in
      let found = deps_in-cons n ns k distinct.0 in
      elim (Bool-cases (k == n.key)) [
        | inl same ↦
            let equal : k ≡ n.key = (==_iff k n.key).0 same in
            let nothing : node_named ns k ≡ none = node_named-none ns k (rw equal distinct.0) in
            let here : deps_in (n ∷ ns) k ≡ deps = found ∙ rw same refl in
            let empty : deps_in ns k ≡ [] = rw nothing refl in
            rw here (ground (arith, rw empty at rest, added, same))
        | inr other ↦
            let there : deps_in (n ∷ ns) k ≡ deps_in ns k = found ∙ rw other refl in
            rw there (ground (arith, rest, added, other))
      ]

  pub or_zero-indegrees :
      (ns : List OrderedNode) (indegree : Indegrees) (k : Text)
      → IsDistinct (map key_of ns)
      → or_zero (get (indegrees keys ns indegree) k)
        ≡ (if contains (map key_of ns) k then length (deps_in ns k) else or_zero (get indegree k))
  or_zero-indegrees [] indegree k distinct = refl
  or_zero-indegrees (n ∷ ns) indegree k distinct =
      let size = length (in_graph_deps keys n) in
      let rest = or_zero-indegrees ns (put indegree n.key size) k distinct.1 in
      let found = deps_in-cons n ns k distinct.0 in
      elim (Bool-cases (k == n.key)) [
        | inl same ↦
            let equal : k ≡ n.key = (==_iff k n.key).0 same in
            let once : contains (map key_of ns) k ≡ false = rw equal distinct.0 in
            let here : deps_in (n ∷ ns) k ≡ in_graph_deps keys n = found ∙ rw same refl in
            rw (here, same)
              (ground (arith, rest, once, get-put indegree n.key k size, ==_iff n.key k, equal))
        | inr other ↦
            let there : deps_in (n ∷ ns) k ≡ deps_in ns k = found ∙ rw other refl in
            rw (there, other)
              (ground (arith, rest, get-put indegree n.key k size, ==_iff n.key k, ==_iff k n.key))
      ]

pub contains-is_ready :
    (indegree : Indegrees) (ns : List OrderedNode) (k : Text)
    → contains (map key_of (filter_by (is_ready indegree) ns)) k
      ≡ (contains (map key_of ns) k && or_zero (get indegree k) == 0)
contains-is_ready indegree [] k = ground arith
contains-is_ready indegree (n ∷ ns) k = elim (Bool-cases (k == n.key)) [
  | inl same ↦
      let equal : k ≡ n.key = (==_iff k n.key).0 same in
      let degree : or_zero (get indegree k) ≡ or_zero (get indegree n.key) = rw equal refl in
      ground (arith, contains-is_ready indegree ns k, same, degree)
  | inr other ↦ ground (arith, contains-is_ready indegree ns k, other)
]
