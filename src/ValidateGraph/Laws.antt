-- ===== src/ValidateGraph/Laws.antt =====
-- cli/api/commands/validate_graph.ts: `topoOrder` keeps every node once, and puts the dependencies
-- first where there is no cycle.
use sqlanvil.Base.{
  every, Option-cases, ℕ, zero, suc, ◌≤◌, ◌<◌, ltb, Text, text_eq, nat_eq, Bool, true, false, ◌||◌,
  ◌==◌, ==_iff, ==_refl, List, [], ◌∷◌, ◌++◌, some, contains, contains-append, length, length-map,
  map, IsDistinct, IsSubset, ◌≡◌, refl, arith, Bool-cases, inl, inr, ap, ◌∙◌, sym,
}
use sqlanvil.Prune.Ending.{length-IsSubset, IsDistinct-snoc}
use sqlanvil.ValidateGraph.Order.{
  sort_by, insert_by, OrderedNode, key_of, node_named, in_graph_deps, nodes_of, append_left,
  topo_order,
}
use sqlanvil.ValidateGraph.Waiting.{left, Follows}
use sqlanvil.ValidateGraph.Counting.{deps_in}
use sqlanvil.ValidateGraph.Topological.{
  keys_of, deps_of, emit-result, map-nodes_of, deps_of-IsSubset,
}

-- Distinct keys that are not fewer than all of them are all of them.
IsSubset-length :
    (xs ys : List Text) → IsDistinct xs → IsSubset xs ys → length ys ≤ length xs → IsSubset ys xs
IsSubset-length xs ys distinct inside long k h = elim (Bool-cases (contains xs k)) [
  | inl here ↦ here
  | inr missing ↦ absurd (
      omega (
        arith,
        long,
        length-IsSubset (k ∷ xs) ys (missing, distinct)
            (λ a b. ground (arith, h, b, inside a, ==_iff a k)),
      ))
]

left-inside : (emitted ds : List Text) → IsSubset ds emitted → left emitted ds ≡ 0
left-inside emitted [] inside = refl
left-inside emitted (d ∷ ds) inside =
    let here : contains emitted d ≡ true = inside d (ground (arith, ==_refl d)) in
    ground (arith, here, left-inside emitted ds (λ a h. inside a (ground (arith, h))))

map-append :
    (ns : List OrderedNode) (n : OrderedNode)
    → map key_of (ns ++ n ∷ []) ≡ map key_of ns ++ n.key ∷ []
map-append [] n = refl
map-append (m ∷ ns) n = ap (λ r. m.key ∷ r) (map-append ns n)

contains-insert_node :
    (precedes : OrderedNode → OrderedNode → Bool) (n : OrderedNode) (ns : List OrderedNode)
    (k : Text)
    → contains (map key_of (insert_by precedes n ns)) k ≡ (k == n.key || contains (map key_of ns) k)
contains-insert_node precedes n [] k = refl
contains-insert_node precedes n (m ∷ ns) k = ground (arith, contains-insert_node precedes n ns k)

contains-sort_nodes :
    (precedes : OrderedNode → OrderedNode → Bool) (ns : List OrderedNode) (k : Text)
    → contains (map key_of (sort_by precedes ns)) k ≡ contains (map key_of ns) k
contains-sort_nodes precedes [] k = refl
contains-sort_nodes precedes (n ∷ ns) k = ground (
  arith,
  contains-insert_node precedes n (sort_by precedes ns) k,
  contains-sort_nodes precedes ns k,
)

-- What is left on a cycle is appended once for a key.
append_left-keys :
    (ns ordered : List OrderedNode) (emitted : List Text)
    → map key_of ordered ≡ emitted
    → IsDistinct emitted
    → IsDistinct (map key_of (append_left ns ordered emitted))
      × ((k : Text)
          → contains (map key_of (append_left ns ordered emitted)) k
            ≡ (contains emitted k || contains (map key_of ns) k))
append_left-keys [] ordered emitted same distinct = (rw same distinct, λ k. rw same (ground arith))
append_left-keys (n ∷ ns) ordered emitted same distinct =
    elim (Bool-cases (contains emitted n.key)) [
      | inl old ↦
          let (once, all) = append_left-keys ns ordered emitted same distinct in
          rw old (
            once,
            λ k. elim (Bool-cases (k == n.key)) [
              | inl same_key ↦
                  let equal : k ≡ n.key = (==_iff k n.key).0 same_key in
                  let seen : contains emitted k ≡ true = rw equal old in ground (arith, all k, seen)
              | inr other ↦ ground (arith, all k, other)
            ],
          )
      | inr new ↦
          let now : map key_of (ordered ++ n ∷ []) ≡ emitted ++ n.key ∷ [] =
            map-append ordered n ∙ ap (λ ks. ks ++ n.key ∷ []) same in
          let (once, all) =
            append_left-keys ns (ordered ++ n ∷ []) (emitted ++ n.key ∷ []) now
              (IsDistinct-snoc emitted n.key distinct new) in
          rw new (once, λ k. ground (arith, all k, contains-append emitted (n.key ∷ []) k))
    ]

-- Every node has a higher rank than the other nodes that it depends on.
abbrev pub IsRanked : (Text → ℕ) → List Text → List OrderedNode → Type 0
IsRanked rank keys [] = Unit
IsRanked rank keys (n ∷ ns) =
    (every (λ d. ltb (rank d) (rank n.key)) (in_graph_deps keys n) ≡ true) × IsRanked rank keys ns

every-lt :
    (rank : Text → ℕ) (bound : ℕ) (ds : List Text) (d : Text)
    → every (λ x. ltb (rank x) bound) ds ≡ true
    → contains ds d ≡ true
    → rank d < bound
every-lt rank bound [] d h inside = absurd (ground (arith, inside))
every-lt rank bound (x ∷ ds) d h inside = elim (Bool-cases (d == x)) [
  | inl same ↦
      let equal : d ≡ x = (==_iff d x).0 same in
      let less : rank x < bound = ground (arith, h) in rw equal less
  | inr other ↦ every-lt rank bound ds d (ground (arith, h)) (ground (arith, inside, other))
]

deps_in-rank :
    (rank : Text → ℕ) (keys : List Text) (ns : List OrderedNode)
    → IsRanked rank keys ns
    → (k d : Text) → contains (deps_in keys ns k) d ≡ true
    → rank d < rank k
deps_in-rank rank keys [] ranked k d h = absurd (ground (arith, h))
deps_in-rank rank keys (n ∷ ns) ranked k d h = elim (Option-cases (node_named ns k)) [
  | inr (last, found) ↦
      let below : contains (deps_in keys ns k) d ≡ true = rw found (rw found at h) in
      deps_in-rank rank keys ns ranked.1 k d below
  | inl nothing ↦ elim (Bool-cases (k == n.key)) [
    | inl same ↦
        let here : contains (in_graph_deps keys n) d ≡ true = rw (nothing, same) at h in
        let equal : k ≡ n.key = (==_iff k n.key).0 same in
        rw equal (every-lt rank (rank n.key) (in_graph_deps keys n) d ranked.0 here)
    | inr other ↦ let never : contains [] d ≡ true = rw (nothing, other) at h in absurd (cc never)
  ]
]

deps_of-rank :
    (rank : Text → ℕ) (nodes : List OrderedNode)
    → IsRanked rank (keys_of nodes) nodes
    → (k d : Text) → contains (deps_of nodes k) d ≡ true
    → rank d < rank k
deps_of-rank rank nodes ranked = deps_in-rank rank (keys_of nodes) nodes ranked

module _ (locale_precedes : Text → Text → Bool) (nodes : List OrderedNode)
    (distinct : IsDistinct (keys_of nodes)) where
  -- Without a cycle every node follows those that it depends on.
  IsSubset-emitted :
      (rank : Text → ℕ)
      → ((k d : Text) → contains (deps_of nodes k) d ≡ true → rank d < rank k)
      → (emitted : List Text)
      → ((k : Text)
          → contains (keys_of nodes) k ≡ true
          → left emitted (deps_of nodes k) ≡ 0
          → contains emitted k ≡ true)
      → (bound : ℕ) (k : Text) → rank k < bound
      → contains (keys_of nodes) k ≡ true
      → contains emitted k ≡ true
  IsSubset-emitted rank smaller emitted done zero k h inside = absurd (omega (arith, h))
  IsSubset-emitted rank smaller emitted done (suc bound) k h inside = done k inside (
      left-inside emitted (deps_of nodes k) (λ d dep.
        IsSubset-emitted rank smaller emitted done bound d (omega (arith, h, smaller k d dep))
          (deps_of-IsSubset nodes k d dep)))

  -- Where the nodes have ranks, each above those of the nodes that it depends on, so that there is
  -- no cycle, and no two have one key, `topoOrder` gives the nodes, each once and behind all of its
  -- dependencies among them.
  pub topo_order-Follows :
      (rank : Text → ℕ)
      → IsRanked rank (keys_of nodes) nodes
      → (ordered : List OrderedNode) × (topo_order locale_precedes nodes ≡ some ordered)
        × Follows (deps_of nodes) [] (map key_of ordered)
        × IsDistinct (map key_of ordered)
        × ((k : Text) → contains (map key_of ordered) k ≡ contains (keys_of nodes) k)
  unfolding topo_order
  topo_order-Follows rank ranked =
      let (emitted, run, done, (follows, once, inside)) = emit-result nodes distinct in
      let smaller = deps_of-rank rank nodes ranked in
      let all : IsSubset (keys_of nodes) emitted =
        λ k h. IsSubset-emitted rank smaller emitted done (suc (rank k)) k (omega arith) h in
      let ordered = nodes_of nodes emitted in
      let keys : map key_of ordered ≡ emitted = map-nodes_of nodes emitted inside in
      let size : length ordered ≡ length emitted =
        sym (length-map key_of ordered) ∙ ap length keys in
      let full : ltb (length ordered) (length nodes) ≡ false = ground (
        arith,
        size,
        length-IsSubset (keys_of nodes) emitted distinct all,
        length-map key_of nodes,
      ) in
      (
        ordered,
        rw (run, full, topo_order) refl,
        rw keys follows,
        rw keys once,
        λ k. rw keys (ground (arith, inside k, all k)),
      )

  -- Where no two nodes have one key, `topoOrder` gives every node once, also those on a cycle.
  pub topo_order_complete :
      (ordered : List OrderedNode) × (topo_order locale_precedes nodes ≡ some ordered)
      × IsDistinct (map key_of ordered)
      × ((k : Text) → contains (map key_of ordered) k ≡ contains (keys_of nodes) k)
  unfolding topo_order
  topo_order_complete =
      let (emitted, run, done, (follows, once, inside)) = emit-result nodes distinct in
      let ordered = nodes_of nodes emitted in
      let keys : map key_of ordered ≡ emitted = map-nodes_of nodes emitted inside in
      elim (Bool-cases (ltb (length ordered) (length nodes))) [
        | inl cycles ↦
            let sorted = sort_by (λ a b. locale_precedes a.key b.key) nodes in
            let (distinct_now, all) = append_left-keys sorted ordered emitted keys once in
            (
              append_left sorted ordered emitted,
              rw (run, cycles, topo_order) refl,
              distinct_now,
              λ k. ground (
                arith,
                all k,
                inside k,
                contains-sort_nodes (λ a b. locale_precedes a.key b.key) nodes k,
              ),
            )
        | inr full ↦
            let size : length ordered ≡ length emitted =
              sym (length-map key_of ordered) ∙ ap length keys in
            let long : length (keys_of nodes) ≤ length emitted =
              ground (arith, full, size, length-map key_of nodes) in
            let all = IsSubset-length emitted (keys_of nodes) once inside long in
            (
              ordered,
              rw (run, full, topo_order) refl,
              rw keys once,
              λ k. rw keys (ground (arith, inside k, all k)),
            )
      ]
