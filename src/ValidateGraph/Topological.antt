-- ===== src/ValidateGraph/Topological.antt =====
-- cli/api/commands/validate_graph.ts: the order that `topoOrder` gives.
use sqlanvil.Base.{
  suc, ◌+◌, ◌≤◌, Text, text_eq, nat_eq, true, ◌&&◌, if◌then◌else◌, ◌==◌, ==_refl, List, [], ◌∷◌,
  none, some, contains, count, length, length-filter_by, length-map, filter_by, map, get,
  IsDistinct, IsSubset, ◌≡◌, refl, arith, Bool-cases, Option-cases, inl, inr, ap, ◌∙◌, sym,
}
use sqlanvil.ValidateGraph.Order.{
  before, sort_by, OrderedNode, key_of, node_named, or_zero, or_empty, Indegrees, Dependents,
  indegrees, all_dependents, is_ready, emit, rounds, nodes_of,
}
use sqlanvil.ValidateGraph.Counting.{
  deps_in, deps_found-IsDistinct, deps_found-IsSubset, node_named-none, node_named-key,
  node_named-some, count-all_dependents, or_zero-indegrees, contains-is_ready,
}
use sqlanvil.ValidateGraph.Releasing.{contains-sort_by, length-sort_by}
use sqlanvil.ValidateGraph.Waiting.{left, weight, weight-rounds, Follows}
use sqlanvil.ValidateGraph.Emission.{IsSound, emit-IsDone, emit-ends}

left-nil : (ds : List Text) → left [] ds ≡ length ds
left-nil [] = refl
left-nil (d ∷ ds) = ap suc (left-nil ds)

pub map-nodes_of :
    (nodes : List OrderedNode) (ks : List Text)
    → IsSubset ks (map key_of nodes)
    → map key_of (nodes_of nodes ks) ≡ ks
map-nodes_of nodes [] inside = refl
map-nodes_of nodes (k ∷ ks) inside =
    let (n, found) = node_named-some nodes k (inside k (ground (arith, ==_refl k))) in
    let rest = map-nodes_of nodes ks (λ a h. inside a (ground (arith, h))) in
    let named : nodes_of nodes (k ∷ ks) ≡ n ∷ nodes_of nodes ks = rw (found, nodes_of) refl in
    rw (named, rest, node_named-key nodes k n found) refl

module _ (nodes : List OrderedNode) where
  abbrev pub keys_of : List Text
  keys_of = map key_of nodes

  -- The dependencies of the node with a key that are other nodes.
  abbrev pub deps_of : Text → List Text
  deps_of k = deps_in keys_of nodes k

  abbrev pub dependents_of : Dependents
  dependents_of = all_dependents keys_of nodes []

  abbrev pub indegree_of : Indegrees
  indegree_of = indegrees keys_of nodes []

  abbrev pub ready_of : List Text
  ready_of = sort_by before (map key_of (filter_by (is_ready indegree_of) nodes))

  deps_of-IsDistinct : (k : Text) → IsDistinct (deps_of k)
  deps_of-IsDistinct k = deps_found-IsDistinct keys_of (node_named nodes k)

  pub deps_of-IsSubset : (k : Text) → IsSubset (deps_of k) keys_of
  deps_of-IsSubset k = deps_found-IsSubset keys_of (node_named nodes k)

  deps_of-inside : (k d : Text) → contains (deps_of k) d ≡ true → contains keys_of k ≡ true
  deps_of-inside k d h = elim (Bool-cases (contains keys_of k)) [
    | inl inside ↦ inside
    | inr outside ↦
        let nothing : node_named nodes k ≡ none = node_named-none nodes k outside in
        let empty : deps_of k ≡ [] = rw nothing refl in
        let never : contains [] d ≡ true = rw empty at h in absurd (cc never)
  ]

  module _ (distinct : IsDistinct keys_of) where
    listed :
        (d k : Text)
        → count k (or_empty (get dependents_of d)) ≡ (if contains (deps_of k) d then 1 else 0)
    listed d k = omega (arith, count-all_dependents keys_of nodes [] d k distinct)

    degree-start : (k : Text) → or_zero (get indegree_of k) ≡ left [] (deps_of k)
    degree-start k =
        let counted = or_zero-indegrees keys_of nodes [] k distinct in
        elim (Bool-cases (contains keys_of k)) [
          | inl inside ↦ (rw inside at counted) ∙ sym (left-nil (deps_of k))
          | inr outside ↦
              let nothing : node_named nodes k ≡ none = node_named-none nodes k outside in
              let empty : deps_of k ≡ [] = rw nothing refl in rw empty (rw outside at counted)
        ]

    ready-start :
        (k : Text) → contains ready_of k ≡ (contains keys_of k && or_zero (get indegree_of k) == 0)
    ready-start k =
        contains-sort_by before k (map key_of (filter_by (is_ready indegree_of) nodes))
        ∙ contains-is_ready indegree_of nodes k

    IsSound-start :
        IsSound keys_of deps_of dependents_of deps_of-IsDistinct deps_of-inside listed ready_of []
          indegree_of
    IsSound-start = (
      degree-start,
      λ k h. (ground (arith, h, ready-start k), ground (arith, h, ready-start k, degree-start k)),
      λ k h none_left. ground (arith, h, none_left, ready-start k, degree-start k),
      (tt, tt, λ k h. absurd (ground (arith, h))),
    )

    start-fuel : length ready_of + weight dependents_of [] keys_of ≤ rounds dependents_of keys_of
    start-fuel = omega (
      arith,
      weight-rounds dependents_of keys_of,
      length-sort_by before (map key_of (filter_by (is_ready indegree_of) nodes)),
      length-map key_of (filter_by (is_ready indegree_of) nodes),
      length-map key_of nodes,
      length-filter_by (is_ready indegree_of) nodes,
    )

    pub emit-result :
        (result : List Text) × (emit dependents_of
            (rounds dependents_of keys_of)
            ready_of
            []
            indegree_of
          ≡ some result)
        × ((k : Text)
            → contains keys_of k ≡ true
            → left result (deps_of k) ≡ 0
            → contains result k ≡ true)
        × (Follows deps_of [] result × IsDistinct result × IsSubset result keys_of)
    emit-result =
        let run = emit dependents_of (rounds dependents_of keys_of) ready_of [] indegree_of in
        elim (Option-cases run) [
          | inl nothing ↦ absurd (
              emit-ends keys_of deps_of dependents_of deps_of-IsDistinct deps_of-inside listed
                (rounds dependents_of keys_of) ready_of [] indegree_of start-fuel IsSound-start
                nothing)
          | inr (result, found) ↦
              let (done, emission) =
                emit-IsDone keys_of deps_of dependents_of deps_of-IsDistinct deps_of-inside listed
                  (rounds dependents_of keys_of) ready_of [] result indegree_of found
                  IsSound-start in
              (result, found, done, emission)
        ]
