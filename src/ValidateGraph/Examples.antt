-- ===== src/ValidateGraph/Examples.antt =====
-- Runs of the model of cli/api/commands/validate_graph.ts on small graphs.
use sqlanvil.Base.{
  ℕ, Text, text_eq, List, ◌∷◌, [], ◌≡◌, refl, some, contains, map, IsDistinct, if◌then◌else◌, ◌==◌,
}
use sqlanvil.ValidateGraph.Order.{OrderedNode, key_of, topo_order, in_graph_deps, before, emit}
use sqlanvil.ValidateGraph.Waiting.{Follows}
use sqlanvil.ValidateGraph.Topological.{keys_of, deps_of}
use sqlanvil.ValidateGraph.Laws.{topo_order-Follows, topo_order_complete}
use sqlanvil.ValidateGraph.Shadows.{parse_shadow_timestamp, validate_shadow_suffix}

abbrev a_key : Text
a_key = b'a' ∷ []

abbrev b_key : Text
b_key = b'b' ∷ []

abbrev node : Text → List Text → OrderedNode
node key deps = record { key = key; dependency_keys = deps }

-- `a` reads `b` twice and something outside.
abbrev nodes : List OrderedNode
nodes = node a_key (b_key ∷ (b'x' ∷ []) ∷ b_key ∷ []) ∷ node b_key [] ∷ []

abbrev rank : Text → ℕ
rank k = if k == a_key then 1 else 0

b_first :
    topo_order before nodes
    ≡ some (node b_key [] ∷ node a_key (b_key ∷ (b'x' ∷ []) ∷ b_key ∷ []) ∷ [])
unfolding topo_order emit in_graph_deps
b_first = refl

topo_order-Follows_example :
    (ordered : List OrderedNode) × (topo_order before nodes ≡ some ordered)
    × Follows (deps_of nodes) [] (map key_of ordered)
    × IsDistinct (map key_of ordered)
    × ((k : Text) → contains (map key_of ordered) k ≡ contains (keys_of nodes) k)
unfolding in_graph_deps
topo_order-Follows_example =
    topo_order-Follows before nodes (refl, (refl, tt)) rank (refl, (refl, tt))

-- Two nodes that read each other.
abbrev cycle : List OrderedNode
cycle = node a_key (b_key ∷ []) ∷ node b_key (a_key ∷ []) ∷ []

both_kept : topo_order before cycle ≡ some cycle
unfolding topo_order emit in_graph_deps
both_kept = refl

topo_order_complete_example :
    (ordered : List OrderedNode) × (topo_order before cycle ≡ some ordered)
    × IsDistinct (map key_of ordered)
    × ((k : Text) → contains (map key_of ordered) k ≡ contains (keys_of cycle) k)
topo_order_complete_example = topo_order_complete before cycle (refl, (refl, tt))

own_timestamp : parse_shadow_timestamp (b's' ∷ b'_' ∷ validate_shadow_suffix 170) ≡ some 170
unfolding parse_shadow_timestamp validate_shadow_suffix
own_timestamp = refl
