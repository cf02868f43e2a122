-- ===== src/ValidateGraph/Order.antt =====
-- cli/api/commands/validate_graph.ts: `targetKey`, `topoOrder` and `dependencyBlocked`. A node is
-- its key and its dependencies; the runtime's `sort` puts keys in ascending order of their code
-- units, and its `localeCompare` is a parameter.
use sqlanvil.Base.{
  ℕ, zero, suc, ◌+◌, ◌-◌, ltb, Text, text_eq, nat_eq, Bool, true, false, not, ◌&&◌, ◌||◌,
  if◌then◌else◌, ◌==◌, List, [], ◌∷◌, ◌++◌, Option, none, some, contains, add_all, get, put, any,
  length, filter_by, map,
}
use sqlanvil.Targets.{Target, text_or_empty}
use sqlanvil.Paths.{join_by, is_empty}

-- `targetKey`
unfoldable pub target_key : Target → Text
target_key t = join_by (b'.' ∷ []) (
    filter_by (λ s. not (is_empty s))
      (text_or_empty t.database ∷ text_or_empty t.schema ∷ t.name ∷ []))

pub data ValidationStatus : Type 0 where
  pass failure blocked skipped : ValidationStatus

abbrev pub blocks : Option ValidationStatus → Bool
blocks none = false
blocks (some pass) = false
blocks (some _) = true

-- `dependencyBlocked`
unfoldable pub dependency_blocked : List Text → List (Text × ValidationStatus) → Bool
dependency_blocked dependency_keys status_by_key =
    any (λ dep. blocks (get status_by_key dep)) dependency_keys

pub record OrderedNode : Type 0 where
  pub key : Text
  pub dependency_keys : List Text

abbrev pub key_of : OrderedNode → Text
key_of n = n.key

-- `byKey.get`: of the nodes with one key the `Map` keeps the last.
abbrev pub node_named : List OrderedNode → Text → Option OrderedNode
node_named [] key = none
node_named (n ∷ nodes) key = elim (node_named nodes key) [
  | some last ↦ some last
  | none ↦ if key == n.key then some n else none
]

-- The order of the code units, by which `sort` goes.
abbrev pub before : Text → Text → Bool
before [] _ = true
before (_ ∷ _) [] = false
before (x ∷ xs) (y ∷ ys) = ltb x y || (x == y && before xs ys)

abbrev pub insert_by {ℓ} : {A : Type ℓ} → (A → A → Bool) → A → List A → List A
insert_by precedes x [] = x ∷ []
insert_by precedes x (y ∷ ys) = if precedes x y then x ∷ y ∷ ys else y ∷ insert_by precedes x ys

abbrev pub sort_by {ℓ} : {A : Type ℓ} → (A → A → Bool) → List A → List A
sort_by precedes [] = []
sort_by precedes (x ∷ xs) = insert_by precedes x (sort_by precedes xs)

-- `inGraphDeps`: the dependencies of a node that are other nodes, each once.
unfoldable pub in_graph_deps : List Text → OrderedNode → List Text
in_graph_deps keys n =
    add_all [] (filter_by (λ d. contains keys d && not (d == n.key)) n.dependency_keys)

abbrev pub or_zero : Option ℕ → ℕ
or_zero none = 0
or_zero (some n) = n

abbrev pub or_empty : Option (List Text) → List Text
or_empty none = []
or_empty (some ks) = ks

abbrev pub Indegrees : Type 0
Indegrees = List (Text × ℕ)

abbrev pub Dependents : Type 0
Dependents = List (Text × List Text)

-- The first loop: `indegree` and `dependents`.
abbrev pub add_dependent : Text → List Text → Dependents → Dependents
add_dependent key [] dependents = dependents
add_dependent key (dep ∷ deps) dependents =
    add_dependent key deps (put dependents dep (or_empty (get dependents dep) ++ key ∷ []))

abbrev pub indegrees : List Text → List OrderedNode → Indegrees → Indegrees
indegrees keys [] indegree = indegree
indegrees keys (n ∷ nodes) indegree =
    indegrees keys nodes (put indegree n.key (length (in_graph_deps keys n)))

abbrev pub all_dependents : List Text → List OrderedNode → Dependents → Dependents
all_dependents keys [] dependents = dependents
all_dependents keys (n ∷ nodes) dependents =
    all_dependents keys nodes (add_dependent n.key (in_graph_deps keys n) dependents)

-- The loop over the dependents of an emitted key. A count never grows and is only compared with 0,
-- so one that the source lets go below 0 stays at 0 here.
abbrev pub release_all : List Text → List Text → List Text → Indegrees → List Text × Indegrees
release_all emitted [] ready indegree = (ready, indegree)
release_all emitted (dep ∷ deps) ready indegree =
    let left = or_zero (get indegree dep) - 1 in
    let after = put indegree dep left in
    if left == 0 && not (contains emitted dep)
    then release_all emitted deps (sort_by before (ready ++ dep ∷ [])) after
    else release_all emitted deps ready after

-- The `while` loop: the keys in the order in which they are emitted, or `none` without fuel.
unfoldable pub emit : Dependents → ℕ → List Text → List Text → Indegrees → Option (List Text)
emit dependents fuel [] emitted indegree = some emitted
emit dependents zero (key ∷ ready) emitted indegree = none
emit dependents (suc fuel) (key ∷ ready) emitted indegree =
    let emitted_now = emitted ++ key ∷ [] in
    let next =
      release_all emitted_now (sort_by before (or_empty (get dependents key))) ready indegree in
    let skipped = emit dependents fuel ready emitted indegree in
    let rest = emit dependents fuel next.0 emitted_now next.1 in
    if contains emitted key then skipped else rest

-- What is left on a cycle, one node for a key.
abbrev pub append_left : List OrderedNode → List OrderedNode → List Text → List OrderedNode
append_left [] ordered emitted = ordered
append_left (n ∷ nodes) ordered emitted =
    if contains emitted n.key
    then append_left nodes ordered emitted
    else append_left nodes (ordered ++ n ∷ []) (emitted ++ n.key ∷ [])

abbrev pub nodes_of : List OrderedNode → List Text → List OrderedNode
nodes_of nodes [] = []
nodes_of nodes (key ∷ keys) = elim (node_named nodes key) [
  | some n ↦ n ∷ nodes_of nodes keys
  | none ↦ nodes_of nodes keys
]

abbrev pub is_ready : Indegrees → OrderedNode → Bool
is_ready indegree n = or_zero (get indegree n.key) == 0

-- A key enters the queue at first, or as a dependent of a key that is emitted, so this many rounds
-- are enough.
abbrev pub rounds : Dependents → List Text → ℕ
rounds dependents [] = 0
rounds dependents (key ∷ keys) =
    suc (length (or_empty (get dependents key))) + rounds dependents keys

module _ (locale_precedes : Text → Text → Bool) where
  abbrev pub with_cycles : List OrderedNode → List Text → List OrderedNode
  with_cycles nodes emitted =
      let ordered = nodes_of nodes emitted in
      if ltb (length ordered) (length nodes)
      then append_left (sort_by (λ a b. locale_precedes a.key b.key) nodes) ordered emitted
      else ordered

  -- `topoOrder`
  unfoldable pub topo_order : List OrderedNode → Option (List OrderedNode)
  topo_order nodes =
      let keys = map key_of nodes in
      let indegree = indegrees keys nodes [] in
      let dependents = all_dependents keys nodes [] in
      let ready = sort_by before (map key_of (filter_by (is_ready indegree) nodes)) in
      elim (emit dependents (rounds dependents keys) ready [] indegree) [
        | some emitted ↦ some (with_cycles nodes emitted)
        | none ↦ none
      ]
