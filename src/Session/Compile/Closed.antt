-- ===== src/Session/Compile/Closed.antt =====
-- core/session.ts: the dependencies of a graph that compiles without an error are in the graph.
use sqlanvil.Base.{
  text_eq, true, ◌==◌, ==_iff, List, [], ◌∷◌, map, contains, All, ◌≡◌, arith, Bool-cases, inl, inr,
}
use sqlanvil.Targets.{Target, target_eq, target_as_readable_string}
use sqlanvil.Resolvable.{ResolvableMap, resolvable_map, find}
use sqlanvil.Resolvable.Laws.{fits, scan, find-resolvable_map}
use sqlanvil.Session.Graph.{ActionProto}
use sqlanvil.Session.Depend.{
  Defaults, Qualified, find_actions, put_target, put_targets, values, qualify, qualify_all,
  fully_qualify_dependencies, wants_assertions,
}
use sqlanvil.Session.Depend.Laws.{with_targets, find_actions-fits, append-nil_iff}
use sqlanvil.Session.Compile.{qualified, qualify_errors}

-- Every target of the list is among the others.
abbrev pub IsWithin : List Target → List Target → Type 0
IsWithin all = All (λ t. contains all t ≡ true)

IsWithin-put :
    (all : List Target) (q : Qualified) (t : Target)
    → contains all t ≡ true
    → IsWithin all (values q)
    → IsWithin all (values (put_target q t))
IsWithin-put all [] t h within = (h, tt)
IsWithin-put all ((k, v) ∷ q) t h (hv, rest) =
    elim (Bool-cases (k == target_as_readable_string t)) [
      | inl same ↦ rw same (h, rest)
      | inr other ↦ rw other (hv, IsWithin-put all q t h rest)
    ]

IsWithin-put_targets :
    (all : List Target) (q : Qualified) (ts : List Target)
    → IsWithin all ts
    → IsWithin all (values q)
    → IsWithin all (values (put_targets q ts))
IsWithin-put_targets all q [] h within = within
IsWithin-put_targets all q (t ∷ ts) (h, hs) within =
    IsWithin-put_targets all (put_target q t) ts hs (IsWithin-put all q t h within)

-- A lookup finds values of the map.
IsWithin-scan :
    (all : List Target) (ref : Target) (entries : List (Target × Target))
    → All (λ e. contains all e.1 ≡ true) entries
    → IsWithin all (scan ref entries)
IsWithin-scan all ref [] h = tt
IsWithin-scan all ref ((k, v) ∷ rest) (h, hs) = elim (Bool-cases (fits ref k)) [
  | inl yes_ ↦ rw yes_ (h, IsWithin-scan all ref rest hs)
  | inr no_ ↦ rw no_ (IsWithin-scan all ref rest hs)
]

module _ (all : List Target) (cfg : Defaults) (targets : List Target)
    (entries : List (Target × Target))
    (own : (t : Target) → contains targets t ≡ true → contains all t ≡ true)
    (asserted : All (λ e. contains all e.1 ≡ true) entries) where
  abbrev indexed : ResolvableMap Target
  indexed = resolvable_map (with_targets targets)

  abbrev assertion_map : ResolvableMap Target
  assertion_map = resolvable_map entries

  IsWithin-find : (ref : Target) → IsWithin all (find assertion_map ref)
  IsWithin-find ref = rw (find-resolvable_map entries ref) (IsWithin-scan all ref entries asserted)

  -- Where a dependency has one candidate, the targets that it adds are indexed actions or assertions.
  IsWithin-qualify :
      (a : ActionProto) (d : Target) (found : List Target) (q : Qualified)
      → ((t : Target) → contains found t ≡ true → contains all t ≡ true)
      → (qualify assertion_map a d found q).1 ≡ []
      → IsWithin all (values q)
      → IsWithin all (values (qualify assertion_map a d found q).0)
  unfolding qualify
  IsWithin-qualify a d [] q h none_ within = within
  IsWithin-qualify a d (t ∷ u ∷ us) q h none_ within = within
  IsWithin-qualify a d (t ∷ []) q h none_ within =
      let added = IsWithin-put all q t (h t (ground (arith, ==_iff t t))) within in
      elim (Bool-cases (wants_assertions d)) [
        | inl wants ↦ rw wants (
            IsWithin-put_targets all (put_target q t) (find assertion_map d) (IsWithin-find d)
              added)
        | inr plain ↦ rw plain added
      ]

  IsWithin-qualify_all :
      (a : ActionProto) (ds : List Target) (q : Qualified)
      → (qualify_all cfg indexed assertion_map a ds q).1 ≡ []
      → IsWithin all (values q)
      → IsWithin all (values (qualify_all cfg indexed assertion_map a ds q).0)
  unfolding qualify_all
  IsWithin-qualify_all a [] q none_ within = within
  IsWithin-qualify_all a (d ∷ ds) q none_ within =
      let found = find_actions cfg indexed d in
      let split = append-nil_iff (qualify assertion_map a d found q).1 _ in
      let (first, rest) = split.0 none_ in
      IsWithin-qualify_all a ds (qualify assertion_map a d found q).0 rest (
        IsWithin-qualify a d found q (λ t h. own t (find_actions-fits cfg targets d t h).1) first
          within)

  IsWithin-fully_qualify :
      (a : ActionProto)
      → (fully_qualify_dependencies cfg indexed assertion_map a).1 ≡ []
      → IsWithin all (qualified cfg indexed assertion_map a).dependency_targets
  unfolding fully_qualify_dependencies
  IsWithin-fully_qualify a none_ = IsWithin-qualify_all a a.dependency_targets [] none_ tt

  pub IsWithin-qualified :
      (actions : List ActionProto)
      → qualify_errors cfg indexed assertion_map actions ≡ []
      → All
          (λ (a : ActionProto). IsWithin all a.dependency_targets)
          (map (qualified cfg indexed assertion_map) actions)
  IsWithin-qualified [] none_ = tt
  IsWithin-qualified (a ∷ rest) none_ =
      let (first, more) =
        (append-nil_iff (fully_qualify_dependencies cfg indexed assertion_map a).1 _).0 none_ in
      (IsWithin-fully_qualify a first, IsWithin-qualified rest more)
