-- ===== src/Prune/Reaching.antt =====
-- cli/api/commands/prune.ts: a walk that ends has included exactly the names that can be reached.
use sqlanvil.Base.{
  Text, text_eq, true, ◌||◌, ==_refl, List, [], ◌∷◌, contains, length, IsSubset, ◌≡◌, refl, ◌↔◌,
  arith, Bool-cases, inl, inr,
}
use sqlanvil.Prune.Patterns.{Matching, matched}
use sqlanvil.Prune.Selection.{reached, push_new, walk_from, reversed, action_names, CompileAction}
use sqlanvil.Prune.Walks.{
  Reaches, root, behind, Done, included-push_new, queue-push_new, walk_ind, walk-Done,
}

pub contains-reversed :
    (xs ys : List Text) (n : Text) → contains (reversed xs ys) n ≡ (contains xs n || contains ys n)
contains-reversed [] ys n = refl
contains-reversed (x ∷ xs) ys n = ground (arith, contains-reversed xs (x ∷ ys) n)

module _ (step : Text → Matching (List Text)) (roots : List Text) where
  -- The names in the queue and the included ones can be reached.
  abbrev Sound : List Text → List Text → Type 0
  Sound queue included =
      (n : Text) → (contains queue n || contains included n) ≡ true → Reaches step roots n

  Sound-push_new :
      (name : Text) (queue included names : List Text)
      → step name ≡ matched names
      → Sound (name ∷ queue) included
      → Sound (push_new names queue included).0 (push_new names queue included).1
  Sound-push_new name queue included names e sound n h =
      let now = included-push_new n names queue included in
      let left = queue-push_new n names queue included in
      elim (Bool-cases (contains names n)) [
        | inl found ↦ behind names (sound name (ground (arith, ==_refl name))) e found
        | inr other ↦ sound n (ground (arith, now, left, h))
      ]

  -- The roots stay included.
  abbrev Rooted : List Text → List Text → Type 0
  Rooted queue included = IsSubset roots included

  Rooted-push_new :
      (name : Text) (queue included names : List Text)
      → step name ≡ matched names
      → Rooted (name ∷ queue) included
      → Rooted (push_new names queue included).0 (push_new names queue included).1
  Rooted-push_new name queue included names e rooted n h =
      rw (included-push_new n names queue included) (ground (arith, rooted n h))

  matched-injective : {xs ys : List Text} → matched xs ≡ matched ys → xs ≡ ys
  matched-injective e = cc e

  Reaches-included :
      (included : List Text)
      → IsSubset roots included
      → ((n : Text) → contains included n ≡ true → Done step included n)
      → {n : Text} → Reaches step roots n
      → contains included n ≡ true
  Reaches-included included rooted closed (root h) = rooted _ h
  Reaches-included included rooted closed (behind {n} {m} names r e h) =
      let (found, e1, inside) = closed n (Reaches-included included rooted closed r) in
      let same : names ≡ found = matched-injective (cc (e, e1)) in inside m (rw (← same) h)

  -- A walk that ends has included exactly the names that its step reaches from the names it
  -- starts with.
  pub walk_from-Reaches :
      (actions : List CompileAction) (names : List Text) (n : Text)
      → walk_from actions step roots ≡ reached names
      → (contains names n ≡ true) ↔ Reaches step roots n
  unfolding walk_from
  walk_from-Reaches actions names n e =
      let fuel = length (action_names actions) in
      let start = reversed roots [] in
      let in_queue = λ (m : Text). contains-reversed roots [] m in
      (
        λ here.
            walk_ind step Sound Sound-push_new fuel start roots names e
              (λ m h. root (ground (arith, in_queue m, h))) n (ground arith),
        λ r.
            Reaches-included names
              (walk_ind step Rooted Rooted-push_new fuel start roots names e (λ m h. h))
              (walk-Done step fuel start roots names e
                (λ m h unqueued. absurd (ground (arith, in_queue m, h, unqueued))))
              r,
      )
