-- ===== src/SqlLex/Ranges.antt =====
-- cli/api/commands/sql_lex.ts: the end of `relationsIn`.
use sqlanvil.Base.{
  ℕ, zero, suc, ◌+◌, ◌-◌, ◌≤◌, ◌<◌, ltb, Text, text_eq, nat_eq, Bool, true, false, List, [], ◌∷◌,
  Option, none, some, length, take, drop, ◌≡◌, ◌≢◌, refl, arith, Bool-cases, inl, inr, ◌⊎◌,
}
use sqlanvil.SqlLex.Tokens.{Token}
use sqlanvil.SqlLex.Scopes.{token_at, match_bracket}
use sqlanvil.SqlLex.Relations.{
  relations_from, relations_in, relation_at, Found, found, nothing, unclosed, read_alias,
  read_parts, read_subquery, starts_relation, opens_subquery, name_parts, Relation,
}
use sqlanvil.SqlLex.Brackets.{match_bracket-IsMatch}

Found-cases : (f : Found) → ((r : Relation × ℕ) × (f ≡ found r)) ⊎ ((f ≡ nothing) ⊎ (f ≡ unclosed))
Found-cases (found r) = inl (r, refl)
Found-cases nothing = inr (inl refl)
Found-cases unclosed = inr (inr refl)

module _ (lower : Text → Text) (toks : List Token) where
  read_alias-forward :
      (parts : List Token) (subquery : Bool) (j : ℕ)
      → j ≤ (read_alias lower toks parts subquery j).1
  unfolding read_alias
  read_alias-forward parts subquery j = ground arith

  found-forward :
      (parts : List Token) (subquery : Bool) (i j : ℕ) (r : Relation × ℕ)
      → i < j
      → found (read_alias lower toks parts subquery j) ≡ found r
      → i < r.1
  found-forward parts subquery i j r h e =
      let same : read_alias lower toks parts subquery j ≡ r = cc e in
      rw (← same) (omega (arith, h, read_alias-forward parts subquery j))

  read_subquery-forward :
      (i : ℕ) (close : Option ℕ) (r : Relation × ℕ)
      → ((c : ℕ) → close ≡ some c → i < c)
      → read_subquery lower toks i close ≡ found r
      → i < r.1
  read_subquery-forward i none r h e = absurd (cc e)
  read_subquery-forward i (some close) r h e =
      found-forward (take (close + 1 - i) (drop i toks)) true i (close + 1) r
        (omega (arith, h close refl)) e

  read_parts-forward :
      (i : ℕ) (parts : List Token) (r : Relation × ℕ)
      → read_parts lower toks parts (i + length parts) ≡ found r
      → i < r.1
  read_parts-forward i [] r e = absurd (cc e)
  read_parts-forward i (p ∷ parts) r e =
      found-forward (p ∷ parts) false i (i + suc (length parts)) r (omega arith) e

  relation_at-forward :
      (end i : ℕ) (r : Relation × ℕ) → relation_at lower toks end i ≡ found r → i < r.1
  unfolding relation_at
  relation_at-forward end i r e = elim (Bool-cases (opens_subquery (token_at toks i))) [
    | inl opens ↦
        read_subquery-forward i (match_bracket toks i) r
          (λ c found_at.
            let (t, close, here, closes, n, at, inside, level, above) =
              match_bracket-IsMatch toks i c found_at in
            omega (arith, at))
          (rw (opens, relation_at) at e)
    | inr other ↦
        read_parts-forward i (name_parts lower (take (end - i) (drop i toks))) r
          (rw (other, relation_at) at e)
  ]

  abbrev with_first : Relation → Option (List Relation) → Option (List Relation)
  with_first r (some rels) = some (r ∷ rels)
  with_first r none = none

  with_first-some :
      (r : Relation) (rels : Option (List Relation)) → rels ≢ none → with_first r rels ≢ none
  with_first-some r none h e = h refl
  with_first-some r (some rels) h e = cc e

  relations_from-ends :
      (start end fuel i : ℕ) → end ≤ fuel + i → relations_from lower toks start end fuel i ≢ none
  unfolding relations_from
  relations_from-ends start end zero i h e =
      let done : ltb i end ≡ false = ground (arith, h) in cc (rw (done, relations_from) at e)
  relations_from-ends start end (suc fuel) i h e =
      let skipped = relations_from-ends start end fuel (i + 1) (omega (arith, h)) in
      elim (Bool-cases (ltb i end)) [
        | inr done ↦ cc (rw (done, relations_from) at e)
        | inl more ↦ elim (Bool-cases (starts_relation lower toks start i)) [
          | inr other ↦ skipped (rw (more, other, relations_from) at e)
          | inl starts ↦ elim (Found-cases (relation_at lower toks end i)) [
            | inl (r, at) ↦
                with_first-some r.0 (relations_from lower toks start end fuel r.1)
                  (relations_from-ends start end fuel r.1
                    (omega (arith, h, relation_at-forward end i r at)))
                  (rw (more, starts, at, relations_from) at e)
            | inr (inl at) ↦ skipped (rw (more, starts, at, relations_from) at e)
            | inr (inr at) ↦ cc (rw (more, starts, at, relations_from) at e)
          ]
        ]
      ]

  -- `relationsIn` ends with a list of relations for every list of tokens and every range.
  pub relations_in-ends : (start end : ℕ) → relations_in lower toks start end ≢ none
  unfolding relations_in
  relations_in-ends start end = relations_from-ends start end (end - start) start (ground arith)
