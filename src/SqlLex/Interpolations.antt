-- ===== src/SqlLex/Interpolations.antt =====
-- cli/api/commands/sql_lex.ts: `interpolationSpans`, the spans of JavaScript in a text, those inside
-- strings and quoted names included.
use sqlanvil.Base.{
  ℕ, zero, suc, ◌+◌, ◌-◌, ◌≤◌, ltb, Text, nat_eq, ◌&&◌, if◌then◌else◌, ◌==◌, List, [], ◌∷◌, ◌++◌,
  drop, All, arith, Bool-cases, inl, inr,
}
use sqlanvil.SqlLex.Scan.{template_span, starts_with}
use sqlanvil.SqlLex.Tokens.{Token, TokenKind, template, string, quoted_ident, tokenize}
use sqlanvil.SqlLex.Scopes.{Range}

abbrev pub smaller : ℕ → ℕ → ℕ
smaller a b = if ltb b a then b else a

-- The loop over a token, at index `i` with `n` characters of the token left. The characters of a
-- span behind its first are passed over by `skip`.
unfoldable pub spans_in : ℕ → ℕ → ℕ → Text → List Range
spans_in i zero skip cs = []
spans_in i (suc n) skip [] = []
spans_in i (suc n) (suc skip) (c ∷ cs) = spans_in (i + 1) n skip cs
spans_in i (suc n) zero (c ∷ cs) =
    let size = smaller (template_span 0 (c ∷ cs)) (suc n) in
    let behind = spans_in (i + 1) n (size - 1) cs in
    let passed = spans_in (i + 1) n 0 cs in
    if c == b'$' && starts_with cs b'{' then (i, i + size) ∷ behind else passed

abbrev pub spans_of : Text → TokenKind → Token → List Range
spans_of sql template t = (t.start, t.end) ∷ []
spans_of sql string t = spans_in t.start (t.end - t.start) 0 (drop t.start sql)
spans_of sql quoted_ident t = spans_in t.start (t.end - t.start) 0 (drop t.start sql)
spans_of sql _ t = []

abbrev pub spans_of_all : Text → List Token → List Range
spans_of_all sql [] = []
spans_of_all sql (t ∷ ts) = spans_of sql t.kind t ++ spans_of_all sql ts

-- `interpolationSpans`
unfoldable pub interpolation_spans : Text → List Range
unfolding spans_in
interpolation_spans sql = spans_of_all sql (tokenize sql)

-- A span that lies between two indices.
abbrev pub IsWithin : ℕ → ℕ → Range → Type 0
IsWithin from stop span = (from ≤ span.0) × (span.1 ≤ stop)

spans_in-IsWithin :
    (from stop i n skip : ℕ) (cs : Text)
    → from ≤ i
    → i + n ≤ stop
    → All (IsWithin from stop) (spans_in i n skip cs)
unfolding spans_in
spans_in-IsWithin from stop i zero skip cs h end = tt
spans_in-IsWithin from stop i (suc n) skip [] h end = tt
spans_in-IsWithin from stop i (suc n) (suc skip) (c ∷ cs) h end =
    spans_in-IsWithin from stop (i + 1) n skip cs (omega (arith, h)) (omega (arith, end))
spans_in-IsWithin from stop i (suc n) zero (c ∷ cs) h end =
    let size = smaller (template_span 0 (c ∷ cs)) (suc n) in
    let rest = λ (skip : ℕ).
      spans_in-IsWithin from stop (i + 1) n skip cs (omega (arith, h)) (omega (arith, end)) in
    elim (Bool-cases (c == b'$' && starts_with cs b'{')) [
      | inl opens ↦ rw opens ((h, ground (arith, end)), rest (size - 1))
      | inr other ↦ rw other (rest 0)
    ]
