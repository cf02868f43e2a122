-- ===== src/SqlLex/Splitting.antt =====
-- cli/api/commands/sql_lex.ts: `splitOnCommas` splits at the commas outside brackets, and only there.
use sqlanvil.Base.{
  ℕ, suc, ◌+◌, ◌-◌, ◌≤◌, ◌<◌, ltb, text_eq, nat_eq, Bool, true, false, ◌&&◌, ◌==◌, ==_iff,
  if◌then◌else◌, List, [], ◌∷◌, Option, none, some, length, take, drop, ◌≡◌, refl, ap, sym, ◌∙◌,
  arith, Bool-cases, inl, inr, ◌⊎◌,
}
use sqlanvil.SqlLex.Tokens.{Token}
use sqlanvil.SqlLex.Scopes.{
  token_at, Range, is_opening, is_closing, split_from_index, split_on_commas,
}

-- How many brackets a list of tokens opens and closes.
abbrev pub openings : List Token → ℕ
openings [] = 0
openings (t ∷ ts) = let more = openings ts in if is_opening t.text then suc more else more

abbrev pub closings : List Token → ℕ
closings [] = 0
closings (t ∷ ts) = let more = closings ts in if is_closing t.text then suc more else more

abbrev pub is_comma : Option Token → Bool
is_comma none = false
is_comma (some t) = t.text == b',' ∷ []

-- Behind `opened` and `closed` brackets, the token at `k` is a comma where as many are closed as opened.
abbrev pub is_cut : ℕ → ℕ → List Token → ℕ → Bool
is_cut opened closed ts k =
    is_comma (token_at ts k) && opened + openings (take k ts) == closed + closings (take k ts)

-- Ranges from `from` to `stop`, each up to the next cut, which stands between two of them, and the last,
-- which is not empty, up to `stop`.
abbrev pub IsCover : (ℕ → Bool) → ℕ → ℕ → List Range → Type 0
IsCover cut from stop [] = (from ≡ stop)
IsCover cut from stop ((a, b) ∷ rs) =
    (a ≡ from)
    × (a ≤ b)
    × ((j : ℕ) → a ≤ j → j < b → cut j ≡ false)
    × (((a < b) × (b ≡ stop) × (rs ≡ [])) ⊎ ((cut b ≡ true) × IsCover cut (b + 1) stop rs))

-- The index of a token behind the first.
behind : (i k : ℕ) → i + 1 + k ≡ i + suc k
behind i k = omega arith

is_cut-opening :
    (o c : ℕ) (t : Token) (ts : List Token) (k : ℕ)
    → is_opening t.text ≡ true
    → is_cut o c (t ∷ ts) (suc k) ≡ is_cut (o + 1) c ts k
is_cut-opening o c t ts k h =
    let other : is_closing t.text ≡ false =
      ground (arith, h, ==_iff t.text (b'(' ∷ []), ==_iff t.text (b'[' ∷ [])) in
    let same : o + suc (openings (take k ts)) ≡ o + 1 + openings (take k ts) = omega arith in
    rw (h, other, same) refl

is_cut-closing :
    (o c : ℕ) (t : Token) (ts : List Token) (k : ℕ)
    → is_opening t.text ≡ false
    → is_closing t.text ≡ true
    → is_cut o c (t ∷ ts) (suc k) ≡ is_cut o (c + 1) ts k
is_cut-closing o c t ts k other h =
    let same : c + suc (closings (take k ts)) ≡ c + 1 + closings (take k ts) = omega arith in
    rw (other, h, same) refl

is_cut-plain :
    (o c : ℕ) (t : Token) (ts : List Token) (k : ℕ)
    → is_opening t.text ≡ false
    → is_closing t.text ≡ false
    → is_cut o c (t ∷ ts) (suc k) ≡ is_cut o c ts k
is_cut-plain o c t ts k not_opening not_closing = rw (not_opening, not_closing) refl

first_cut :
    (o c : ℕ) (t : Token) (ts : List Token)
    → is_cut o c (t ∷ ts) 0 ≡ (t.text == b',' ∷ [] && o == c)
first_cut o c t ts =
    let left : o + 0 ≡ o = omega arith in
    let right : c + 0 ≡ c = omega arith in rw (left, right) refl

bracket_no_cut :
    (o c : ℕ) (t : Token) (ts : List Token)
    → (is_opening t.text ≡ true) ⊎ (is_closing t.text ≡ true)
    → is_cut o c (t ∷ ts) 0 ≡ false
bracket_no_cut o c t ts h =
    let no_comma : (t.text == b',' ∷ []) ≡ false = ground (
      arith,
      h,
      ==_iff t.text (b',' ∷ []),
      ==_iff t.text (b'(' ∷ []),
      ==_iff t.text (b'[' ∷ []),
      ==_iff t.text (b')' ∷ []),
      ==_iff t.text (b']' ∷ []),
    ) in
    rw no_comma refl

module _ (cut : ℕ → Bool) where
  cut-next :
      (from i : ℕ)
      → ((j : ℕ) → from ≤ j → j < i → cut j ≡ false)
      → cut i ≡ false
      → (j : ℕ) → from ≤ j
      → j < i + 1
      → cut j ≡ false
  cut-next from i before here j h1 h2 = elim (Bool-cases (j == i)) [
    | inl same ↦ ap cut ((==_iff j i).0 same) ∙ here
    | inr other ↦ before j h1 (ground (arith, h1, h2, other, ==_iff j i))
  ]

  split_from_index-IsCover :
      (o c from i : ℕ) (ts : List Token)
      → from ≤ i
      → ((j : ℕ) → from ≤ j → j < i → cut j ≡ false)
      → ((k : ℕ) → cut (i + k) ≡ is_cut o c ts k)
      → IsCover cut from (i + length ts) (split_from_index o c from i ts)
  unfolding split_from_index
  split_from_index-IsCover o c from i [] h before cuts =
      let stop : i + 0 ≡ i = omega arith in
      elim (Bool-cases (ltb from i)) [
        | inl more ↦ rw (more, stop) (refl, h, before, inl (ground (arith, more), refl, refl))
        | inr none_left ↦ rw (none_left, stop) (ground (arith, none_left, h))
      ]
  split_from_index-IsCover o c from i (t ∷ ts) h before cuts =
      let stop : i + suc (length ts) ≡ i + 1 + length ts = omega arith in
      let start : i + 0 ≡ i = omega arith in
      let here : cut i ≡ is_cut o c (t ∷ ts) 0 = ap cut (sym start) ∙ cuts 0 in
      let next : (k : ℕ) → cut (i + 1 + k) ≡ is_cut o c (t ∷ ts) (suc k) =
        λ k. ap cut (behind i k) ∙ cuts (suc k) in
      let skip : (p q : ℕ)
          → is_cut o c (t ∷ ts) 0 ≡ false
          → ((k : ℕ) → is_cut o c (t ∷ ts) (suc k) ≡ is_cut p q ts k)
          → IsCover cut from (i + 1 + length ts) (split_from_index p q from (i + 1) ts) =
        λ p q no_cut same.
          split_from_index-IsCover p q from (i + 1) ts (omega (arith, h))
            (cut-next from i before (here ∙ no_cut)) (λ k. next k ∙ same k) in
      elim (Bool-cases (is_opening t.text)) [
        | inl opens ↦
            rw (opens, stop)
              (skip (o + 1) c (bracket_no_cut o c t ts (inl opens))
                (λ k. is_cut-opening o c t ts k opens))
        | inr not_opening ↦ elim (Bool-cases (is_closing t.text)) [
          | inl closes ↦
              rw (not_opening, closes, stop)
                (skip o (c + 1) (bracket_no_cut o c t ts (inr closes))
                  (λ k. is_cut-closing o c t ts k not_opening closes))
          | inr not_closing ↦ elim (Bool-cases (t.text == b',' ∷ [] && o == c)) [
            | inl comma ↦
                rw (not_opening, not_closing, comma, stop)
                  (
                    refl,
                    h,
                    before,
                    inr (
                      here ∙ first_cut o c t ts ∙ comma,
                      split_from_index-IsCover o c (i + 1) (i + 1) ts (omega arith)
                          (λ j h1 h2. absurd (omega (arith, h1, h2)))
                          (λ k. next k ∙ is_cut-plain o c t ts k not_opening not_closing),
                    ),
                  )
            | inr other ↦
                rw (not_opening, not_closing, other, stop)
                  (skip o c (first_cut o c t ts ∙ other)
                    (λ k. is_cut-plain o c t ts k not_opening not_closing))
          ]
        ]
      ]

-- The ranges of `splitOnCommas` follow each other from the start to the end of the tokens that are split.
-- A range ends at a comma before which as many brackets are closed as opened, or is the last, which is
-- not empty; and no range has such a comma in it.
pub split_on_commas-IsCover :
    (toks : List Token) (start end : ℕ)
    → let split = take (end - start) (drop start toks) in
      IsCover
        (λ j. is_cut 0 0 split (j - start))
        start
        (start + length split)
        (split_on_commas toks start end)
unfolding split_on_commas
split_on_commas-IsCover toks start end =
    let split = take (end - start) (drop start toks) in
    split_from_index-IsCover (λ j. is_cut 0 0 split (j - start)) 0 0 start start split (omega arith)
      (λ j h1 h2. absurd (omega (arith, h1, h2)))
      (λ k. let same : start + k - start ≡ k = omega arith in ap (is_cut 0 0 split) same)
