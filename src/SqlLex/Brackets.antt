-- ===== src/SqlLex/Brackets.antt =====
-- cli/api/commands/sql_lex.ts: `matchBracket` finds the bracket that closes the given one.
use sqlanvil.Base.{
  ℕ, zero, suc, ◌+◌, ◌-◌, ◌≤◌, ◌<◌, Text, text_eq, nat_eq, true, false, if◌then◌else◌, ◌==◌, ==_iff,
  ==_refl, List, [], ◌∷◌, none, some, length, take, drop, ◌≡◌, ◌≢◌, refl, arith, Bool-cases, inl,
  inr, ◌∙◌, sym, Option-cases,
}
use sqlanvil.SqlLex.Tokens.{Token}
use sqlanvil.SqlLex.Scopes.{token_at, closing, match_from, match_bracket}

-- How many tokens of a list have a text.
abbrev pub texts : Text → List Token → ℕ
texts s [] = 0
texts s (t ∷ ts) = if t.text == s then suc (texts s ts) else texts s ts

-- With `depth` brackets open, the first `n` tokens leave one open, and one more closes it.
abbrev pub Closes : Text → Text → ℕ → ℕ → List Token → Type 0
Closes o c depth n ts =
    (n < length ts)
    × (depth + texts o (take (suc n) ts) ≡ texts c (take (suc n) ts))
    × ((m : ℕ) → m ≤ n → texts c (take m ts) < depth + texts o (take m ts))

texts-cons :
    (s : Text) (t : Token) (ts : List Token) → texts s (t ∷ ts) ≡ texts s (t ∷ []) + texts s ts
texts-cons s t ts = ground arith

above-cons :
    (o c : Text) (depth depth_after n : ℕ) (t : Token) (ts : List Token)
    → 1 ≤ depth
    → depth_after + texts c (t ∷ []) ≡ depth + texts o (t ∷ [])
    → ((m : ℕ) → m ≤ n → texts c (take m ts) < depth_after + texts o (take m ts))
    → (m : ℕ) → m ≤ suc n
    → texts c (take m (t ∷ ts)) < depth + texts o (take m (t ∷ ts))
above-cons o c depth depth_after n t ts some_open step above zero h = omega arith
above-cons o c depth depth_after n t ts some_open step above (suc m) h =
    omega (arith, above m (omega arith), texts-cons o t (take m ts), texts-cons c t (take m ts))

Closes-cons :
    (o c : Text) (depth depth_after n : ℕ) (t : Token) (ts : List Token)
    → 1 ≤ depth
    → depth_after + texts c (t ∷ []) ≡ depth + texts o (t ∷ [])
    → Closes o c depth_after n ts
    → Closes o c depth (suc n) (t ∷ ts)
Closes-cons o c depth depth_after n t ts some_open step (inside, level, above) = (
  omega (arith, inside),
  omega (arith, level, texts-cons o t (take (suc n) ts), texts-cons c t (take (suc n) ts)),
  above-cons o c depth depth_after n t ts some_open step above,
)

Closes-zero :
    (o c : Text) (t : Token) (ts : List Token)
    → t.text == o ≡ false
    → t.text == c ≡ true
    → Closes o c 1 zero (t ∷ ts)
Closes-zero o c t ts not_open closed =
    (omega arith, ground (arith, not_open, closed), λ m h. Closes-start m h)
  where
    Closes-start : (m : ℕ) → m ≤ 0 → texts c (take m (t ∷ ts)) < 1 + texts o (take m (t ∷ ts))
    Closes-start zero h = omega arith
    Closes-start (suc m) h = absurd (omega (arith, h))

abbrev Found : Text → Text → ℕ → ℕ → ℕ → List Token → Type 0
Found o c depth i j ts = (n : ℕ) × (j ≡ i + n) × Closes o c depth n ts

Found-cons :
    (o c : Text) (depth depth_after i j : ℕ) (t : Token) (ts : List Token)
    → 1 ≤ depth
    → depth_after + texts c (t ∷ []) ≡ depth + texts o (t ∷ [])
    → Found o c depth_after (i + 1) j ts
    → Found o c depth i j (t ∷ ts)
Found-cons o c depth depth_after i j t ts some_open step (n, e, closes) =
    (suc n, omega (arith, e), Closes-cons o c depth depth_after n t ts some_open step closes)

not_both : (s o c : Text) → o ≢ c → s == o ≡ true → s == c ≡ false
not_both s o c different opens = elim (Bool-cases (s == c)) [
  | inl closes ↦ absurd (different (sym ((==_iff s o).0 opens) ∙ (==_iff s c).0 closes))
  | inr other ↦ other
]

match_from-Found :
    (o c : Text) (depth i j : ℕ) (ts : List Token)
    → o ≢ c
    → 1 ≤ depth
    → match_from o c depth i ts ≡ some j
    → Found o c depth i j ts
unfolding match_from
match_from-Found o c depth i j [] different some_open e = absurd (cc e)
match_from-Found o c depth i j (t ∷ ts) different some_open e = elim (Bool-cases (t.text == o)) [
  | inl opens ↦
      let other : t.text == c ≡ false = not_both t.text o c different opens in
      Found-cons o c depth (depth + 1) i j t ts some_open (ground (arith, opens, other)) (
        match_from-Found o c (depth + 1) (i + 1) j ts different (omega arith)
          (rw (opens, match_from) at e))
  | inr not_open ↦ elim (Bool-cases (t.text == c)) [
    | inl closes ↦ elim (Bool-cases (depth == 1)) [
      | inl last ↦
          let one : depth ≡ 1 = ground (arith, last) in
          let here : some i ≡ some j = rw (not_open, closes, last, match_from) at e in
          let same : i ≡ j = cc here in
          (0, omega (arith, same), rw one (Closes-zero o c t ts not_open closes))
      | inr more ↦
          Found-cons o c depth (depth - 1) i j t ts some_open
            (ground (arith, not_open, closes, more))
            (match_from-Found o c (depth - 1) (i + 1) j ts different (ground (arith, more))
              (rw (not_open, closes, more, match_from) at e))
    ]
    | inr not_close ↦
        Found-cons o c depth depth i j t ts some_open (ground (arith, not_open, not_close)) (
          match_from-Found o c depth (i + 1) j ts different some_open
            (rw (not_open, not_close, match_from) at e))
  ]
]

unequal : (a b : Text) → a == b ≡ false → a ≢ b
unequal a b h e = cc ((==_iff a b).1 e, h)

closing-different : (s c : Text) → closing s ≡ some c → s ≢ c
closing-different s c e same = elim (Bool-cases (s == b'(' ∷ [])) [
  | inl round ↦
      let end : some (b')' ∷ []) ≡ some c = rw round at e in
      let clash : b'(' ∷ [] ≡ b')' ∷ [] =
        sym ((==_iff s (b'(' ∷ [])).0 round) ∙ same ∙ sym (cc end) in
      unequal (b'(' ∷ []) (b')' ∷ []) refl clash
  | inr other ↦ elim (Bool-cases (s == b'[' ∷ [])) [
    | inl square ↦
        let end : some (b']' ∷ []) ≡ some c = rw (other, square) at e in
        let clash : b'[' ∷ [] ≡ b']' ∷ [] =
          sym ((==_iff s (b'[' ∷ [])).0 square) ∙ same ∙ sym (cc end) in
        unequal (b'[' ∷ []) (b']' ∷ []) refl clash
    | inr neither ↦ let end : none ≡ some c = rw (other, neither) at e in cc end
  ]
]

drop-token_at :
    (toks : List Token) (i : ℕ) (t : Token)
    → token_at toks i ≡ some t
    → (rest : List Token) × (drop i toks ≡ t ∷ rest)
drop-token_at [] i t e = absurd (cc e)
drop-token_at (x ∷ toks) zero t e = let same : x ≡ t = cc e in (toks, rw same refl)
drop-token_at (x ∷ toks) (suc i) t e = drop-token_at toks i t e

-- The bracket at `i` and the one at `j` enclose tokens that are balanced between them.
abbrev pub IsMatch : List Token → ℕ → ℕ → Type 0
IsMatch toks i j =
    (t : Token) × (c : Text) × (token_at toks i ≡ some t)
    × (closing t.text ≡ some c)
    × (n : ℕ) × (j ≡ i + suc n)
    × (suc n < length (drop i toks))
    × (texts t.text (take (suc (suc n)) (drop i toks)) ≡ texts c (take (suc (suc n)) (drop i toks)))
    × ((m : ℕ)
        → m ≤ n
        → texts c (take (suc m) (drop i toks)) < texts t.text (take (suc m) (drop i toks)))

-- The opening bracket itself is the one that is open at first.
IsMatch-opening :
    (toks rest : List Token) (i j : ℕ) (t : Token) (c : Text)
    → token_at toks i ≡ some t
    → closing t.text ≡ some c
    → drop i toks ≡ t ∷ rest
    → t.text == t.text ≡ true
    → t.text == c ≡ false
    → Found t.text c 1 (i + 1) j rest
    → IsMatch toks i j
IsMatch-opening toks rest i j t c here closes e opens other (n, at, (inside, level, above)) =
    let one_more : (xs : List Token) → texts t.text (t ∷ xs) ≡ 1 + texts t.text xs =
      λ xs. ground (arith, opens) in
    let no_more : (xs : List Token) → texts c (t ∷ xs) ≡ texts c xs = λ xs. ground (arith, other) in
    (
      t,
      c,
      here,
      closes,
      n,
      omega (arith, at),
      rw e (omega (arith, inside)),
      rw (e, one_more (take (suc n) rest), no_more (take (suc n) rest)) level,
      λ m h. rw (e, one_more (take m rest), no_more (take m rest)) (above m h),
    )

match_from-IsMatch :
    (toks rest : List Token) (i j : ℕ) (t : Token) (c : Text)
    → token_at toks i ≡ some t
    → closing t.text ≡ some c
    → drop i toks ≡ t ∷ rest
    → match_from t.text c 0 i (drop i toks) ≡ some j
    → IsMatch toks i j
unfolding match_from
match_from-IsMatch toks rest i j t c here closes e found =
    let different = closing-different t.text c closes in
    let opens : t.text == t.text ≡ true = ==_refl t.text in
    IsMatch-opening toks rest i j t c here closes e opens (not_both t.text t.text c different opens)
      (match_from-Found t.text c 1 (i + 1) j rest different (omega arith)
        (rw (e, opens, match_from) at found))

-- The index that `matchBracket` gives is that of the bracket that closes the given one: from the
-- one to the other there are as many closing as opening brackets of its kind, and before it fewer.
pub match_bracket-IsMatch :
    (toks : List Token) (i j : ℕ) → match_bracket toks i ≡ some j → IsMatch toks i j
unfolding match_bracket
match_bracket-IsMatch toks i j e = elim (Option-cases (token_at toks i)) [
  | inl nothing ↦ absurd (cc (rw (nothing, match_bracket) at e))
  | inr (t, here) ↦ elim (Option-cases (closing t.text)) [
    | inl plain ↦ absurd (cc (rw (here, plain, match_bracket) at e))
    | inr (c, closes) ↦
        let (rest, after) = drop-token_at toks i t here in
        match_from-IsMatch toks rest i j t c here closes after
          (rw (here, closes, match_bracket) at e)
  ]
]
