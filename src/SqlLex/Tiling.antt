-- ===== src/SqlLex/Tiling.antt =====
-- cli/api/commands/sql_lex.ts: the tokens tile the text.
use sqlanvil.Base.{
  ℕ, zero, suc, ◌+◌, ◌-◌, ◌≤◌, Text, List, ◌∷◌, [], ◌++◌, length, take, ◌≡◌, refl, ap, ◌∙◌, arith,
  subst,
}
use sqlanvil.SqlLex.Tokens.{Token, lexeme, tokenize_from, tokenize}
use sqlanvil.SqlLex.Bounds.{lexeme-Fits}

abbrev pub texts : List Token → Text
texts [] = []
texts (t ∷ ts) = t.text ++ texts ts

pred_suc : (n : ℕ) → n ≡ suc n - 1
pred_suc n = omega arith

take-suc-pred : (n c : ℕ) (cs : Text) → 1 ≤ n → take n (c ∷ cs) ≡ c ∷ take (n - 1) cs
take-suc-pred zero c cs h = ground (arith, h)
take-suc-pred (suc n) c cs h = ap (λ k. c ∷ take k cs) (pred_suc n)

-- The texts of the tokens from an index on, behind the characters that are passed over, give the
-- text from there on.
texts-tokenize_from :
    (cs : Text) (i skip : ℕ)
    → skip ≤ length cs
    → take skip cs ++ texts (tokenize_from i skip cs) ≡ cs
unfolding tokenize_from
texts-tokenize_from [] i zero h = refl
texts-tokenize_from [] i (suc skip) h = refl
texts-tokenize_from (c ∷ cs) i (suc skip) h =
    ap (λ ts. c ∷ ts) (texts-tokenize_from cs (i + 1) skip (omega arith))
texts-tokenize_from (c ∷ cs) i zero h =
    let fits = lexeme-Fits c cs in
    ap (λ ts. ts ++ texts (tokenize_from (i + 1) ((lexeme c cs).size - 1) cs))
      (take-suc-pred (lexeme c cs).size c cs (omega (arith, fits)))
    ∙ ap (λ ts. c ∷ ts)
        (texts-tokenize_from cs (i + 1) ((lexeme c cs).size - 1) (omega (arith, fits)))

-- The token starts at `i`, is not empty, and its text is as long as its span; the next token starts
-- at its end; the last one ends at `n`.
abbrev pub IsTiling : ℕ → ℕ → List Token → Type 0
IsTiling i n [] = i ≡ n
IsTiling i n (t ∷ ts) =
    (t.start ≡ i) × (i + 1 ≤ t.end) × (t.start + length t.text ≡ t.end) × IsTiling t.end n ts

IsTiling-moved : {i j n m : ℕ} (ts : List Token) → i ≡ j → n ≡ m → IsTiling i n ts → IsTiling j m ts
IsTiling-moved {i} {j} {n} {m} ts e f h =
    subst (λ k. IsTiling k m ts) e (subst (λ k. IsTiling i k ts) f h)

length-take : (n : ℕ) (cs : Text) → n ≤ length cs → length (take n cs) ≡ n
length-take zero cs h = refl
length-take (suc n) [] h = omega arith
length-take (suc n) (c ∷ cs) h = ap suc (length-take n cs (omega arith))

tokenize_from-IsTiling :
    (cs : Text) (i skip : ℕ)
    → skip ≤ length cs
    → IsTiling (i + skip) (i + length cs) (tokenize_from i skip cs)
unfolding tokenize_from
tokenize_from-IsTiling [] i zero h = omega arith
tokenize_from-IsTiling [] i (suc skip) h = omega arith
tokenize_from-IsTiling (c ∷ cs) i (suc skip) h =
    IsTiling-moved (tokenize_from (i + 1) skip cs) (omega arith) (omega arith)
      (tokenize_from-IsTiling cs (i + 1) skip (omega arith))
tokenize_from-IsTiling (c ∷ cs) i zero h =
    let size = (lexeme c cs).size in
    let fits = lexeme-Fits c cs in
    (
      omega arith,
      omega (arith, fits),
      omega (arith, length-take size (c ∷ cs) (omega (arith, fits))),
      IsTiling-moved (tokenize_from (i + 1) (size - 1) cs) (omega (arith, fits)) (omega arith)
          (tokenize_from-IsTiling cs (i + 1) (size - 1) (omega (arith, fits))),
    )

-- Tokenizing loses nothing: the texts of the tokens, in order, give the text back.
pub texts-tokenize : (sql : Text) → texts (tokenize sql) ≡ sql
unfolding tokenize
texts-tokenize sql = texts-tokenize_from sql 0 0 (omega arith)

-- Every token is non-empty and its text has the length of its span, each token starts where the one
-- before it ends, the first starts at 0 and the last ends at the length of the text.
pub tokenize-IsTiling : (sql : Text) → IsTiling 0 (length sql) (tokenize sql)
unfolding tokenize
tokenize-IsTiling sql =
    IsTiling-moved (tokenize_from 0 0 sql) (omega arith) (omega arith)
      (tokenize_from-IsTiling sql 0 0 (omega arith))
