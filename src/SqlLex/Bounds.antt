-- ===== src/SqlLex/Bounds.antt =====
-- cli/api/commands/sql_lex.ts: every token takes at least one character, and none beyond the end.
use sqlanvil.Base.{
  ℕ, zero, suc, ◌+◌, ◌-◌, ◌≤◌, Text, none, some, Bool, true, ◌∷◌, [], ◌&&◌, ◌||◌, if◌then◌else◌,
  ◌==◌, nat_eq, length, take, drop, ◌≡◌, arith, Bool-cases, inl, inr, Option-cases,
}
use sqlanvil.SqlLex.Chars.{
  is_space, is_digit, is_letter, is_number_part, is_word_part, is_not_newline,
}
use sqlanvil.SqlLex.Scan.{
  starts_with, span, template_span, block_span, dollar_tag, index_of, is_prefix, tag_name,
  closes_tag, string_span, backtick_span,
}
use sqlanvil.SqlLex.Tokens.{
  Lexeme, quoted, backticked, dollar_quoted, quoted_or_plain, dollar_or_rest, lexeme,
}

span-le : (p : ℕ → Bool) (cs : Text) → span p cs ≤ length cs
unfolding span
span-le p [] = omega arith
span-le p (c ∷ cs) = ground (arith, span-le p cs)

template_span-le : (d : ℕ) (cs : Text) → template_span d cs ≤ length cs
unfolding template_span
template_span-le d [] = omega arith
template_span-le d (c ∷ cs) =
    ground (arith, template_span-le (d + 1) cs, template_span-le (d - 1) cs, template_span-le d cs)

template_span-pos : (d c : ℕ) (cs : Text) → 1 ≤ template_span d (c ∷ cs)
unfolding template_span
template_span-pos d c cs = ground arith

block_span-le : (cs : Text) → block_span cs ≤ length cs
unfolding block_span
block_span-le [] = omega arith
block_span-le (c ∷ []) = ground arith
block_span-le (c ∷ d ∷ cs) = ground (arith, block_span-le (d ∷ cs))

string_span-le : (q k : ℕ) (cs : Text) → string_span q k cs ≤ length cs
unfolding string_span
string_span-le q k [] = omega arith
string_span-le q (suc k) (c ∷ cs) = omega (arith, string_span-le q k cs)
string_span-le q zero (c ∷ cs) = ground (
  arith,
  string_span-le q (template_span 0 (c ∷ cs) - 1) cs,
  string_span-le q 1 cs,
  string_span-le q 0 cs,
)

backtick_span-le : (cs : Text) → backtick_span cs ≤ length cs
unfolding backtick_span
backtick_span-le [] = omega arith
backtick_span-le (c ∷ cs) = ground (arith, backtick_span-le cs)

length-drop : (n : ℕ) (cs : Text) → length (drop n cs) ≡ length cs - n
length-drop zero cs = omega arith
length-drop (suc n) [] = omega arith
length-drop (suc n) (c ∷ cs) = omega (arith, length-drop n cs)

length-take-le : (n : ℕ) (cs : Text) → (length (take n cs) ≤ length cs) × (length (take n cs) ≤ n)
length-take-le zero cs = omega arith
length-take-le (suc n) [] = omega arith
length-take-le (suc n) (c ∷ cs) = omega (arith, length-take-le n cs)

length-take-eq : (n : ℕ) (cs : Text) → n ≤ length cs → length (take n cs) ≡ n
length-take-eq zero cs h = omega arith
length-take-eq (suc n) [] h = omega arith
length-take-eq (suc n) (c ∷ cs) h = omega (arith, length-take-eq n cs (omega arith))

is_prefix-le : (ts cs : Text) → is_prefix ts cs ≡ true → length ts ≤ length cs
is_prefix-le [] cs h = omega arith
is_prefix-le (t ∷ ts) [] h = cc
is_prefix-le (t ∷ ts) (c ∷ cs) h = ground (arith, is_prefix-le ts cs)

index_of-le : (tag cs : Text) (n : ℕ) → index_of tag cs ≡ some n → n + length tag ≤ length cs
unfolding index_of
index_of-le tag [] n h = ground (arith, is_prefix-le tag [])
index_of-le tag (c ∷ cs) n h = elim (Bool-cases (is_prefix tag (c ∷ cs))) [
  | inl here ↦ ground (arith, is_prefix-le tag (c ∷ cs) here)
  | inr later ↦ elim (Option-cases (index_of tag cs)) [
    | inl none_left ↦ ground arith
    | inr (m, e) ↦ ground (arith, index_of-le tag cs m e)
  ]
]

closes_tag-length : (cs : Text) → closes_tag cs ≡ true → 1 ≤ length cs
closes_tag-length [] h = cc
closes_tag-length (c ∷ cs) h = omega arith

closed-bounds : (n : ℕ) (window : Text) → closes_tag (drop n window) ≡ true → n + 1 ≤ length window
closed-bounds n window h = omega (arith, closes_tag-length (drop n window) h, length-drop n window)

tag-bounds :
    (n : ℕ) (window : Text) (first : Bool) (tag : ℕ)
    → (if first && closes_tag (drop n window) then some (n + 2) else none) ≡ some tag
    → (1 ≤ tag) × (tag ≤ length window + 1)
tag-bounds n window first tag h = elim (Bool-cases (closes_tag (drop n window))) [
  | inl closed ↦ ground (arith, closed, closed-bounds n window closed)
  | inr other ↦ ground (arith, other)
]

dollar_tag-bounds :
    (c : ℕ) (cs : Text) (tag : ℕ)
    → dollar_tag (c ∷ cs) ≡ some tag
    → (1 ≤ tag) × (tag ≤ suc (length cs))
unfolding dollar_tag
dollar_tag-bounds c cs tag h =
    let bounds = tag-bounds (tag_name (take 63 cs)) (take 63 cs) (c == b'$') tag h in
    let size = length-take-le 63 cs in omega (arith, bounds, size)

quoted-bounds :
    (p q c : ℕ) (cs : Text)
    → p ≤ length cs
    → (1 ≤ (quoted p q (c ∷ cs)).size) × ((quoted p q (c ∷ cs)).size ≤ suc (length cs))
quoted-bounds p q c cs h = omega (arith, string_span-le q 0 (drop p cs), length-drop p cs)

-- The size of a lexeme lies between 1 and the number of characters left.
abbrev Fits : ℕ → Lexeme → Type 0
Fits n l = (1 ≤ l.size) × (l.size ≤ n)

dollar_quoted-Fits :
    (tag c : ℕ) (cs : Text)
    → 1 ≤ tag
    → tag ≤ length (c ∷ cs)
    → Fits (suc (length cs)) (dollar_quoted tag (c ∷ cs))
dollar_quoted-Fits tag c cs lo hi =
    elim (Option-cases (index_of (take tag (c ∷ cs)) (drop tag (c ∷ cs)))) [
      | inl open_ended ↦ ground (arith, open_ended)
      | inr (n, e) ↦
          let fits = index_of-le (take tag (c ∷ cs)) (drop tag (c ∷ cs)) n e in
          let size = length-take-eq tag (c ∷ cs) hi in
          let left = length-drop tag (c ∷ cs) in ground (arith, e, fits, size, left)
    ]

span-pos : (p : ℕ → Bool) (c : ℕ) (cs : Text) → p c ≡ true → 1 ≤ span p (c ∷ cs)
unfolding span
span-pos p c cs h = ground arith

backticked-Fits : (c : ℕ) (cs : Text) → Fits (suc (length cs)) (backticked (c ∷ cs))
backticked-Fits c cs = omega (arith, backtick_span-le cs)

digit_part : (c : ℕ) → is_digit c ≡ true → is_number_part c ≡ true
unfolding is_number_part
digit_part c h = ground (arith, h)

letter_part : (c : ℕ) → is_letter c ≡ true → is_word_part c ≡ true
unfolding is_word_part
letter_part c h = ground (arith, h)

starts_with-length : (cs : Text) (q : ℕ) → starts_with cs q ≡ true → 1 ≤ length cs
starts_with-length [] q h = cc
starts_with-length (c ∷ cs) q h = omega arith

quoted_or_plain-Fits : (c : ℕ) (cs : Text) → Fits (suc (length cs)) (quoted_or_plain c cs)
unfolding quoted_or_plain
quoted_or_plain-Fits c cs =
    let r1 = quoted-bounds 1 39 c cs in
    let r2 = quoted-bounds 1 34 c cs in
    let r3 = quoted-bounds 0 c c cs (omega arith) in
    let b = backticked-Fits c cs in
    let n1 = span-le is_number_part (c ∷ cs) in
    let n2 = span-pos is_number_part c cs in
    let w1 = span-le is_word_part (c ∷ cs) in
    let w2 = span-pos is_word_part c cs in
    ground (arith, r1, r2, r3, b, n1, n2, w1, w2, digit_part c, letter_part c)

comment_char :
    (c : ℕ) (dash : Bool) → (c == b'-' && dash || c == b'#') ≡ true → is_not_newline c ≡ true
unfolding is_not_newline
comment_char c dash h = ground arith

dollar_or_rest-Fits : (c : ℕ) (cs : Text) → Fits (suc (length cs)) (dollar_or_rest c cs)
dollar_or_rest-Fits c cs = elim (Option-cases (dollar_tag (c ∷ cs))) [
  | inl no_tag ↦
      let n1 = span-le is_not_newline (c ∷ cs) in
      let n2 = span-pos is_not_newline c cs in
      let b1 = block_span-le (drop 1 cs) in
      let b2 = length-drop 1 cs in
      let s = starts_with-length cs b'*' in
      let q = quoted_or_plain-Fits c cs in
      ground (arith, no_tag, n1, n2, b1, b2, s, q, comment_char c (starts_with cs b'-'))
  | inr (tag, e) ↦
      let bounds = dollar_tag-bounds c cs tag e in
      let q = dollar_quoted-Fits tag c cs in ground (arith, e, bounds, q)
]

pub lexeme-Fits : (c : ℕ) (cs : Text) → Fits (suc (length cs)) (lexeme c cs)
unfolding lexeme
lexeme-Fits c cs =
    let s1 = span-le is_space (c ∷ cs) in
    let s2 = span-pos is_space c cs in
    let t1 = template_span-le 0 (c ∷ cs) in
    let t2 = template_span-pos 0 c cs in
    let r = dollar_or_rest-Fits c cs in ground (arith, s1, s2, t1, t2, r)
