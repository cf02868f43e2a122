-- ===== src/SqlLex/Tokens.antt =====
-- cli/api/commands/sql_lex.ts, `tokenize`: the order of the tests, and the loop.
use sqlanvil.Base.{
  ℕ, zero, suc, ◌+◌, ◌-◌, Text, Option, none, some, Bool, false, List, ◌∷◌, [], ◌&&◌, ◌||◌,
  if◌then◌else◌, ◌==◌, nat_eq, length, take, drop,
}
use sqlanvil.SqlLex.Chars.{
  is_space, is_digit, is_letter, is_number_part, is_word_part, is_not_newline,
}
use sqlanvil.SqlLex.Scan.{
  starts_with, span, template_span, block_span, dollar_tag, index_of, string_span, backtick_span,
}

pub data TokenKind : Type 0 where
  word number string quoted_ident backtick_ident template comment punct whitespace : TokenKind

pub record Token : Type 0 where
  pub kind : TokenKind
  pub start : ℕ
  pub end : ℕ
  pub text : Text
  pub value : Option Text

-- A token as it is pushed: its kind, its length and its value.
pub record Lexeme : Type 0 where
  pub kind : TokenKind
  pub size : ℕ
  pub value : Option Text

abbrev pub plain : TokenKind → ℕ → Lexeme
plain k n = record { kind = k; size = n; value = none }

abbrev pub ends_with : ℕ → Text → Bool
ends_with q [] = false
ends_with q (c ∷ []) = c == q
ends_with q (_ ∷ c ∷ cs) = ends_with q (c ∷ cs)

-- `s.slice(from, to)`
abbrev pub slice : ℕ → ℕ → Text → Text
slice from to s = take (to - from) (drop from s)

abbrev pub one_if : Bool → ℕ
one_if b = if b then 1 else 0

-- A quoted form: `prefix` characters come before its opening quote.
abbrev pub quoted : ℕ → ℕ → Text → Lexeme
quoted prefix q cs =
    let size = prefix + suc (string_span q 0 (drop (suc prefix) cs)) in
    let raw = take size cs in
    record {
      kind = if q == 34 then quoted_ident else string;
      size = size;
      value = some (slice (suc prefix) (length raw - one_if (ends_with q raw)) raw);
    }

abbrev pub backticked : Text → Lexeme
backticked cs =
    let size = suc (backtick_span (drop 1 cs)) in
    record { kind = backtick_ident; size = size; value = some (slice 1 (size - 1) cs) }

-- From a dollar tag on. `close` is where the tag stands again, behind its first occurrence.
abbrev pub dollar_quoted : ℕ → Text → Lexeme
dollar_quoted tag cs = elim (index_of (take tag cs) (drop tag cs)) [
  | none ↦ record { kind = string; size = length cs; value = some (drop tag cs) }
  | some close ↦ record {
    kind = string;
    size = tag + close + tag;
    value = some (take close (drop tag cs));
  }
]

-- The forms that start with neither a space, a `$` nor a comment.
unfoldable pub quoted_or_plain : ℕ → Text → Lexeme
quoted_or_plain c cs =
    let raw_prefix = (c == b'r' || c == b'R') && (starts_with cs 39 || starts_with cs 34) in
    if raw_prefix
    then quoted 1 (if starts_with cs 39 then 39 else 34) (c ∷ cs)
    else if c == 39 || c == 34
    then quoted 0 c (c ∷ cs)
    else if c == 96
    then backticked (c ∷ cs)
    else if is_digit c
    then plain number (span is_number_part (c ∷ cs))
    else if is_letter c
    then plain word (span is_word_part (c ∷ cs))
    else plain punct 1

abbrev pub dollar_or_rest : ℕ → Text → Lexeme
dollar_or_rest c cs = elim (dollar_tag (c ∷ cs)) [
  | some tag ↦ dollar_quoted tag (c ∷ cs)
  | none ↦
      if c == b'-' && starts_with cs b'-' || c == b'#'
      then plain comment (span is_not_newline (c ∷ cs))
      else if c == b'/' && starts_with cs b'*'
      then plain comment (2 + block_span (drop 1 cs))
      else quoted_or_plain c cs
]

-- The body of the loop: the token that starts with `c`.
unfoldable pub lexeme : ℕ → Text → Lexeme
lexeme c cs =
    if is_space c
    then plain whitespace (span is_space (c ∷ cs))
    else if c == b'$' && starts_with cs 123
    then plain template (template_span 0 (c ∷ cs))
    else dollar_or_rest c cs

abbrev pub token_of : ℕ → Text → Lexeme → Token
token_of i cs l = record {
  kind = l.kind;
  start = i;
  end = i + l.size;
  text = take l.size cs;
  value = l.value;
}

-- The loop at index `i`. The characters of a token behind its first are passed over by `skip`.
unfoldable pub tokenize_from : ℕ → ℕ → Text → List Token
unfolding lexeme
tokenize_from i skip [] = []
tokenize_from i (suc skip) (c ∷ cs) = tokenize_from (i + 1) skip cs
tokenize_from i zero (c ∷ cs) =
    token_of i (c ∷ cs) (lexeme c cs) ∷ tokenize_from (i + 1) ((lexeme c cs).size - 1) cs

-- `tokenize`
unfoldable pub tokenize : Text → List Token
unfolding tokenize_from
tokenize sql = tokenize_from 0 0 sql
