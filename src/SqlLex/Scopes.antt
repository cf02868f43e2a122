-- ===== src/SqlLex/Scopes.antt =====
-- cli/api/commands/sql_lex.ts: brackets, select scopes and lists over the stream of tokens. The
-- runtime's `toLowerCase` is a parameter.
use sqlanvil.Base.{
  ℕ, zero, suc, ◌+◌, ◌-◌, ltb, Text, text_eq, nat_eq, Bool, true, false, not, ◌&&◌, ◌||◌,
  if◌then◌else◌, ◌==◌, List, [], ◌∷◌, Option, none, some, contains, any, take, drop, filter_by,
}
use sqlanvil.SqlLex.Keywords.{word_select, word_from, word_except, clause_ends}
use sqlanvil.SqlLex.Tokens.{Token, TokenKind, word, whitespace, comment}

-- `toks[i]`
abbrev pub token_at : List Token → ℕ → Option Token
token_at [] i = none
token_at (t ∷ ts) zero = some t
token_at (t ∷ ts) (suc i) = token_at ts i

abbrev pub is_word_kind : TokenKind → Bool
is_word_kind word = true
is_word_kind _ = false

abbrev pub is_significant_kind : TokenKind → Bool
is_significant_kind whitespace = false
is_significant_kind comment = false
is_significant_kind _ = true

-- `significant`
unfoldable pub significant : List Token → List Token
significant tokens = filter_by (λ t. is_significant_kind t.kind) tokens

-- The bracket that closes `open_text`, where it is one.
abbrev pub closing : Text → Option Text
closing open_text =
    if open_text == b'(' ∷ []
    then some (b')' ∷ [])
    else if open_text == b'[' ∷ []
    then some (b']' ∷ [])
    else none

-- The loop of `matchBracket` at index `i`, with `depth` brackets open.
unfoldable pub match_from : Text → Text → ℕ → ℕ → List Token → Option ℕ
match_from open_text close_text depth i [] = none
match_from open_text close_text depth i (t ∷ ts) =
    let opened = match_from open_text close_text (depth + 1) (i + 1) ts in
    let closed = match_from open_text close_text (depth - 1) (i + 1) ts in
    let passed = match_from open_text close_text depth (i + 1) ts in
    if t.text == open_text
    then opened
    else if t.text == close_text
    then (if depth == 1 then some i else closed)
    else passed

abbrev pub match_opened : List Token → ℕ → Token → Option Text → Option ℕ
match_opened toks i t none = none
match_opened toks i t (some close_text) = match_from t.text close_text 0 i (drop i toks)

-- `matchBracket`; `none` is its -1.
unfoldable pub match_bracket : List Token → ℕ → Option ℕ
match_bracket toks i = elim (token_at toks i) [
  | some t ↦ match_opened toks i t (closing t.text)
  | none ↦ none
]

abbrev pub is_opening : Text → Bool
is_opening s = s == b'(' ∷ [] || s == b'[' ∷ []

abbrev pub is_closing : Text → Bool
is_closing s = s == b')' ∷ [] || s == b']' ∷ []

-- A range of tokens, its end excluded.
abbrev pub Range : Type 0
Range = ℕ × ℕ

-- The loop of `splitOnCommas`. The source's depth, which may be negative, is the number of brackets
-- opened so far less that of those closed.
unfoldable pub split_from_index : ℕ → ℕ → ℕ → ℕ → List Token → List Range
split_from_index opened closed from i [] = if ltb from i then (from, i) ∷ [] else []
split_from_index opened closed from i (t ∷ ts) =
    let deeper = split_from_index (opened + 1) closed from (i + 1) ts in
    let higher = split_from_index opened (closed + 1) from (i + 1) ts in
    let next = split_from_index opened closed (i + 1) (i + 1) ts in
    let passed = split_from_index opened closed from (i + 1) ts in
    if is_opening t.text
    then deeper
    else if is_closing t.text
    then higher
    else if t.text == b',' ∷ [] && opened == closed
    then (from, i) ∷ next
    else passed

-- `splitOnCommas`, for a start that is not negative.
unfoldable pub split_on_commas : List Token → ℕ → ℕ → List Range
unfolding split_from_index
split_on_commas toks start end =
    split_from_index 0 0 start start (take (end - start) (drop start toks))

-- `SelectScope`; a field that the source sets to -1 is `none`.
pub record SelectScope : Type 0 where
  pub select : ℕ
  pub list_start : ℕ
  pub list_end : ℕ
  pub from : Option ℕ
  pub from_start : Option ℕ
  pub from_end : Option ℕ

module _ (to_lower_case : Text → Text) where
  -- `isWord`
  unfoldable pub is_word : Option Token → List Text → Bool
  is_word none words = false
  is_word (some t) words =
      is_word_kind t.kind && any (λ w. to_lower_case t.text == to_lower_case w) words

  -- What one token does to the scan of a scope: it ends the scope, or the scan goes on with a depth
  -- and the place of FROM.
  pub data Verdict : Type 0 where
    ends : Verdict
    goes : ℕ → Option ℕ → Verdict

  abbrev pub judge_word : ℕ → Option ℕ → Text → Verdict
  judge_word j none w =
      if w == word_from
      then goes 0 (some j)
      else if contains clause_ends w && not (w == word_except)
      then ends
      else goes 0 none
  judge_word j (some from) w = if contains clause_ends w then ends else goes 0 (some from)

  unfoldable pub judge : ℕ → ℕ → Option ℕ → Token → Verdict
  judge j depth from t =
      if is_opening t.text
      then goes (depth + 1) from
      else if is_closing t.text
      then (if depth == 0 then ends else goes (depth - 1) from)
      else if depth == 0 && is_word_kind t.kind
      then judge_word j from (to_lower_case t.text)
      else if depth == 0 && t.text == b';' ∷ []
      then ends
      else goes depth from

  -- The inner loop of `selectScopes` at index `j`: where FROM stands, and where the scope ends.
  unfoldable pub scan_scope : ℕ → ℕ → Option ℕ → List Token → Option ℕ × ℕ
  scan_scope j depth from [] = (from, j)
  scan_scope j depth from (t ∷ ts) = elim (judge j depth from t) [
    | ends ↦ (from, j)
    | goes depth_after from_after ↦ scan_scope (j + 1) depth_after from_after ts
  ]

  abbrev pub scope_at : ℕ → Option ℕ → ℕ → SelectScope
  scope_at i none end = record {
    select = i;
    list_start = i + 1;
    list_end = end;
    from = none;
    from_start = none;
    from_end = none;
  }
  scope_at i (some from) end = record {
    select = i;
    list_start = i + 1;
    list_end = from;
    from = some from;
    from_start = some (from + 1);
    from_end = some end;
  }

  unfoldable pub scopes_from : ℕ → List Token → List SelectScope
  unfolding scan_scope
  scopes_from i [] = []
  scopes_from i (t ∷ ts) =
      let rest = scopes_from (i + 1) ts in
      let scanned = scan_scope (i + 1) 0 none ts in
      if is_word (some t) (word_select ∷ []) then scope_at i scanned.0 scanned.1 ∷ rest else rest

  -- `selectScopes`
  unfoldable pub select_scopes : List Token → List SelectScope
  unfolding scopes_from
  select_scopes toks = scopes_from 0 toks
