-- ===== src/SqlLex/Relations.antt =====
-- cli/api/commands/sql_lex.ts: the relations of a FROM chain, and the spans of JavaScript. The
-- runtime's `toLowerCase` is a parameter.
use sqlanvil.Base.{
  ℕ, zero, suc, ◌+◌, ◌-◌, ltb, Text, text_eq, nat_eq, Bool, true, false, not, ◌&&◌, ◌||◌,
  if◌then◌else◌, ◌==◌, List, [], ◌∷◌, Option, none, some, contains, length, take, drop,
}
use sqlanvil.SqlLex.Tokens.{Token, TokenKind, word, template, quoted_ident, backtick_ident}
use sqlanvil.SqlLex.Keywords.{word_from, word_join, word_as, join_noise}
use sqlanvil.SqlLex.Scopes.{token_at, is_word, is_word_kind, match_bracket}

-- `Relation`
pub record Relation : Type 0 where
  pub tokens : List Token
  pub alias : Option Text
  pub subquery : Bool

abbrev pub names_a_part : TokenKind → Bool
names_a_part word = true
names_a_part template = true
names_a_part quoted_ident = true
names_a_part backtick_ident = true
names_a_part _ = false

abbrev pub is_part : Token → Bool
is_part t = names_a_part t.kind || t.text == b'.' ∷ []

abbrev pub names_itself : TokenKind → Bool
names_itself word = true
names_itself quoted_ident = true
names_itself _ = false

-- The last token of the name that SQL exposes the relation under.
abbrev pub trailing_name : List Token → Option Token
trailing_name [] = none
trailing_name (t ∷ ts) = elim (trailing_name ts) [
  | some last ↦ some last
  | none ↦ if names_itself t.kind then some t else none
]

abbrev pub value_or_text : Token → Text
value_or_text t = elim t.value [ some v ↦ v | none ↦ t.text ]

-- A relation that was read, and the index behind it.
abbrev pub Read : Type 0
Read = Relation × ℕ

-- What stands at index `i`, where a relation may start: a relation, nothing, or a parenthesis
-- that is not closed, which ends the loop.
pub data Found : Type 0 where
  found : Read → Found
  nothing : Found
  unclosed : Found

abbrev pub opens_subquery : Option Token → Bool
opens_subquery none = false
opens_subquery (some t) = t.text == b'(' ∷ []

module _ (to_lower_case : Text → Text) where
  abbrev pub is_noise : Token → Bool
  is_noise t = is_word_kind t.kind && contains join_noise (to_lower_case t.text)

  -- The parts of a dotted or templated name, out of the tokens up to the end of the chain.
  unfoldable pub name_parts : List Token → List Token
  name_parts [] = []
  name_parts (t ∷ ts) =
      let rest = name_parts ts in
      if is_part t && not (is_word to_lower_case (some t) (word_as ∷ [])) && not (is_noise t)
      then t ∷ rest
      else []

  -- `!!t && t.kind === "word"`, and no noise.
  abbrev pub names_alias : Option Token → Bool
  names_alias none = false
  names_alias (some t) = is_word_kind t.kind && not (is_noise t)

  abbrev pub text_of : Option Token → Option Text
  text_of none = none
  text_of (some t) = some (to_lower_case t.text)

  abbrev pub own_alias : Bool → Option Token → Option Text
  own_alias true last = none
  own_alias false none = none
  own_alias false (some t) = some (to_lower_case (value_or_text t))

  -- The alias behind the relation that ends at `j`, and where the next one is looked for.
  unfoldable pub read_alias : List Token → List Token → Bool → ℕ → Read
  read_alias toks parts subquery j =
      let k = if is_word to_lower_case (token_at toks j) (word_as ∷ []) then j + 1 else j in
      if names_alias (token_at toks k)
      then (
        record { tokens = parts; alias = text_of (token_at toks k); subquery = subquery },
        k + 1,
      )
      else (
        record {
          tokens = parts;
          alias = own_alias subquery (trailing_name parts);
          subquery = subquery;
        },
        k,
      )

  abbrev pub read_parts : List Token → List Token → ℕ → Found
  read_parts toks [] j = nothing
  read_parts toks (p ∷ parts) j = found (read_alias toks (p ∷ parts) false j)

  abbrev pub read_subquery : List Token → ℕ → Option ℕ → Found
  read_subquery toks i none = unclosed
  read_subquery toks i (some close) =
      found (read_alias toks (take (close + 1 - i) (drop i toks)) true (close + 1))

  unfoldable pub relation_at : List Token → ℕ → ℕ → Found
  relation_at toks end i =
      let parts = name_parts (take (end - i) (drop i toks)) in
      if opens_subquery (token_at toks i)
      then read_subquery toks i (match_bracket toks i)
      else read_parts toks parts (i + length parts)

  -- Whether a relation may start at `i`: where the chain does, and behind FROM and JOIN.
  abbrev pub starts_relation : List Token → ℕ → ℕ → Bool
  starts_relation toks start i =
      not (ltb start i)
      || is_word to_lower_case (token_at toks (i - 1)) (word_from ∷ word_join ∷ [])

  -- The loop. Each round moves the index on, so `end - start` rounds are enough.
  unfoldable pub relations_from : List Token → ℕ → ℕ → ℕ → ℕ → Option (List Relation)
  relations_from toks start end zero i = if ltb i end then none else some []
  relations_from toks start end (suc fuel) i =
      let skipped = relations_from toks start end fuel (i + 1) in
      if not (ltb i end)
      then some []
      else if not (starts_relation toks start i)
      then skipped
      else elim (relation_at toks end i) [
        | found r ↦ elim (relations_from toks start end fuel r.1) [
          | some rels ↦ some (r.0 ∷ rels)
          | none ↦ none
        ]
        | nothing ↦ skipped
        | unclosed ↦ some []
      ]

  -- `relationsIn`, for an `end` that is not beyond the last token, as it is in every scope.
  unfoldable pub relations_in : List Token → ℕ → ℕ → Option (List Relation)
  unfolding relations_from
  relations_in toks start end = relations_from toks start end (end - start) start
