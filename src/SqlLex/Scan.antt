-- ===== src/SqlLex/Scan.antt =====
-- cli/api/commands/sql_lex.ts: how many characters each form of token takes, from its start. The
-- source moves an index; a scanner here returns how far, and takes the text from the index on.
use sqlanvil.Base.{
  ℕ, zero, suc, ◌+◌, ◌-◌, Text, text_eq, Option, none, some, Bool, true, false, ◌∷◌, [], ◌&&◌, not,
  if◌then◌else◌, ◌==◌, nat_eq, take, drop,
}
use sqlanvil.SqlLex.Chars.{is_letter, is_tag_part}

abbrev pub starts_with : Text → ℕ → Bool
starts_with [] c = false
starts_with (x ∷ xs) c = x == c

-- A loop `while (i < sql.length && test(sql[i])) i++`.
unfoldable pub span : (ℕ → Bool) → Text → ℕ
span test [] = 0
span test (c ∷ cs) = if test c then suc (span test cs) else 0

-- `templateEnd`, with the depth of the braces: 123 and 125 are the braces.
unfoldable pub template_span : ℕ → Text → ℕ
template_span depth [] = 0
template_span depth (c ∷ cs) =
    let deeper = template_span (depth + 1) cs in
    let shallower = template_span (depth - 1) cs in
    let same = template_span depth cs in
    if c == 123
    then suc deeper
    else if c == 125
    then (if depth == 1 then 1 else suc shallower)
    else suc same

-- The body of a `/* … */` comment behind its two opening characters.
unfoldable pub block_span : Text → ℕ
block_span [] = 0
block_span (c ∷ cs) = if c == b'*' && starts_with cs b'/' then 2 else suc (block_span cs)

-- The text starts with `tag`, and where `tag` starts in it (`indexOf`).
abbrev pub is_prefix : Text → Text → Bool
is_prefix [] cs = true
is_prefix (t ∷ ts) [] = false
is_prefix (t ∷ ts) (c ∷ cs) = t == c && is_prefix ts cs

unfoldable pub index_of : Text → Text → Option ℕ
index_of tag [] = if is_prefix tag [] then some 0 else none
index_of tag (c ∷ cs) =
    if is_prefix tag (c ∷ cs)
    then some 0
    else elim (index_of tag cs) [ none ↦ none | some n ↦ some (suc n) ]

-- The length of the name in a dollar tag, behind its first `$`.
abbrev pub tag_name : Text → ℕ
tag_name [] = 0
tag_name (c ∷ cs) = if is_letter c then suc (span is_tag_part cs) else 0

-- The second `$` of a dollar tag, which no `{` may follow.
abbrev pub closes_tag : Text → Bool
closes_tag [] = false
closes_tag (c ∷ cs) = c == b'$' && not (starts_with cs 123)

-- The regular expression of a dollar tag, on the 64 characters from a `$` on: the tag's length.
unfoldable pub dollar_tag : Text → Option ℕ
unfolding span
dollar_tag cs =
    let window = drop 1 (take 64 cs) in
    if starts_with cs b'$' && closes_tag (drop (tag_name window) window)
    then some (tag_name window + 2)
    else none

-- A string literal behind its opening quote. `skip` counts characters to pass over: the rest of an
-- interpolation, or the second quote of a doubled one.
unfoldable pub string_span : ℕ → ℕ → Text → ℕ
unfolding template_span
string_span quote skip [] = 0
string_span quote (suc skip) (c ∷ cs) = suc (string_span quote skip cs)
string_span quote zero (c ∷ cs) =
    let inside = string_span quote (template_span 0 (c ∷ cs) - 1) cs in
    let doubled = string_span quote 1 cs in
    let on = string_span quote 0 cs in
    if c == b'$' && starts_with cs 123
    then suc inside
    else if not (c == quote)
    then suc on
    else if quote == 39 && starts_with cs 39
    then suc doubled
    else 1

unfoldable pub backtick_span : Text → ℕ
backtick_span [] = 0
backtick_span (c ∷ cs) = if c == 96 then 1 else suc (backtick_span cs)
