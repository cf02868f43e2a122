-- ===== src/CompilationSql/Literals.antt =====
-- core/compilation_sql/index.ts: an escaped text is read back by the warehouse's lexer as it was.
use sqlanvil.Base.{
  ℕ, Text, Option, none, some, Bool, true, false, ◌∷◌, [], ◌++◌, if◌then◌else◌, ◌==◌, nat_eq,
  nat_beq_iff, ◌≡◌, refl, ◌≢◌, arith, append_assoc, Bool-cases, inl, inr,
}
use sqlanvil.CompilationSql.{
  Warehouse, postgres, supabase, mysql, bigquery, is_postgres, replace_all, escape_backslash,
  sql_string, quote_col,
}

abbrev pub push : ℕ → Option (Text × Text) → Option (Text × Text)
push c none = none
push c (some (s, rest)) = some (c ∷ s, rest)

-- A literal in which the quote is doubled, from behind its opening quote: its contents, and the text
-- behind its closing quote. The flag says that the last character was a quote.
pub read_doubled : ℕ → Bool → Text → Option (Text × Text)
read_doubled q true [] = some ([], [])
read_doubled q false [] = none
read_doubled q true (c ∷ cs) =
    if c == q then push q (read_doubled q false cs) else some ([], c ∷ cs)
read_doubled q false (c ∷ cs) =
    let more = push c (read_doubled q false cs) in
    let ended = read_doubled q true cs in if c == q then ended else more

abbrev pub unescape : ℕ → ℕ
unescape c = if c == b'n' then 10 else if c == b'r' then 13 else c

-- A literal with backslash escapes, which ends at a quote and may hold no line break. The flag says
-- that the last character was the backslash of an escape.
pub read_escaped : Bool → Text → Option (Text × Text)
read_escaped escape [] = none
read_escaped true (c ∷ cs) = push (unescape c) (read_escaped false cs)
read_escaped false (c ∷ cs) =
    let more = push c (read_escaped false cs) in
    let escape = read_escaped true cs in
    if c == 39
    then some ([], cs)
    else if c == 92
    then escape
    else if c == 10
    then none
    else if c == 13
    then none
    else more

abbrev pub not_starting : ℕ → Text → Bool
not_starting q [] = true
not_starting q (c ∷ cs) = if c == q then false else true

read_doubled-replace_all :
    (q : ℕ) (s rest : Text)
    → not_starting q rest ≡ true
    → read_doubled q false (replace_all q (q ∷ q ∷ []) s ++ q ∷ rest) ≡ some (s, rest)
unfolding read_doubled replace_all
read_doubled-replace_all q [] [] h = ground (arith, nat_beq_iff q q)
read_doubled-replace_all q [] (c ∷ cs) h = ground (arith, nat_beq_iff q q, nat_beq_iff c q)
read_doubled-replace_all q (x ∷ s) rest h =
    ground (arith, nat_beq_iff x q, nat_beq_iff q q, read_doubled-replace_all q s rest h)

-- What the four replacements make of one character.
abbrev escaped : ℕ → Text
escaped c =
    if c == 92
    then 92 ∷ 92 ∷ []
    else if c == 39
    then 92 ∷ 39 ∷ []
    else if c == 10
    then 92 ∷ b'n' ∷ []
    else if c == 13
    then 92 ∷ b'r' ∷ []
    else c ∷ []

escape-cons : (c : ℕ) (s : Text) → escape_backslash (c ∷ s) ≡ escaped c ++ escape_backslash s
unfolding escape_backslash
escape-cons c s = ground arith

read_escaped-one :
    (c : ℕ) (s : Text) → read_escaped false (escaped c ++ s) ≡ push c (read_escaped false s)
unfolding read_escaped
read_escaped-one c s = ground arith

read_escaped-escape :
    (s rest : Text) → read_escaped false (escape_backslash s ++ 39 ∷ rest) ≡ some (s, rest)
unfolding read_escaped escape_backslash
read_escaped-escape [] rest = refl
read_escaped-escape (c ∷ s) rest =
    rw (escape-cons c s, append_assoc, read_escaped-one c, read_escaped-escape s rest) refl

-- How the warehouse reads a literal, from its opening quote on.
pub read_literal : Warehouse → Text → Option (Text × Text)
read_literal w [] = none
read_literal w (c ∷ cs) =
    if c == 39
    then (if is_postgres w then read_doubled 39 false cs else read_escaped false cs)
    else none

-- The literal that `sqlString` builds is read back as the given text, whatever the text holds, and
-- the SQL behind it is left as it stands, unless that starts with a quote.
pub read_literal-sql_string :
    (w : Warehouse) (s rest : Text)
    → not_starting 39 rest ≡ true
    → read_literal w (sql_string w s ++ rest) ≡ some (s, rest)
unfolding read_literal sql_string
read_literal-sql_string w s rest h = elim (Bool-cases (is_postgres w)) [
  | inl pg ↦ rw (pg, append_assoc) (rw (pg) (read_doubled-replace_all 39 s rest h))
  | inr other ↦ rw (other, append_assoc) (rw (other) (read_escaped-escape s rest))
]

-- How the warehouse reads a quoted column, from its opening quote on.
pub read_column : Warehouse → Text → Option (Text × Text)
read_column w [] = none
read_column mysql (c ∷ cs) = if c == 96 then read_doubled 96 false cs else none
read_column w (c ∷ cs) = if c == 34 then read_doubled 34 false cs else none

abbrev pub column_quote : Warehouse → ℕ
column_quote mysql = 96
column_quote _ = 34

-- The column that `indexAssertion` quotes is read back as it was, except on BigQuery, where it is not
-- quoted at all.
pub read_column-quote_col :
    (w : Warehouse) (col rest : Text)
    → w ≢ bigquery
    → not_starting (column_quote w) rest ≡ true
    → read_column w (quote_col w col ++ rest) ≡ some (col, rest)
unfolding read_column quote_col
read_column-quote_col postgres col rest w h =
    rw append_assoc (read_doubled-replace_all 34 col rest h)
read_column-quote_col supabase col rest w h =
    rw append_assoc (read_doubled-replace_all 34 col rest h)
read_column-quote_col mysql col rest w h = rw append_assoc (read_doubled-replace_all 96 col rest h)
read_column-quote_col bigquery col rest w h = absurd (w refl)
