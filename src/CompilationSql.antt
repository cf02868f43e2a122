-- ===== src/CompilationSql.antt =====
-- core/compilation_sql/index.ts: the names and literals that the compiler puts into SQL texts.
pub mod Literals
pub mod Examples
use sqlanvil.Base.{ℕ, Text, Option, Bool, true, false, ◌∷◌, [], ◌++◌, if◌then◌else◌, ◌==◌, nat_eq}
use sqlanvil.Targets.{Target, truthy, text_or_empty}

-- The lower-cased `project.warehouse`; any other value, and none, is `bigquery`.
pub data Warehouse : Type 0 where
  postgres supabase mysql bigquery : Warehouse

abbrev pub is_postgres : Warehouse → Bool
is_postgres postgres = true
is_postgres supabase = true
is_postgres _ = false

-- `text.replace(/c/g, by)`
unfoldable pub replace_all : ℕ → Text → Text → Text
replace_all c by [] = []
replace_all c by (x ∷ xs) = (if x == c then by else x ∷ []) ++ replace_all c by xs

-- 92 is the backslash, 39 the single quote, 10 the newline and 13 the carriage return.
unfoldable pub escape_backslash : Text → Text
unfolding replace_all
escape_backslash s = replace_all 13 (92 ∷ b'r' ∷ []) (
    replace_all 10 (92 ∷ b'n' ∷ [])
      (replace_all 39 (92 ∷ 39 ∷ []) (replace_all 92 (92 ∷ 92 ∷ []) s)))

-- `sqlString`
unfoldable pub sql_string : Warehouse → Text → Text
sql_string w s =
    if is_postgres w
    then 39 ∷ replace_all 39 (39 ∷ 39 ∷ []) s ++ 39 ∷ []
    else 39 ∷ escape_backslash s ++ 39 ∷ []

-- `quoteCol` of `indexAssertion`: 34 is the double quote and 96 the backtick.
unfoldable pub quote_col : Warehouse → Text → Text
quote_col postgres col = 34 ∷ replace_all 34 (34 ∷ 34 ∷ []) col ++ 34 ∷ []
quote_col supabase col = 34 ∷ replace_all 34 (34 ∷ 34 ∷ []) col ++ 34 ∷ []
quote_col mysql col = 96 ∷ replace_all 96 (96 ∷ 96 ∷ []) col ++ 96 ∷ []
quote_col bigquery col = col

-- `resolveTarget`, with the project's default database and schema.
abbrev pub or_default : Option Text → Option Text → Option Text
or_default a d = if truthy a then a else d

abbrev pub in_quotes : ℕ → Text → Text
in_quotes q s = q ∷ s ++ q ∷ []

unfoldable pub resolve_target : Warehouse → Option Text → Option Text → Target → Text
resolve_target w default_database default_schema t =
    let database = or_default t.database default_database in
    let schema = text_or_empty (or_default t.schema default_schema) in
    let dotted = λ (q : ℕ). let s : Text = in_quotes q schema ++ b'.' ∷ in_quotes q t.name in s in
    elim w [
      | bigquery ↦
          if truthy database
          then in_quotes 96 (text_or_empty database ++ b'.' ∷ schema ++ b'.' ∷ t.name)
          else in_quotes 96 (schema ++ b'.' ∷ t.name)
      | mysql ↦ dotted 96
      | _ ↦
          if truthy database
          then in_quotes 34 (text_or_empty database) ++ b'.' ∷ dotted 34
          else dotted 34
    ]
