-- ===== src/CompilationSql/Examples.antt =====
-- Runs of the models of core/compilation_sql/index.ts on small inputs.
use sqlanvil.Base.{Text, some, ◌≡◌, ◌≢◌, ◌++◌, ◌∷◌, [], refl}
use sqlanvil.CompilationSql.{mysql, postgres, bigquery, sql_string}
use sqlanvil.CompilationSql.Literals.{read_literal, read_literal-sql_string}

-- A quote, a backslash and a newline.
abbrev hostile : Text
hostile = 39 ∷ 92 ∷ 10 ∷ []

read_literal-sql_string_example :
    read_literal mysql (sql_string mysql hostile ++ b';' ∷ []) ≡ some (hostile, b';' ∷ [])
read_literal-sql_string_example = read_literal-sql_string mysql hostile (b';' ∷ []) refl

not_bigquery : postgres ≢ bigquery
not_bigquery h = cc
