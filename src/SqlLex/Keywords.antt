-- ===== src/SqlLex/Keywords.antt =====
-- cli/api/commands/sql_lex.ts: the keywords that the scopes and relations are found by.
use sqlanvil.Base.{Text, List, [], ◌∷◌}

abbrev pub word_select : Text
word_select = b's' ∷ b'e' ∷ b'l' ∷ b'e' ∷ b'c' ∷ b't' ∷ []

abbrev pub word_from : Text
word_from = b'f' ∷ b'r' ∷ b'o' ∷ b'm' ∷ []

abbrev pub word_join : Text
word_join = b'j' ∷ b'o' ∷ b'i' ∷ b'n' ∷ []

abbrev pub word_except : Text
word_except = b'e' ∷ b'x' ∷ b'c' ∷ b'e' ∷ b'p' ∷ b't' ∷ []

abbrev pub word_as : Text
word_as = b'a' ∷ b's' ∷ []

-- `CLAUSE_ENDS`
abbrev pub clause_ends : List Text
clause_ends =
    (b'w' ∷ b'h' ∷ b'e' ∷ b'r' ∷ b'e' ∷ [])
    ∷ (b'g' ∷ b'r' ∷ b'o' ∷ b'u' ∷ b'p' ∷ [])
    ∷ (b'o' ∷ b'r' ∷ b'd' ∷ b'e' ∷ b'r' ∷ [])
    ∷ (b'h' ∷ b'a' ∷ b'v' ∷ b'i' ∷ b'n' ∷ b'g' ∷ [])
    ∷ (b'w' ∷ b'i' ∷ b'n' ∷ b'd' ∷ b'o' ∷ b'w' ∷ [])
    ∷ (b'l' ∷ b'i' ∷ b'm' ∷ b'i' ∷ b't' ∷ [])
    ∷ (b'q' ∷ b'u' ∷ b'a' ∷ b'l' ∷ b'i' ∷ b'f' ∷ b'y' ∷ [])
    ∷ (b'u' ∷ b'n' ∷ b'i' ∷ b'o' ∷ b'n' ∷ [])
    ∷ (b'i' ∷ b'n' ∷ b't' ∷ b'e' ∷ b'r' ∷ b's' ∷ b'e' ∷ b'c' ∷ b't' ∷ [])
    ∷ (b'e' ∷ b'x' ∷ b'c' ∷ b'e' ∷ b'p' ∷ b't' ∷ [])
    ∷ []

-- `JOIN_NOISE`
abbrev pub join_noise : List Text
join_noise =
    (b'o' ∷ b'n' ∷ [])
    ∷ (b'u' ∷ b's' ∷ b'i' ∷ b'n' ∷ b'g' ∷ [])
    ∷ (b'l' ∷ b'e' ∷ b'f' ∷ b't' ∷ [])
    ∷ (b'r' ∷ b'i' ∷ b'g' ∷ b'h' ∷ b't' ∷ [])
    ∷ (b'i' ∷ b'n' ∷ b'n' ∷ b'e' ∷ b'r' ∷ [])
    ∷ (b'f' ∷ b'u' ∷ b'l' ∷ b'l' ∷ [])
    ∷ (b'c' ∷ b'r' ∷ b'o' ∷ b's' ∷ b's' ∷ [])
    ∷ (b'o' ∷ b'u' ∷ b't' ∷ b'e' ∷ b'r' ∷ [])
    ∷ (b'j' ∷ b'o' ∷ b'i' ∷ b'n' ∷ [])
    ∷ (b'l' ∷ b'a' ∷ b't' ∷ b'e' ∷ b'r' ∷ b'a' ∷ b'l' ∷ [])
    ∷ (b'n' ∷ b'a' ∷ b't' ∷ b'u' ∷ b'r' ∷ b'a' ∷ b'l' ∷ [])
    ∷ []
