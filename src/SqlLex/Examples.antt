-- ===== src/SqlLex/Examples.antt =====
-- Runs of the model of cli/api/commands/sql_lex.ts on small inputs.
use sqlanvil.Base.{Text, ◌∷◌, [], length, none, List, refl, take, drop, ◌+◌, ◌-◌}
use sqlanvil.SqlLex.Tokens.{tokenize, Token, TokenKind, punct, word}
use sqlanvil.SqlLex.Scopes.{match_bracket, match_from, split_on_commas}
use sqlanvil.SqlLex.Brackets.{IsMatch, match_bracket-IsMatch}
use sqlanvil.SqlLex.Splitting.{IsCover, is_cut, split_on_commas-IsCover}
use sqlanvil.SqlLex.Tiling.{IsTiling, tokenize-IsTiling}

-- `a --` and an unterminated string.
abbrev sample : Text
sample = b'a' ∷ 32 ∷ b'-' ∷ b'-' ∷ 10 ∷ 39 ∷ b'x' ∷ []

tokenize-IsTiling_example : IsTiling 0 (length sample) (tokenize sample)
tokenize-IsTiling_example = tokenize-IsTiling sample

abbrev token : TokenKind → Text → Token
token kind text = record { kind = kind; start = 0; end = length text; text = text; value = none }

-- The tokens of `f(a,b)`.
abbrev call : List Token
call =
    token word (b'f' ∷ [])
    ∷ token punct (b'(' ∷ [])
    ∷ token word (b'a' ∷ [])
    ∷ token punct (b',' ∷ [])
    ∷ token word (b'b' ∷ [])
    ∷ token punct (b')' ∷ [])
    ∷ []

match_bracket-IsMatch_example : IsMatch call 1 5
unfolding match_bracket match_from
match_bracket-IsMatch_example = match_bracket-IsMatch call 1 5 refl

split_on_commas-IsCover_example :
    let split = take (5 - 2) (drop 2 call) in
    IsCover (λ j. is_cut 0 0 split (j - 2)) 2 (2 + length split) (split_on_commas call 2 5)
split_on_commas-IsCover_example = split_on_commas-IsCover call 2 5
