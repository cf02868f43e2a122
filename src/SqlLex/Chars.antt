-- ===== src/SqlLex/Chars.antt =====
-- cli/api/commands/sql_lex.ts: the character classes of the tokenizer's regular expressions.
use sqlanvil.Base.{ℕ, Bool, not, ◌&&◌, ◌||◌, ◌==◌, nat_eq, leb}

abbrev pub between : ℕ → ℕ → ℕ → Bool
between lo hi c = leb lo c && leb c hi

-- `\s`
unfoldable pub is_space : ℕ → Bool
is_space c =
    between 9 13 c
    || c == 32
    || c == 0xa0
    || c == 0x1680
    || between 0x2000 0x200a c
    || between 0x2028 0x2029 c
    || c == 0x202f
    || c == 0x205f
    || c == 0x3000
    || c == 0xfeff

-- `[0-9]`, `[A-Za-z_]`, and the classes of the rest of a number, a word and a dollar tag.
unfoldable pub is_digit : ℕ → Bool
is_digit c = between b'0' b'9' c

unfoldable pub is_letter : ℕ → Bool
is_letter c = between b'A' b'Z' c || between b'a' b'z' c || c == b'_'

unfoldable pub is_number_part : ℕ → Bool
unfolding is_digit
is_number_part c = is_digit c || c == b'.' || c == b'_' || c == b'e' || c == b'E'

unfoldable pub is_tag_part : ℕ → Bool
unfolding is_letter is_digit
is_tag_part c = is_letter c || is_digit c

unfoldable pub is_word_part : ℕ → Bool
unfolding is_tag_part
is_word_part c = is_tag_part c || c == b'$'

unfoldable pub is_not_newline : ℕ → Bool
is_not_newline c = not (c == 10)
