-- ===== src/ExecSql/Tasks/Formatting.antt =====
-- cli/api/dbadapters/tasks.ts: what formatting does to a statement.
use sqlanvil.Base.{
  Bool, ◌==◌, ◌||◌, not, if◌then◌else◌, ℕ, Text, text_eq, nat_eq, Option, none, some, true, false,
  ◌&&◌, [], ◌∷◌, ◌++◌, every, take, drop, ◌≡◌, refl, ◌⊎◌, inl, inr, arith, Bool-cases,
}
use sqlanvil.Paths.{is_empty}
use sqlanvil.SqlLex.Chars.{is_space}
use sqlanvil.SqlLex.Scan.{is_prefix}
use sqlanvil.ExecSql.Tasks.{trim_end, ends_in_semicolon, terminated}

nil_of_is_empty : (s : Text) → is_empty s ≡ true → s ≡ []
nil_of_is_empty [] h = refl
nil_of_is_empty (c ∷ cs) h = ground (arith, h)

-- Trimming cuts off blanks, and nothing else.
pub append-trim_end :
    (s : Text) → (blanks : Text) × (trim_end s ++ blanks ≡ s) × (every is_space blanks ≡ true)
unfolding trim_end
append-trim_end [] = ([], refl, refl)
append-trim_end (c ∷ cs) =
    let (blanks, e, h) = append-trim_end cs in
    elim (Bool-cases (is_empty (trim_end cs) && is_space c)) [
      | inl cut ↦ (
        c ∷ blanks,
        ground (arith, cut, e, nil_of_is_empty (trim_end cs)),
        ground (arith, cut, h),
      )
      | inr kept ↦ (blanks, ground (arith, kept, e), h)
    ]

ends_in_semicolon-append : (s : Text) → ends_in_semicolon (s ++ b';' ∷ []) ≡ true
unfolding ends_in_semicolon
ends_in_semicolon-append [] = refl
ends_in_semicolon-append (c ∷ []) = refl
ends_in_semicolon-append (c ∷ d ∷ cs) = ends_in_semicolon-append (d ∷ cs)

-- The code of a statement that another one follows: as it was, or with a semicolon behind it.
pub terminated-ends :
    (code : Text) → is_empty code ≡ false → ends_in_semicolon (terminated false code) ≡ true
unfolding terminated
terminated-ends code h = ground (arith, h, ends_in_semicolon-append code)

abbrev has_newline : Text → Bool
has_newline [] = false
has_newline (c ∷ cs) = c == 10 || has_newline cs

-- What stands behind the last line break.
abbrev pub last_line : Text → Text
last_line [] = []
last_line (c ∷ cs) = let later = last_line cs in if has_newline (c ∷ cs) then later else c ∷ cs

abbrev pub dashes : Text
dashes = b'-' ∷ b'-' ∷ []

-- No place of a text, read in front of a rest, starts a comment.
abbrev pub is_uncommented : Text → Text → Bool
is_uncommented [] rest = true
is_uncommented (c ∷ cs) rest = not (is_prefix dashes ((c ∷ cs) ++ rest)) && is_uncommented cs rest

-- The comment of a statement starts at the first two dashes of its last line; it is empty where that
-- line has none.
abbrev pub IsCommentOf : Text → Text → Type 0
IsCommentOf s comment =
    (head : Text) × (last_line s ≡ head ++ comment)
    × (is_uncommented head comment ≡ true)
    × ((comment ≡ []) ⊎ (is_prefix dashes comment ≡ true))

-- What `indexOf` finds in a line.
abbrev IsFirst : Text → Option ℕ → Type 0
IsFirst line none = is_uncommented line [] ≡ true
IsFirst line (some n) =
    (is_uncommented (take n line) (drop n line) ≡ true) × (is_prefix dashes (drop n line) ≡ true)
