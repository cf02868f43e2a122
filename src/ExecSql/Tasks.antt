-- ===== src/ExecSql/Tasks.antt =====
-- cli/api/dbadapters/tasks.ts: the tasks of an action, and statements put into one text.
pub mod Formatting
use sqlanvil.Base.{
  ℕ, zero, suc, ◌+◌, Text, text_eq, nat_eq, Bool, true, false, not, ◌&&◌, if◌then◌else◌, ◌==◌, List,
  [], ◌∷◌, ◌++◌, Option, none, some, map, filter_by, take, drop, joined,
}
use sqlanvil.Paths.{is_empty}
use sqlanvil.Runner.State.{ExecutionTask, TaskType}
use sqlanvil.SqlLex.Chars.{is_space}
use sqlanvil.SqlLex.Scan.{index_of}

-- `String.trimStart` and `trimEnd`.
unfoldable pub trim_start : Text → Text
trim_start [] = []
trim_start (c ∷ cs) = let rest = trim_start cs in if is_space c then rest else c ∷ cs

unfoldable pub trim_end : Text → Text
trim_end [] = []
trim_end (c ∷ cs) = let rest = trim_end cs in if is_empty rest && is_space c then [] else c ∷ rest

unfoldable pub trim : Text → Text
unfolding trim_start trim_end
trim s = trim_end (trim_start s)

-- `endsWith(";")`
unfoldable pub ends_in_semicolon : Text → Bool
ends_in_semicolon [] = false
ends_in_semicolon (c ∷ []) = c == b';'
ends_in_semicolon (_ ∷ d ∷ cs) = ends_in_semicolon (d ∷ cs)

-- `statement.lastIndexOf("\n") + 1`
unfoldable pub last_line_start : Text → ℕ
last_line_start [] = 0
last_line_start (c ∷ cs) =
    let rest = last_line_start cs in if rest == 0 then (if c == 10 then 1 else 0) else suc rest

abbrev pub later_by : ℕ → Option ℕ → Option ℕ
later_by n none = none
later_by n (some i) = some (n + i)

-- `statement.indexOf("--", lastLineStart)`
unfoldable pub comment_index : Text → Option ℕ
unfolding last_line_start index_of
comment_index s =
    let start = last_line_start s in later_by start (index_of (b'-' ∷ b'-' ∷ []) (drop start s))

-- The code and the trailing comment of a statement.
abbrev pub split_at_comment : Text → Option ℕ → Text × Text
split_at_comment s none = (s, [])
split_at_comment s (some zero) = ([], s)
split_at_comment s (some (suc n)) = (trim_end (take (suc n) s), drop (suc n) s)

abbrev pub modified : Option (Text → Text) → Text → Text
modified none code = code
modified (some f) [] = []
modified (some f) (c ∷ cs) = f (c ∷ cs)

unfoldable pub terminated : Bool → Text → Text
unfolding ends_in_semicolon
terminated is_last code =
    if not is_last && not (is_empty code) && not (ends_in_semicolon code)
    then code ++ b';' ∷ []
    else code

unfoldable pub with_comment : Text → Text → Text
with_comment [] comment = comment
with_comment (c ∷ cs) [] = c ∷ cs
with_comment (c ∷ cs) (d ∷ ds) = (c ∷ cs) ++ 32 ∷ d ∷ ds

-- `formatStatement`
unfoldable pub format_statement : Text → Bool → Option (Text → Text) → Text
unfolding comment_index trim_end terminated with_comment
format_statement statement is_last modifier =
    let parts = split_at_comment statement (comment_index statement) in
    with_comment (terminated is_last (modified modifier parts.0)) parts.1

-- The `map` with the index of each statement.
unfoldable pub format_statements : Option (Text → Text) → List Text → List Text
unfolding format_statement
format_statements modifier [] = []
format_statements modifier (s ∷ []) = format_statement s true modifier ∷ []
format_statements modifier (s ∷ t ∷ ts) =
    format_statement s false modifier ∷ format_statements modifier (t ∷ ts)

abbrev pub is_not_empty : Text → Bool
is_not_empty s = not (is_empty s)

-- `concatenateQueries`
unfoldable pub concatenate_queries : List Text → Option (Text → Text) → Text
unfolding trim joined format_statements
concatenate_queries statements modifier = joined (10 ∷ []) (
    format_statements modifier
      (filter_by is_not_empty (map trim (filter_by is_not_empty statements))))

-- `Task`, by the proto that it builds.
abbrev pub Task : Type 0
Task = ExecutionTask

abbrev pub statement_task : Text → Task
statement_task s = record { type = TaskType.statement; text = s }

abbrev pub assertion_task : Text → Task
assertion_task s = record { type = TaskType.assertion; text = s }

-- `Tasks.concatenate`; the list of tasks is `Tasks`, `++` its `add` and `addAll`.
unfoldable pub concatenate : List Task → List Task
unfolding concatenate_queries
concatenate tasks =
    statement_task (concatenate_queries (map (λ (t : Task). t.text) tasks) none) ∷ []
