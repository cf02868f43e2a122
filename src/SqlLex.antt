-- ===== src/SqlLex.antt =====
-- cli/api/commands/sql_lex.ts: the tokenizer of the SQL in .sqlx files.
pub mod Chars
pub mod Scan
pub mod Tokens
pub mod Keywords
pub mod Scopes
pub mod Relations
pub mod Brackets
pub mod Splitting
pub mod Ranges
pub mod Interpolations
pub mod Bounds
pub mod Tiling
pub mod Examples
