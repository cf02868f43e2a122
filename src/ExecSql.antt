-- ===== src/ExecSql.antt =====
-- cli/api/dbadapters/*execution_sql.ts and tasks.ts: the SQL that an action runs on its warehouse.
pub mod Types
pub mod Results
pub mod Tasks
pub mod Nonempty
pub mod Postgres
pub mod Supabase
pub mod Mysql
pub mod Bigquery
pub mod Dispatch
pub mod Examples
