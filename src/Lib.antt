-- ===== src/Lib.antt =====
-- A verification library for sqlanvil, which compiles a project of SQL actions to a graph and runs
-- the graph against a warehouse.
--
-- The program has two halves. The compiler (core/) collects actions under targets, resolves the
-- references between them, prunes and renames them, and rejects duplicates. The runner (cli/)
-- selects actions of the compiled graph and executes them in the order of their dependencies.
-- A target (database, schema, name) is what connects them: its key indexes every set and map.
--
-- - Base: the shared names; JavaScript's sets and maps in insertion order, with equality as an
--   instance (Base/Keys), lists over the native numbers (Base/Lists). A JavaScript string is the
--   list of its UTF-16 code units.
-- - Targets: core/targets.ts and common/strings/stringifier.ts. A set of stringified targets is
--   modelled as a set of targets, which `stringify-injective` justifies.
-- - Resolvable: `ResolvableMap` of core/utils.ts, the index by which references find actions.
-- - Session: the passes of `Session.compile` in core/session.ts. Graph holds the compiled graph;
--   Depend models `findActions` and `fullyQualifyDependencies`, Extracts
--   `removeUnreferencedExtracts`, Rename `alterActionName`, Resolve
--   `resolve`, Unique the uniqueness checks. An indexed action is represented by its target.
--   Create makes the lists of the graph (`compileGraphChunk`), Cycles models `checkCircularity`, and
--   Compile composes the passes to `compile`;
--   what actions compile to, `getCallerFile` and the cycle search of the tarjan-graph package are
--   parameters, and tests are not put into the graph (`includeTestsInCompiledGraph`).
-- - CompilationSql: core/compilation_sql/index.ts, and readers of SQL literals that stand for the
--   lexers of the warehouses.
-- - SqlLex: cli/api/commands/sql_lex.ts. The source moves an index; a scanner here takes the text
--   from the index on and returns a length, by recursion on the text, so the tokenizer needs no fuel.
--   Scopes and Relations model brackets, scopes, lists and relations over the tokens; `relationsIn`
--   takes as many rounds as its range has tokens, and each round moves its index on.
-- - ExecSql: the SQL generators of cli/api/dbadapters. Types holds what they read of an action, the
--   run and the warehouse; Tasks models tasks.ts; Postgres, Supabase, Mysql and Bigquery the four
--   generators and Dispatch execution_sql.ts. A generator gives a list of statements, each the name of
--   a template with its values, and a Print module has the templates. A call that may throw gives a
--   `Result`.
-- - Build: cli/api/commands/build.ts and state.ts. `build` is `prune`, then `state` for the tables
--   that are left, then `Builder`; the adapter's `table` is a parameter.
-- - Prune: `matchPatterns` of core/utils.ts and cli/api/commands/prune.ts. The two walks take fuel:
--   each name is pushed once, so the number of the names is enough.
-- - Paths: core/path.ts.
-- - ValidateGraph: cli/api/commands/validate_graph.ts. `topoOrder` takes fuel: a key enters the queue
--   at first or for one of its dependencies, so `rounds` counts enough.
-- - Runner: cli/api/commands/run.ts. State is the object's fields; Tasks is `executeTask` and
--   `executeAction` against a `World` that answers each call of the outside; Schedule is
--   `executeAllActionsReadyForExecution` and `executeGraph`, where a run is a sequence of steps
--   (the first call, calls of `stop` and `cancel`, and actions that settle in any order); Slots is
--   the cap on extracts; Schemas is `prepareAllSchemas`; Retry is `retry` of
--   common/promises/index.ts. `execute_all` takes fuel for its calls of itself, and one more than
--   the number of pending actions is enough.
--
-- The Examples modules evaluate the models on small inputs.
--
-- Not modelled: notifications, timings and job labels, which no decision reads; the warehouses, the
-- object stores, the file system and the JavaScript sandbox, which are parameters where a model
-- needs them; the command line and the editor extension.
pub mod Base
pub mod Targets
pub mod ValidateGraph
pub mod Runner
pub mod Resolvable
pub mod Session
pub mod CompilationSql
pub mod ExecSql
pub mod Build
pub mod SqlLex
pub mod Prune
pub mod Paths
