-- ===== src/Runner/Tasks.antt =====
-- cli/api/commands/run.ts, `executeTask` and the loop of `executeAction` over an action's tasks.
pub mod Laws
pub mod Actions
use sqlanvil.Base.{
  ℕ, zero, suc, ◌+◌, Text, Option, none, some, Bool, true, false, List, ◌∷◌, [], ◌++◌, ◌&&◌, ◌||◌,
  not, if◌then◌else◌, length, drop, ltb,
}
use sqlanvil.Targets.{Target}
use sqlanvil.Runner.Retry.{Outcome, returned, threw, Settled, fulfilled, rejected, retry}
use sqlanvil.Runner.State.{
  TaskStatus, ActionStatus, TaskType, statement, operation, assertion, export_, import_, script,
  extract, Message, export_error, import_error, script_error, extract_error, warehouse_error,
  setting_metadata_error, script_needs_project_dir, extract_needs_column_types, no_attempt_made,
  assertion_failed, skipped_after_cancellation, TaskResult, ActionResult, ExecutionTask,
  ExecutionAction, Runner, is_running,
}

-- What the outside does while one task runs. `execute` is the n-th attempt of `client.execute`,
-- whose rows are read as the row count of an assertion; `runner_side` is the exporter, importer,
-- script runner or extractor. The runner's flags are those that the loop reads before the task,
-- and `cancelled_after` is the one that the task's `catch` reads.
pub record World : Type 0 where
  pub stopped : Bool
  pub cancelled : Bool
  pub skip_reason : Option Message
  pub execute : ℕ → Outcome Text ℕ
  pub runner_side : Outcome Text (Unit {0})
  pub has_column_types : Bool
  pub cancelled_after : Bool

pub record Options : Type 0 where
  pub dry_run : Bool
  pub action_retry_limit : Option ℕ
  pub has_project_dir : Bool
  pub disable_set_metadata : Bool

-- `task.type === "operation" ? 1 : options.bigquery.actionRetryLimit + 1 || 1`
unfoldable pub max_attempts : Options → TaskType → ℕ
max_attempts o operation = 1
max_attempts o _ = elim o.action_retry_limit [ none ↦ 1 | some n ↦ n + 1 ]

-- The `catch` of a task.
abbrev pub fail : World → Message → TaskResult
fail w message = record {
  status = if w.cancelled_after then TaskStatus.cancelled else TaskStatus.failed;
  error_message = some message;
}

abbrev pub succeed : TaskResult
succeed = record { status = TaskStatus.successful; error_message = none }

-- `try { await f(); … } catch (e) { … }` around a runner-side call.
abbrev pub guarded : World → (Text → Message) → Outcome Text (Unit {0}) → TaskResult
guarded w wrap (returned _) = succeed
guarded w wrap (threw e) = fail w (wrap e)

-- What follows the `retry`: an assertion fails when its query counts rows. `max_attempts` is never
-- 0, so the loop of `retry` has run and its error is defined.
abbrev pub settle_statement : World → TaskType → Settled Text ℕ → TaskResult
settle_statement w assertion (fulfilled rows) =
    if ltb 0 rows then fail w (assertion_failed rows) else succeed
settle_statement w _ (fulfilled rows) = succeed
settle_statement w _ (rejected (some e)) = fail w (warehouse_error e)
settle_statement w _ (rejected none) = fail w no_attempt_made

-- The last branch of `executeTask`: the statement runs on the warehouse, with retries.
unfoldable pub execute_statement : Options → World → TaskType → TaskResult
unfolding retry max_attempts
execute_statement o w type =
    settle_statement w type (retry w.execute (λ _. true) (max_attempts o type))

-- `executeTask`
unfoldable pub execute_task : Options → World → TaskType → TaskResult
unfolding execute_statement
execute_task o w export_ = guarded w export_error w.runner_side
execute_task o w import_ = guarded w import_error w.runner_side
execute_task o w script =
    if o.has_project_dir
    then guarded w script_error w.runner_side
    else fail w script_needs_project_dir
execute_task o w extract =
    if w.has_column_types
    then guarded w extract_error w.runner_side
    else fail w extract_needs_column_types
execute_task o w assertion = if o.dry_run then succeed else execute_statement o w assertion
execute_task o w statement = execute_statement o w statement
execute_task o w operation = execute_statement o w operation

-- What the loop pushes for a task that it does not run.
abbrev pub skip : World → TaskResult
skip w = record {
  status = TaskStatus.skipped;
  error_message = elim w.skip_reason [ none ↦ some skipped_after_cancellation | some m ↦ some m ];
}

-- The status of the action after a task.
abbrev pub status_after : ActionStatus → TaskStatus → ActionStatus
status_after s TaskStatus.failed = ActionStatus.failed
status_after s TaskStatus.cancelled = ActionStatus.cancelled
status_after s _ = s

-- One round of the loop.
unfoldable pub visit_task : Options → World → ActionStatus → TaskType → ActionStatus × TaskResult
visit_task o w status type =
    if is_running status && not w.cancelled
    then (let result = execute_task o w type in (status_after status result.status, result))
    else (status, skip w)

-- The loop: the final status of the action, and the results that were pushed.
unfoldable pub run_tasks :
    Options → (ℕ → World) → ℕ → ActionStatus → List ExecutionTask → ActionStatus × List TaskResult
unfolding visit_task
run_tasks o worlds i status [] = (status, [])
run_tasks o worlds i status (t ∷ ts) = elim ((worlds i).stopped) [
  | true ↦ (status, [])
  | false ↦
      let (next, result) = visit_task o (worlds i) status t.type in
      let (last, results) = run_tasks o worlds (i + 1) next ts in (last, result ∷ results)
]

-- The error of `setMetadata` is put on the last task.
unfoldable pub blame_last : Text → List TaskResult → List TaskResult
blame_last e [] = []
blame_last e (t ∷ []) =
    record { status = TaskStatus.failed; error_message = some (setting_metadata_error e) } ∷ []
blame_last e (t ∷ u ∷ us) = t ∷ blame_last e (u ∷ us)

-- What happens to the action outside of its tasks. `lock` is what `withClientLock` gives where the
-- action's own call does not throw: it is rejected where no client is given, or its release fails.
pub record Ending : Type 0 where
  pub lock : Outcome Text (Unit {0})
  pub stopped : Bool
  pub set_metadata : Outcome Text (Unit {0})

abbrev pub wants_metadata : Options → ExecutionAction → ActionStatus → Bool
wants_metadata o action status =
    action.has_descriptor
    && is_running status
    && not o.disable_set_metadata
    && not o.dry_run
    && action.is_table

abbrev pub completed : ActionStatus → ActionStatus
completed s = if is_running s then ActionStatus.successful else s

-- `executeAction` after the loop.
unfoldable pub end_action :
    Options → Ending → ExecutionAction → ActionStatus → List TaskResult → ActionResult
unfolding blame_last
end_action o ending action status tasks =
    let result = λ (s : ActionStatus) (ts : List TaskResult).
      let r : ActionResult = record { target = action.target; status = s; tasks = ts } in r in
    if ending.stopped
    then result status tasks
    else if wants_metadata o action status
    then (elim ending.set_metadata [
      | returned _ ↦ result ActionStatus.successful tasks
      | threw e ↦ result ActionStatus.failed (blame_last e tasks)
    ])
    else result (completed status) tasks

-- The body of `executeAction` under a lock that is not rejected: an action without tasks is disabled, any other runs the tasks that
-- have no result yet.
unfoldable pub perform :
    Options
    → (ℕ → World)
    → Ending
    → ExecutionAction
    → List TaskResult
    → List ExecutionTask
    → ActionResult
perform o worlds ending action resumed [] = record {
  target = action.target;
  status = ActionStatus.disabled;
  tasks = [];
}
perform o worlds ending action resumed (t ∷ ts) =
    let (status, results) =
      run_tasks o worlds 0 ActionStatus.running (drop (length resumed) (t ∷ ts)) in
    end_action o ending action status (resumed ++ results)

-- An action without tasks asks for no lock; any other is rejected with its lock.
abbrev pub locked :
    Outcome Text (Unit {0}) → List ExecutionTask → ActionResult → Outcome Text ActionResult
locked lock [] result = returned result
locked (returned _) (t ∷ ts) result = returned result
locked (threw e) (t ∷ ts) result = threw e

-- `executeAction`, with the task results of an interrupted run of the action.
unfoldable pub execute_action :
    Options → (ℕ → World) → Ending → ExecutionAction → List TaskResult → Outcome Text ActionResult
unfolding perform run_tasks end_action
execute_action o worlds ending action resumed =
    locked ending.lock action.tasks (perform o worlds ending action resumed action.tasks)
