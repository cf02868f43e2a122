-- ===== src/Runner/Tasks/Laws.antt =====
-- cli/api/commands/run.ts: what the loop over an action's tasks and its ending leave behind.
use sqlanvil.Base.{
  ℕ, suc, ◌+◌, ◌≤◌, ◌≡◌, refl, ◌≢◌, ◌⊎◌, inl, Text, Option, none, some, true, false, List, ◌∷◌, [],
  length, arith, ap,
}
use sqlanvil.Runner.Retry.{Settled, fulfilled, rejected}
use sqlanvil.Runner.State.{
  TaskStatus, ActionStatus, TaskType, statement, operation, assertion, TaskResult, ExecutionTask,
  is_running,
}
use sqlanvil.Runner.Tasks.{
  World, Options, max_attempts, settle_statement, execute_statement, execute_task, run_tasks,
}

-- The flag of a cancelled run is never taken back.
abbrev pub IsMonotone : (ℕ → World) → Type 0
IsMonotone worlds = (i : ℕ) → (worlds i).cancelled ≡ true → (worlds (i + 1)).cancelled ≡ true

abbrev pub NeverStopped : (ℕ → World) → Type 0
NeverStopped worlds = (i : ℕ) → (worlds i).stopped ≡ false

-- Every task was skipped.
abbrev pub AllSkipped : List TaskResult → Type 0
AllSkipped [] = Unit
AllSkipped (r ∷ rs) = (r.status ≡ TaskStatus.skipped) × AllSkipped rs

-- Successes, then at most one failed or cancelled task, then skipped tasks only.
abbrev pub IsRun : List TaskResult → Type 0
IsRun [] = Unit
IsRun (r ∷ rs) =
    (r.status ≡ TaskStatus.successful) × IsRun rs ⊎ (r.status ≢ TaskStatus.running) × AllSkipped rs

attempts_positive : (o : Options) (t : TaskType) → 1 ≤ max_attempts o t
unfolding max_attempts
attempts_positive o operation = omega arith
attempts_positive o _ = ground arith

module _ (o : Options) (worlds : ℕ → World) where
  pub run_tasks-length :
      (ts : List ExecutionTask) (i : ℕ) (s : ActionStatus)
      → NeverStopped worlds
      → length (run_tasks o worlds i s ts).1 ≡ length ts
  unfolding run_tasks
  run_tasks-length [] i s never = refl
  run_tasks-length (t ∷ ts) i s never =
      rw (run_tasks, never i) (ap suc (run_tasks-length ts (i + 1) _ never))

  -- Once the action is no longer running, or the run is cancelled, all that is left is skipped.
  pub run_tasks-AllSkipped_settled :
      (ts : List ExecutionTask) (i : ℕ) (s : ActionStatus)
      → is_running s ≡ false
      → AllSkipped (run_tasks o worlds i s ts).1 × ((run_tasks o worlds i s ts).0 ≡ s)
  unfolding run_tasks
  run_tasks-AllSkipped_settled [] i s h = (tt, refl)
  run_tasks-AllSkipped_settled (t ∷ ts) i s h =
      ground (arith, run_tasks-AllSkipped_settled ts (i + 1) s h)

  pub run_tasks-AllSkipped_cancelled :
      (ts : List ExecutionTask) (i : ℕ) (s : ActionStatus)
      → IsMonotone worlds
      → (worlds i).cancelled ≡ true
      → AllSkipped (run_tasks o worlds i s ts).1 × ((run_tasks o worlds i s ts).0 ≡ s)
  unfolding run_tasks
  run_tasks-AllSkipped_cancelled [] i s mono h = (tt, refl)
  run_tasks-AllSkipped_cancelled (t ∷ ts) i s mono h =
      ground (arith, run_tasks-AllSkipped_cancelled ts (i + 1) s mono (mono i h))

-- A task that has run is successful, failed or cancelled.
abbrev pub Ran : TaskStatus → Type 0
Ran s = (s ≡ TaskStatus.successful) ⊎ (s ≡ TaskStatus.failed) ⊎ (s ≡ TaskStatus.cancelled)

fulfilled-Ran :
    (w : World) (t : TaskType) (rows : ℕ) → Ran (settle_statement w t (fulfilled rows)).status
fulfilled-Ran w assertion rows = ground arith
fulfilled-Ran w _ rows = inl refl

rejected-Ran :
    (w : World) (t : TaskType) (e : Option Text) → Ran (settle_statement w t (rejected e)).status
rejected-Ran w assertion none = ground arith
rejected-Ran w assertion (some e) = ground arith
rejected-Ran w _ none = ground arith
rejected-Ran w _ (some e) = ground arith

settle_statement-Ran :
    (w : World) (t : TaskType) (r : Settled Text ℕ) → Ran (settle_statement w t r).status
settle_statement-Ran w t (fulfilled rows) = fulfilled-Ran w t rows
settle_statement-Ran w t (rejected e) = rejected-Ran w t e

execute_statement-Ran :
    (o : Options) (w : World) (t : TaskType) → Ran (execute_statement o w t).status
unfolding execute_statement
execute_statement-Ran o w t = settle_statement-Ran w t _

pub execute_task-Ran : (o : Options) (w : World) (t : TaskType) → Ran (execute_task o w t).status
unfolding execute_task
execute_task-Ran o w statement = execute_statement-Ran o w statement
execute_task-Ran o w operation = execute_statement-Ran o w operation
execute_task-Ran o w assertion = ground (arith, execute_statement-Ran o w assertion)
execute_task-Ran o w _ = ground arith

module _ (o : Options) (worlds : ℕ → World) where
  pub run_tasks-IsRun :
      (ts : List ExecutionTask) (i : ℕ)
      → IsMonotone worlds
      → IsRun (run_tasks o worlds i ActionStatus.running ts).1
  unfolding run_tasks
  run_tasks-IsRun [] i mono = tt
  run_tasks-IsRun (t ∷ ts) i mono = ground (
    arith,
    execute_task-Ran o (worlds i) t.type,
    mono i,
    run_tasks-IsRun ts (i + 1) mono,
    run_tasks-AllSkipped_settled o worlds ts (i + 1) ActionStatus.failed refl,
    run_tasks-AllSkipped_settled o worlds ts (i + 1) ActionStatus.cancelled refl,
    run_tasks-AllSkipped_cancelled o worlds ts (i + 1) ActionStatus.running mono,
  )
