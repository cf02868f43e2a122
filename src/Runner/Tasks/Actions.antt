-- ===== src/Runner/Tasks/Actions.antt =====
-- cli/api/commands/run.ts, `executeAction`: the result of an action against those of its tasks.
use sqlanvil.Base.{
  ℕ, suc, ◌+◌, ◌≤◌, ◌≡◌, refl, ◌≢◌, ◌⊎◌, inl, Text, true, false, List, ◌∷◌, [], ◌++◌, length, drop,
  arith, length-append, sym, ap, ◌↔◌, subst, if◌then◌else◌,
}
use sqlanvil.Runner.Retry.{Outcome, returned, threw}
use sqlanvil.Runner.State.{
  TaskStatus, ActionStatus, TaskResult, ActionResult, ExecutionTask, ExecutionAction, is_running,
}
use sqlanvil.Runner.Tasks.{
  World, Options, Ending, locked, execute_task, run_tasks, blame_last, end_action, perform,
  execute_action,
}
use sqlanvil.Runner.Tasks.Laws.{
  IsMonotone, NeverStopped, AllSkipped, IsRun, execute_task-Ran, run_tasks-length,
  run_tasks-AllSkipped_settled, run_tasks-AllSkipped_cancelled, run_tasks-IsRun,
}

length-blame_last : (e : Text) (rs : List TaskResult) → length (blame_last e rs) ≡ length rs
unfolding blame_last
length-blame_last e [] = refl
length-blame_last e (r ∷ []) = refl
length-blame_last e (r ∷ u ∷ us) = ap suc (length-blame_last e (u ∷ us))

length-drop {ℓ κ} :
    {A : Type ℓ} {B : Type κ} (done : List B) (xs : List A)
    → length done ≤ length xs
    → length done + length (drop (length done) xs) ≡ length xs
length-drop [] xs h = omega arith
length-drop (d ∷ done) [] h = omega arith
length-drop (d ∷ done) (x ∷ xs) h = omega (arith, length-drop done xs (omega arith))

abbrev pub AllSuccessful : List TaskResult → Type 0
AllSuccessful [] = Unit
AllSuccessful (r ∷ rs) = (r.status ≡ TaskStatus.successful) × AllSuccessful rs

-- The action is reported as successful, and behind its first task stand `n` skipped ones.
abbrev pub ReportsSkipped : ℕ → ActionResult → Type 0
ReportsSkipped n r =
    (r.status ≡ ActionStatus.successful)
    × (first : TaskResult) × (rest : List TaskResult) × (r.tasks ≡ first ∷ rest)
    × AllSkipped rest
    × (length rest ≡ n)

-- `executeAction` is not rejected, and its result has a property.
abbrev pub Returns : Outcome Text ActionResult → (ActionResult → Type 0) → Type 0
Returns (returned r) P = P r
Returns (threw e) P = ⊥

Returns-locked :
    (lock : Outcome Text (Unit {0})) (ts : List ExecutionTask) (r : ActionResult)
    (P : ActionResult → Type 0)
    → lock ≡ returned tt
    → P r
    → Returns (locked lock ts r) P
Returns-locked lock [] r P granted h = h
Returns-locked (returned _) (t ∷ ts) r P granted h = h
Returns-locked (threw e) (t ∷ ts) r P granted h = absurd (cc granted)

module _ (o : Options) (worlds : ℕ → World) where
  length-end_action :
      (ending : Ending) (action : ExecutionAction) (s : ActionStatus) (rs : List TaskResult)
      → length (end_action o ending action s rs).tasks ≡ length rs
  unfolding end_action
  length-end_action ending action s rs =
      elim (ending.set_metadata)
        as (λ m.
          length (end_action o (record ending { set_metadata = m }) action s rs).tasks
          ≡ length rs) [
            | returned _ ↦ ground arith
            | threw e ↦ ground (arith, length-blame_last e rs)
          ]

  run_tasks-successful_iff :
      (ts : List ExecutionTask) (i : ℕ)
      → NeverStopped worlds
      → ((j : ℕ) → (worlds j).cancelled ≡ false)
      → ((run_tasks o worlds i ActionStatus.running ts).0 ≡ ActionStatus.running)
        ↔ AllSuccessful (run_tasks o worlds i ActionStatus.running ts).1
  unfolding run_tasks
  run_tasks-successful_iff [] i never kept = (λ _. tt, λ _. refl)
  run_tasks-successful_iff (t ∷ ts) i never kept = ground (
    arith,
    never i,
    kept i,
    execute_task-Ran o (worlds i) t.type,
    run_tasks-successful_iff ts (i + 1) never kept,
    run_tasks-AllSkipped_settled o worlds ts (i + 1) ActionStatus.failed refl,
    run_tasks-AllSkipped_settled o worlds ts (i + 1) ActionStatus.cancelled refl,
  )

  run_tasks_statuses :
      (ts : List ExecutionTask) (i : ℕ)
      → ((run_tasks o worlds i ActionStatus.running ts).0 ≡ ActionStatus.running)
        ⊎ ((run_tasks o worlds i ActionStatus.running ts).0 ≡ ActionStatus.failed)
        ⊎ ((run_tasks o worlds i ActionStatus.running ts).0 ≡ ActionStatus.cancelled)
  unfolding run_tasks
  run_tasks_statuses [] i = inl refl
  run_tasks_statuses (t ∷ ts) i = ground (
    arith,
    execute_task-Ran o (worlds i) t.type,
    run_tasks_statuses ts (i + 1),
    run_tasks-AllSkipped_settled o worlds ts (i + 1) ActionStatus.failed refl,
    run_tasks-AllSkipped_settled o worlds ts (i + 1) ActionStatus.cancelled refl,
  )

  run_tasks-first :
      (t : ExecutionTask) (ts : List ExecutionTask)
      → (worlds 0).stopped ≡ false
      → (worlds 0).cancelled ≡ false
      → (execute_task o (worlds 0) t.type).status ≡ TaskStatus.successful
      → let rest = run_tasks o worlds 1 ActionStatus.running ts in
        run_tasks o worlds 0 ActionStatus.running (t ∷ ts)
        ≡ (rest.0, execute_task o (worlds 0) t.type ∷ rest.1)
  unfolding run_tasks
  run_tasks-first t ts going fresh good = ground arith

  end_action-settled :
      (ending : Ending) (action : ExecutionAction) (s : ActionStatus) (rs : List TaskResult)
      → ending.stopped ≡ false
      → (end_action o ending action s rs).status ≢ ActionStatus.running
  unfolding end_action
  end_action-settled ending action s rs going = ground arith

  -- With no failure of `setMetadata`, the end keeps the tasks and turns running into successful.
  end_action-fine :
      (ending : Ending) (action : ExecutionAction) (s : ActionStatus) (rs : List TaskResult)
      → ending.set_metadata ≡ returned tt
      → ending.stopped ≡ false
      → ((end_action o ending action s rs).tasks ≡ rs)
        × ((end_action o ending action s rs).status
            ≡ (if is_running s then ActionStatus.successful else s))
  unfolding end_action
  end_action-fine ending action s rs fine going = ground arith

  end_action-keeps :
      (ending : Ending) (action : ExecutionAction) (s : ActionStatus) (rs : List TaskResult)
      → ending.set_metadata ≡ returned tt
      → (end_action o ending action s rs).tasks ≡ rs
  unfolding end_action
  end_action-keeps ending action s rs fine = ground arith

  module _ (ending : Ending) (action : ExecutionAction) where
    perform-length :
        (resumed : List TaskResult) (ts : List ExecutionTask)
        → length resumed ≤ length ts
        → NeverStopped worlds
        → ending.stopped ≡ false
        → (length (perform o worlds ending action resumed ts).tasks ≡ length ts)
          × ((perform o worlds ending action resumed ts).status ≢ ActionStatus.running)
    unfolding perform
    perform-length resumed [] fits never going = ground arith
    perform-length resumed (t ∷ ts) fits never going =
        let left = drop (length resumed) (t ∷ ts) in
        let (s, rs) = run_tasks o worlds 0 ActionStatus.running left in
        (
          omega (
            arith,
            length-end_action ending action s (resumed ++ rs),
            length-append resumed rs,
            run_tasks-length o worlds left 0 ActionStatus.running never,
            length-drop resumed (t ∷ ts) fits,
          ),
          end_action-settled ending action s (resumed ++ rs) going,
        )

    perform-IsRun :
        (ts : List ExecutionTask)
        → IsMonotone worlds
        → ending.set_metadata ≡ returned tt
        → IsRun (perform o worlds ending action [] ts).tasks
    unfolding perform
    perform-IsRun [] mono fine = tt
    perform-IsRun (t ∷ ts) mono fine =
        rw (end_action-keeps ending action _ _ fine) (run_tasks-IsRun o worlds (t ∷ ts) 0 mono)

    perform-successful_iff :
        (ts : List ExecutionTask)
        → ts ≢ []
        → NeverStopped worlds
        → ((j : ℕ) → (worlds j).cancelled ≡ false)
        → ending.stopped ≡ false
        → ending.set_metadata ≡ returned tt
        → ((perform o worlds ending action [] ts).status ≡ ActionStatus.successful)
          ↔ AllSuccessful (perform o worlds ending action [] ts).tasks
    unfolding perform
    perform-successful_iff [] some_tasks never kept going fine = absurd (some_tasks refl)
    perform-successful_iff (t ∷ ts) some_tasks never kept going fine =
        let (s, rs) = run_tasks o worlds 0 ActionStatus.running (t ∷ ts) in
        ground (
          arith,
          end_action-fine ending action s rs fine going,
          run_tasks-successful_iff (t ∷ ts) 0 never kept,
          run_tasks_statuses (t ∷ ts) 0,
        )

    perform-successful_skipped :
        (t u : ExecutionTask) (us : List ExecutionTask)
        → NeverStopped worlds
        → IsMonotone worlds
        → (worlds 0).cancelled ≡ false
        → (execute_task o (worlds 0) t.type).status ≡ TaskStatus.successful
        → (worlds 1).cancelled ≡ true
        → ending.stopped ≡ false
        → ending.set_metadata ≡ returned tt
        → ReportsSkipped (suc (length us)) (perform o worlds ending action [] (t ∷ u ∷ us))
    unfolding perform
    perform-successful_skipped t u us never mono fresh good gone going fine =
        let first = execute_task o (worlds 0) t.type in
        let (s, rs) = run_tasks o worlds 1 ActionStatus.running (u ∷ us) in
        let (skipped, kept) =
          run_tasks-AllSkipped_cancelled o worlds (u ∷ us) 1 ActionStatus.running mono gone in
        let count = run_tasks-length o worlds (u ∷ us) 1 ActionStatus.running never in
        let (same, ends) = end_action-fine ending action s (first ∷ rs) fine going in
        rw (run_tasks-first t (u ∷ us) (never 0) fresh good)
          (ground arith, first, rs, same, skipped, count)

    -- Where nothing stops the runner and the client's lock is given, an action that resumes after some of its tasks ends with one
    -- result for each task, and with a status that is no longer running.
    pub execute_action-length :
        (resumed : List TaskResult)
        → length resumed ≤ length action.tasks
        → NeverStopped worlds
        → ending.stopped ≡ false
        → ending.lock ≡ returned tt
        → Returns
            (execute_action o worlds ending action resumed)
            (λ r. (length r.tasks ≡ length action.tasks) × (r.status ≢ ActionStatus.running))
    unfolding execute_action
    execute_action-length resumed fits never going granted =
        Returns-locked ending.lock action.tasks _ _ granted
          (perform-length resumed action.tasks fits never going)

    -- A fresh action's results are successes, then at most one task that failed or was cancelled,
    -- then skipped tasks only; where neither the client's lock nor `setMetadata` fails.
    pub execute_action-IsRun :
        IsMonotone worlds
        → ending.set_metadata ≡ returned tt
        → ending.lock ≡ returned tt
        → Returns (execute_action o worlds ending action []) (λ r. IsRun r.tasks)
    unfolding execute_action
    execute_action-IsRun mono fine granted =
        Returns-locked ending.lock action.tasks _ _ granted (perform-IsRun action.tasks mono fine)

    -- In a run that is neither stopped nor cancelled, and where neither the client's lock nor
    -- `setMetadata` fails, an action with tasks is successful exactly when each of its tasks is.
    pub execute_action-successful_iff :
        action.tasks ≢ []
        → NeverStopped worlds
        → ((j : ℕ) → (worlds j).cancelled ≡ false)
        → ending.stopped ≡ false
        → ending.set_metadata ≡ returned tt
        → ending.lock ≡ returned tt
        → Returns
            (execute_action o worlds ending action [])
            (λ r. (r.status ≡ ActionStatus.successful) ↔ AllSuccessful r.tasks)
    unfolding execute_action
    execute_action-successful_iff some_tasks never kept going fine granted =
        Returns-locked ending.lock action.tasks _ _ granted
          (perform-successful_iff action.tasks some_tasks never kept going fine)

    -- A run that is cancelled while the first task of an action succeeds skips the other tasks, and
    -- still reports the action as successful; where neither the client's lock nor `setMetadata` fails.
    pub execute_action-successful_skipped :
        (t u : ExecutionTask) (us : List ExecutionTask)
        → action.tasks ≡ t ∷ u ∷ us
        → NeverStopped worlds
        → IsMonotone worlds
        → (worlds 0).cancelled ≡ false
        → (execute_task o (worlds 0) t.type).status ≡ TaskStatus.successful
        → (worlds 1).cancelled ≡ true
        → ending.stopped ≡ false
        → ending.set_metadata ≡ returned tt
        → ending.lock ≡ returned tt
        → Returns (execute_action o worlds ending action []) (ReportsSkipped (suc (length us)))
    unfolding execute_action
    execute_action-successful_skipped t u us e never mono fresh good gone going fine granted =
        Returns-locked ending.lock action.tasks _ _ granted (
          subst (λ ts. ReportsSkipped (suc (length us)) (perform o worlds ending action [] ts))
            (sym e) (perform-successful_skipped t u us never mono fresh good gone going fine))
