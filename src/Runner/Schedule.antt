-- ===== src/Runner/Schedule.antt =====
-- cli/api/commands/run.ts, `executeAllActionsReadyForExecution` and `executeGraph`. Between two
-- waits the program runs one call of these functions, so a run is a sequence of the steps below.
pub mod Partition
pub mod Reports
pub mod Invariant
pub mod Settling
pub mod Safety
pub mod Stranded
pub mod Stuck
use sqlanvil.Base.{
  ℕ, zero, suc, ◌+◌, Option, none, some, Bool, true, false, List, ◌∷◌, [], ◌++◌, ◌≡◌, ◌&&◌, ◌||◌,
  not, if◌then◌else◌, length, map, filter_by, every, any, contains, add, ◌==◌,
}
use sqlanvil.Base.{Text}
use sqlanvil.Targets.{Target, target_eq}
use sqlanvil.Runner.Retry.{returned}
use sqlanvil.Runner.Tasks.{World, Options, Ending, execute_action}
use sqlanvil.Runner.State.{
  TaskStatus, ActionStatus, RunStatus, CancelReason, Message, cancelled_before_start, TaskResult,
  ActionResult, ExecutionTask, ExecutionAction, Runner, is_successful_action, is_failed, stop,
  cancel, time_out,
}

-- Every dependency is not in the graph, or is in `done`.
abbrev pub satisfied : List Target → List Target → ExecutionAction → Bool
satisfied all done a = every (λ d. not (contains all d) || contains done d) a.dependency_targets

abbrev pub is_executable : Runner → ExecutionAction → Bool
is_executable r a = satisfied r.all_action_targets r.successful a

abbrev pub is_skippable : Runner → ExecutionAction → Bool
is_skippable r a = not (is_executable r a) && satisfied r.all_action_targets r.executed a

abbrev pub is_still_pending : Runner → ExecutionAction → Bool
is_still_pending r a = not (is_executable r a) && not (satisfied r.all_action_targets r.executed a)

abbrev pub skipped_task : Option Message → TaskResult
skipped_task message = record { status = TaskStatus.skipped; error_message = message }

-- The result of a pending action when the run is cancelled: the first task carries the reason.
unfoldable pub cancelled_result : Runner → ExecutionAction → ActionResult
cancelled_result r a =
    let reason : Message = elim r.skip_reason [ none ↦ cancelled_before_start | some m ↦ m ] in
    let tasks : List TaskResult = elim (a.tasks) [
      | [] ↦ skipped_task (some reason) ∷ []
      | _ ∷ ts ↦ skipped_task (some reason) ∷ map (λ (_ : ExecutionTask). skipped_task none) ts
    ] in
    record { target = a.target; status = ActionStatus.skipped; tasks = tasks }

unfoldable pub skipped_result : ExecutionAction → ActionResult
skipped_result a = record {
  target = a.target;
  status = ActionStatus.skipped;
  tasks = map (λ (_ : ExecutionTask). skipped_task none) a.tasks;
}

-- The branch of a cancelled run: every pending action is reported as skipped.
unfoldable pub cancel_pending : Runner → Runner
unfolding cancelled_result
cancel_pending r = record r {
  pending = [];
  results = r.results ++ map (cancelled_result r) r.pending;
}

-- The start of `executeAction`: an action without tasks is reported as disabled at once; any other
-- goes on with the result of an interrupted run of it, if there is one, or pushes a new one.
abbrev pub has_result : List ActionResult → Target → Bool
has_result [] t = false
has_result (a ∷ as') t = a.target == t || has_result as' t

-- The first result of the target, replaced.
abbrev pub settle_result : Target → ActionResult → List ActionResult → List ActionResult
settle_result t new [] = []
settle_result t new (a ∷ as') = if a.target == t then new ∷ as' else a ∷ settle_result t new as'

abbrev pub mark_running : Target → List ActionResult → List ActionResult
mark_running t [] = []
mark_running t (a ∷ as') =
    if a.target == t
    then record a { status = ActionStatus.running } ∷ as'
    else a ∷ mark_running t as'

unfoldable pub started_results : List ActionResult → Target → List ExecutionTask → List ActionResult
started_results results t [] =
    results ++ record { target = t; status = ActionStatus.disabled; tasks = [] } ∷ []
started_results results t (_ ∷ _) =
    if has_result results t
    then mark_running t results
    else results ++ record { target = t; status = ActionStatus.running; tasks = [] } ∷ []

unfoldable pub start_action : ExecutionAction → Runner → Runner
unfolding started_results
start_action a r = record r {
  results = started_results r.results a.target a.tasks;
  in_flight = r.in_flight ++ a ∷ [];
}

unfoldable pub start_all : List ExecutionAction → Runner → Runner
unfolding start_action
start_all [] r = r
start_all (a ∷ as') r = start_all as' (start_action a r)

-- The pending actions are split by what they wait for, and those that cannot run are skipped.
unfoldable pub partition : Runner → Runner
unfolding skipped_result
partition r = record r {
  pending = filter_by (is_still_pending r) r.pending;
  results = r.results ++ map skipped_result (filter_by (is_skippable r) r.pending);
}

-- `executeAllActionsReadyForExecution` up to its first wait. It calls itself where an action was
-- skipped, before it starts the executable actions; the fuel bounds the depth of these calls.
unfoldable pub execute_all : ℕ → Runner → Runner
unfolding cancel_pending partition start_all
execute_all zero r = r
execute_all (suc fuel) r =
    let again = execute_all fuel (partition r) in
    let executable = filter_by (is_executable r) r.pending in
    if r.stopped
    then r
    else if r.cancelled
    then cancel_pending r
    else if any (is_skippable r) r.pending
    then start_all executable again
    else start_all executable (partition r)

-- Enough for any number of pending actions.
abbrev pub fuel_of : Runner → ℕ
fuel_of r = suc (length r.pending)

abbrev pub execute_ready : Runner → Runner
execute_ready r = execute_all (fuel_of r) r

-- `actionResult` is one object: the result that `executeAction` pushed or found is the one that it
-- fills in. The result of an action without tasks is complete when it is pushed.
abbrev pub settled_results :
    Target → List ExecutionTask → ActionResult → List ActionResult → List ActionResult
settled_results t [] result results = results
settled_results t (_ ∷ _) result results = settle_result t result results

-- The sets and results once the `executeAction` of `a` has settled with `result`; `rest` is what
-- else is in flight.
unfoldable pub settled_state :
    ExecutionAction → ActionResult → List ExecutionAction → Runner → Runner
unfolding is_successful_action
settled_state a result rest r = record r {
  results = settled_results a.target a.tasks result r.results;
  in_flight = rest;
  executed = add r.executed a.target;
  successful =
      if is_successful_action result.status then add r.successful a.target else r.successful;
}

-- What runs when the `executeAction` of `a` settles: the rest of the callback of `Promise.all`.
unfoldable pub settle_action :
    ExecutionAction → ActionResult → List ExecutionAction → Runner → Runner
unfolding settled_state
settle_action a result rest r = execute_ready (settled_state a result rest r)

-- `result` is what `executeAction` can return for `a`. An action whose lock is rejected never settles:
-- the promise of the run is rejected, and the actions in flight go on.
pub record Returned (a : ExecutionAction) (result : ActionResult) : Type 0 where
  pub options : Options
  pub worlds : ℕ → World
  pub ending : Ending
  pub resumed : List TaskResult
  pub gives : returned result ≡ execute_action options worlds ending a resumed

-- The calls that the outside makes on a runner.
pub data Signal (r : Runner) : Runner → Type 0 where
  stops : Signal r (stop r)
  cancels : (millis : Option Text) (reason : CancelReason) → Signal r (cancel millis reason r)
  times_out : (millis : Option Text) → Signal r (time_out millis r)

pub data Signals (r : Runner) : Runner → Type 0 where
  silent : Signals r r
  signal : {s t : Runner} → Signals r s → Signal s t → Signals r t

-- One settled action, chosen from those in flight in any order.
pub data Settle (r : Runner) : Runner → Type 0 where
  settles :
      (before rest : List ExecutionAction) (a : ExecutionAction) (result : ActionResult)
      → r.in_flight ≡ before ++ a ∷ rest
      → Returned a result
      → Settle r (settle_action a result (before ++ rest) r)

-- The states of a runner from the first call of `executeAllActionsReadyForExecution` on.
pub data Reach (created : Runner) : Runner → Type 0 where
  begins : {r : Runner} → Signals created r → Reach created (execute_ready r)
  signalled : {r s : Runner} → Reach created r → Signal r s → Reach created s
  settled : {r s : Runner} → Reach created r → Settle r s → Reach created s

-- `executeGraph` after the call that executes the actions; a stopped run is returned as it is.
unfoldable pub final_status : Runner → RunStatus
final_status r =
    if r.stopped
    then RunStatus.running
    else if r.timed_out
    then RunStatus.timed_out
    else if r.cancelled
    then RunStatus.cancelled
    else if any (λ (a : ActionResult). is_failed a.status) r.results
    then RunStatus.failed
    else RunStatus.successful
