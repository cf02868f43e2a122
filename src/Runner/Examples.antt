-- ===== src/Runner/Examples.antt =====
-- Runs of the models of cli/api/commands/run.ts and common/promises/index.ts on small inputs.
use sqlanvil.Base.{
  ℕ, ◌+◌, ◌≤◌, ◌≡◌, refl, ◌≢◌, ◌↔◌, Text, none, some, Bool, true, false, List, ◌∷◌, [], not, ◌&&◌,
  arith, count, contains, All, ==_iff, if◌then◌else◌, ltb, text_eq,
}
use mathlib.Core.List.{Memᴰ}
use sqlanvil.Targets.{Target, target_eq, target_beq}
use sqlanvil.Runner.Retry.{Outcome, returned, threw, retry}
use sqlanvil.Runner.Slots.{Slots, idle, acquire, Steps, start, next, acquires}
use sqlanvil.Runner.Slots.Laws.{IsCapped, Steps-IsCapped, overshoot}
use sqlanvil.Runner.State.{
  TaskStatus, ActionStatus, statement, ActionResult, ExecutionTask, ExecutionAction, Runner,
  targets_of, create, is_successful_action,
}
use sqlanvil.Runner.Tasks.{
  World, Options, Ending, execute_action, execute_task, perform, run_tasks, end_action, visit_task,
  execute_statement,
}
use sqlanvil.Runner.Tasks.Laws.{IsMonotone, IsRun, NeverStopped}
use sqlanvil.Runner.Tasks.Actions.{
  Returns, AllSuccessful, ReportsSkipped, execute_action-IsRun, execute_action-successful_iff,
  execute_action-successful_skipped,
}
use sqlanvil.Runner.Schedule.{
  is_skippable, execute_ready, execute_all, partition, start_action, start_all, started_results,
  settle_action, settled_state, Returned, Reach, begins, silent, settled, settles,
}
use sqlanvil.Runner.Schedule.Partition.{flat, execute_ready-flat}
use sqlanvil.Runner.Schedule.Reports.{action_targets}
use sqlanvil.Runner.Schedule.Safety.{Reach-reported_once, DependencyDone, Reach-dependencies_done}
use sqlanvil.Runner.Schedule.Stuck.{now, skipped_dependent_pending}
use sqlanvil.Runner.Schemas.{prepare_all_schemas}
use sqlanvil.Runner.Schemas.Laws.{creates, needs, prepare_all_schemas-creates}

abbrev named : ℕ → Target
named n = record {
  database = none;
  schema = some (b's' ∷ []);
  name = n ∷ [];
  include_dependent_assertions = none;
}

abbrev one_task : ExecutionTask
one_task = record { type = statement; text = [] }

abbrev action : ℕ → List Target → List ExecutionTask → ExecutionAction
action n depends tasks = record {
  target = named n;
  dependency_targets = depends;
  tasks = tasks;
  is_table = true;
  has_descriptor = false;
}

-- `b` depends on `a`, and `c` on `b`.
abbrev action_a : ExecutionAction
action_a = action b'a' [] (one_task ∷ [])

abbrev action_b : ExecutionAction
action_b = action b'b' (named b'a' ∷ []) (one_task ∷ one_task ∷ [])

abbrev action_c : ExecutionAction
action_c = action b'c' (named b'b' ∷ []) (one_task ∷ [])

abbrev chain : List ExecutionAction
chain = action_a ∷ action_b ∷ action_c ∷ []

chain-distinct : (t : Target) → count t (action_targets chain) ≤ 1
unfolding target_beq
chain-distinct t =
    ground (arith, ==_iff t (named b'a'), ==_iff t (named b'b'), ==_iff t (named b'c'))

abbrev options : Options
options = record {
  dry_run = false;
  action_retry_limit = some 1;
  has_project_dir = true;
  disable_set_metadata = false;
}

-- The statement throws in the calls before the `n`-th.
abbrev answers : ℕ → ℕ → Outcome Text ℕ
answers n i = if ltb i n then threw (b'e' ∷ []) else returned i

abbrev world : ℕ → Bool → ℕ → World
world n cancelled i = record {
  stopped = false;
  cancelled = cancelled;
  skip_reason = none;
  execute = answers n;
  runner_side = returned tt;
  has_column_types = true;
  cancelled_after = cancelled;
}

abbrev ending : Ending
ending = record { lock = returned tt; stopped = false; set_metadata = returned tt }

abbrev failing : ℕ → World
failing = world 2 false

abbrev working : ℕ → World
working = world 1 false

-- The run is cancelled before the second task.
abbrev cancelled_late : ℕ → World
cancelled_late i = world 0 (ltb 0 i) i

abbrev begun : Runner
begun = execute_ready (create chain [])

abbrev failure : ActionResult
failure = perform options failing ending action_a [] action_a.tasks

Returned-failure : Returned action_a failure
unfolding execute_action
Returned-failure = record {
  options = options;
  worlds = failing;
  ending = ending;
  resumed = [];
  gives = refl;
}

abbrev after_failure : Runner
after_failure = settle_action action_a failure [] begun

begun-in_flight : begun.in_flight ≡ action_a ∷ []
unfolding create execute_all partition start_all start_action started_results target_beq
begun-in_flight = refl

failed_run : Reach (create chain []) after_failure
failed_run =
    settled (begins silent) (settles [] [] action_a failure begun-in_flight Returned-failure)

Reach-reported_once_example :
    count (named b'b') (action_targets after_failure.pending)
      + count (named b'b') (targets_of after_failure.results)
    ≡ count (named b'b') (action_targets chain)
Reach-reported_once_example = Reach-reported_once chain chain-distinct failed_run (named b'b')

Reach-dependencies_done_example :
    All
      (λ a. All (DependencyDone chain after_failure.results) a.dependency_targets)
      after_failure.in_flight
Reach-dependencies_done_example = Reach-dependencies_done chain chain-distinct failed_run

execute_ready-flat_example : execute_ready (create chain []) ≡ flat (create chain [])
execute_ready-flat_example = execute_ready-flat (create chain [])

b_skippable : is_skippable (settled_state action_a failure [] begun) action_b ≡ true
unfolding settled_state create execute_all partition start_all start_action started_results
    target_beq execute_action perform run_tasks visit_task execute_task execute_statement end_action
    is_successful_action retry
b_skippable = refl

b_pending : Memᴰ action_b begun.pending
unfolding create execute_all partition start_all start_action started_results target_beq
b_pending = Memᴰ.head refl

c_pending : Memᴰ action_c begun.pending
unfolding create execute_all partition start_all start_action started_results target_beq
c_pending = Memᴰ.tail (Memᴰ.head refl)

begun-flags :
    (begun.stopped ≡ false)
    × (begun.cancelled ≡ false)
    × (after_failure.cancelled ≡ false)
    × (contains begun.all_action_targets (named b'b') ≡ true)
unfolding create execute_all partition start_all start_action started_results target_beq
    settle_action settled_state execute_action execute_task
begun-flags = (refl, refl, refl, refl)

c_depends : contains action_c.dependency_targets (named b'b') ≡ true
unfolding target_beq
c_depends = refl

-- `a` has failed, `b` is skipped, and `c` stays behind.
skipped_dependent_pending_example :
    Memᴰ action_c after_failure.pending
    × (count (named b'c') (targets_of after_failure.results) ≡ 0)
skipped_dependent_pending_example =
    skipped_dependent_pending chain chain-distinct (begins silent) begun-flags.0 begun-flags.1 [] []
      action_a failure begun-in_flight Returned-failure action_c action_b c_pending b_pending
      b_skippable c_depends begun-flags.3 now begun-flags.2

execute_action-IsRun_example :
    Returns (execute_action options failing ending action_b []) (λ r. IsRun r.tasks)
execute_action-IsRun_example =
    execute_action-IsRun options failing ending action_b (λ j h. h) refl refl

some_tasks : action_b.tasks ≢ []
some_tasks h = cc

execute_action-successful_iff_example :
    Returns
      (execute_action options working ending action_b [])
      (λ r. (r.status ≡ ActionStatus.successful) ↔ AllSuccessful r.tasks)
execute_action-successful_iff_example =
    execute_action-successful_iff options working ending action_b some_tasks (λ j. refl) (λ j. refl)
      refl refl refl

cancelled_late-NeverStopped : NeverStopped cancelled_late
cancelled_late-NeverStopped j = refl

cancelled_late-IsMonotone : IsMonotone cancelled_late
cancelled_late-IsMonotone i h = ground arith

first_successful :
    (execute_task options (cancelled_late 0) statement).status ≡ TaskStatus.successful
unfolding execute_task execute_statement retry
first_successful = refl

execute_action-successful_skipped_example :
    Returns (execute_action options cancelled_late ending action_b []) (ReportsSkipped 1)
execute_action-successful_skipped_example =
    execute_action-successful_skipped options cancelled_late ending action_b one_task one_task []
      refl cancelled_late-NeverStopped cancelled_late-IsMonotone refl first_successful refl refl
      refl refl

Steps-IsCapped_example : IsCapped (acquire idle)
Steps-IsCapped_example = Steps-IsCapped (next start (acquires (λ _. refl)))

abbrev full : Slots
full = record { running = 4; waiting = 1; woken = 0 }

overshoot_example : (t : Slots) × Steps false full t × (t.running ≡ 5)
overshoot_example = overshoot full refl (omega arith)

prepare_all_schemas-creates_example :
    creates
      (prepare_all_schemas (λ _. []) (some (b'd' ∷ [])) (named b'a' ∷ []))
      (some (b'd' ∷ []))
      (b's' ∷ [])
    ≡ (not (contains {A = Text} [] (b's' ∷ []))
        && needs (some (b'd' ∷ [])) (named b'a' ∷ []) (some (b'd' ∷ [])) (b's' ∷ []))
prepare_all_schemas-creates_example =
    prepare_all_schemas-creates (λ _. []) (some (b'd' ∷ [])) (named b'a' ∷ []) (some (b'd' ∷ []))
      (b's' ∷ [])
