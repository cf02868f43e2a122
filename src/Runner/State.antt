-- ===== src/Runner/State.antt =====
-- cli/api/commands/run.ts: the data of an execution, and the fields of `Runner`.
use sqlanvil.Base.{
  ℕ, Text, Option, none, some, Bool, true, false, List, [], not, map, filter_by, contains, add_all,
}
use sqlanvil.Targets.{Target, target_eq}

-- `TaskResult.ExecutionStatus` and `ActionResult.ExecutionStatus` of protos/execution.proto.
pub data TaskStatus : Type 0 where
  running successful failed skipped cancelled : TaskStatus

pub data ActionStatus : Type 0 where
  running successful failed skipped disabled cancelled : ActionStatus

pub data RunStatus : Type 0 where
  running successful failed cancelled timed_out : RunStatus

pub data TaskType : Type 0 where
  statement operation assertion export_ import_ script extract : TaskType

-- `CancelReason`, and the text that the runner keeps for it.
pub data CancelReason : Type 0 where
  timeout user cancellation : CancelReason

-- The error texts of a task, by the template that builds them.
pub data Message : Type 0 where
  run_timed_out_after : (millis : Text) → Message
  run_timed_out run_cancelled cancelled_before_start skipped_after_cancellation : Message
  export_error import_error script_error extract_error warehouse_error : Text → Message
  setting_metadata_error : Text → Message
  script_needs_project_dir extract_needs_column_types no_attempt_made : Message
  assertion_failed : (rows : ℕ) → Message

pub record TaskResult : Type 0 where
  pub status : TaskStatus
  pub error_message : Option Message

pub record ActionResult : Type 0 where
  pub target : Target
  pub status : ActionStatus
  pub tasks : List TaskResult

pub record ExecutionTask : Type 0 where
  pub type : TaskType
  pub text : Text

pub record ExecutionAction : Type 0 where
  pub target : Target
  pub dependency_targets : List Target
  pub tasks : List ExecutionTask
  pub is_table : Bool
  pub has_descriptor : Bool

-- `in_flight` holds the actions whose `executeAction` has started and has not settled: they are
-- the pending promises of the program.
pub record Runner : Type 0 where
  pub all_action_targets : List Target
  pub results : List ActionResult
  pub executed : List Target
  pub successful : List Target
  pub pending : List ExecutionAction
  pub in_flight : List ExecutionAction
  pub stopped : Bool
  pub cancelled : Bool
  pub timed_out : Bool
  pub skip_reason : Option Message

-- `isSuccessfulAction`
unfoldable pub is_successful_action : ActionStatus → Bool
is_successful_action ActionStatus.successful = true
is_successful_action ActionStatus.disabled = true
is_successful_action _ = false

abbrev pub is_running : ActionStatus → Bool
is_running ActionStatus.running = true
is_running _ = false

abbrev pub is_failed : ActionStatus → Bool
is_failed ActionStatus.failed = true
is_failed _ = false

abbrev pub targets_of : List ActionResult → List Target
targets_of results = map (λ (a : ActionResult). a.target) results

-- The constructor of `Runner`, on a graph's actions and the results of an interrupted run.
unfoldable pub create : List ExecutionAction → List ActionResult → Runner
unfolding is_successful_action
create actions results =
    let executed =
      add_all []
        (targets_of (filter_by (λ (a : ActionResult). not (is_running a.status)) results)) in
    record {
      all_action_targets = add_all [] (map (λ (a : ExecutionAction). a.target) actions);
      results = results;
      executed = executed;
      successful =
          add_all []
            (targets_of (filter_by (λ (a : ActionResult). is_successful_action a.status) results));
      pending = filter_by (λ (a : ExecutionAction). not (contains executed a.target)) actions;
      in_flight = [];
      stopped = false;
      cancelled = false;
      timed_out = false;
      skip_reason = none;
    }

-- `stop`
unfoldable pub stop : Runner → Runner
stop r = record r { stopped = true }

-- The text that `cancel` keeps; `timeout` is the configured number of milliseconds, if there is one.
unfoldable pub reason_message : Option Text → CancelReason → Message
reason_message (some millis) timeout = run_timed_out_after millis
reason_message none timeout = run_timed_out
reason_message _ user = run_cancelled
reason_message _ cancellation = cancelled_before_start

-- `cancel`: the first reason is kept.
unfoldable pub cancel : Option Text → CancelReason → Runner → Runner
unfolding reason_message
cancel millis reason r = record r {
  cancelled = true;
  skip_reason = elim r.skip_reason [ none ↦ some (reason_message millis reason) | some m ↦ some m ];
}

-- The callback of the timer that `execute` sets.
unfoldable pub time_out : Option Text → Runner → Runner
unfolding cancel
time_out millis r = cancel millis timeout (record r { timed_out = true })
