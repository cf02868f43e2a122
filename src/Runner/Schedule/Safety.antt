-- ===== src/Runner/Schedule/Safety.antt =====
-- cli/api/commands/run.ts: what a run promises of its results and of the order of its actions.
use sqlanvil.Base.{
  ◌+◌, ◌≤◌, ◌≡◌, refl, true, List, ◌∷◌, [], ◌||◌, not, every, arith, ◌∙◌, count, contains, All,
  filter_by, add, add_all, contains-add,
}
use sqlanvil.Targets.{Target, target_eq}
use sqlanvil.Runner.State.{
  ActionResult, ExecutionAction, Runner, targets_of, create, stop, cancel, time_out,
}
use sqlanvil.Runner.Schedule.{
  is_executable, partition, start_action, start_all, cancel_pending, execute_ready, settle_action,
  Signal, stops, cancels, times_out, Signals, silent, signal, Settle, settles, Reach, begins,
  signalled, settled,
}
use sqlanvil.Runner.Schedule.Partition.{execute_ready-flat}
use sqlanvil.Runner.Schedule.Reports.{action_targets, is_reported}
use sqlanvil.Runner.Schedule.Invariant.{All-map}
use sqlanvil.Runner.Schedule.Settling.{Reach-Inv}

-- In every state of a fresh run over actions with distinct targets, each action is either pending
-- or has one result, and no other target has a result.
pub Reach-reported_once :
    (actions : List ExecutionAction)
    → ((t : Target) → count t (action_targets actions) ≤ 1)
    → {r : Runner} → Reach (create actions []) r
    → (t : Target)
    → count t (action_targets r.pending) + count t (targets_of r.results)
      ≡ count t (action_targets actions)
Reach-reported_once actions distinct reached t =
    omega (arith, (Reach-Inv actions distinct reached).conserved t)

start_all-all :
    (todo : List ExecutionAction) (r : Runner)
    → (start_all todo r).all_action_targets ≡ r.all_action_targets
unfolding start_all
start_all-all [] r = refl
start_all-all (a ∷ todo) r = start_all-all todo (start_action a r)

execute_ready-all : (r : Runner) → (execute_ready r).all_action_targets ≡ r.all_action_targets
unfolding partition cancel_pending
execute_ready-all r =
    rw (execute_ready-flat r)
      (ground (arith, start_all-all (filter_by (is_executable r) r.pending) (partition r)))

Signal-all : {r s : Runner} → Signal r s → s.all_action_targets ≡ r.all_action_targets
unfolding stop cancel time_out
Signal-all stops = refl
Signal-all (cancels millis reason) = refl
Signal-all (times_out millis) = refl

Signals-all : {r s : Runner} → Signals r s → s.all_action_targets ≡ r.all_action_targets
Signals-all silent = refl
Signals-all (signal more one) = Signal-all one ∙ Signals-all more

Settle-all : {r s : Runner} → Settle r s → s.all_action_targets ≡ r.all_action_targets
unfolding settle_action
Settle-all (settles before rest a result chosen returned) = execute_ready-all _

Reach-all : {c r : Runner} → Reach c r → r.all_action_targets ≡ c.all_action_targets
Reach-all (begins signals) = execute_ready-all _ ∙ Signals-all signals
Reach-all (signalled more one) = Signal-all one ∙ Reach-all more
Reach-all (settled more one) = Settle-all one ∙ Reach-all more

contains-add_all :
    (xs ys : List Target) (t : Target)
    → contains (add_all xs ys) t ≡ (contains xs t || contains ys t)
contains-add_all xs [] t = ground arith
contains-add_all xs (y ∷ ys) t =
    ground (arith, contains-add_all (add xs y) ys t, contains-add xs y t)

-- A dependency is not in the graph, or has a successful or disabled result.
abbrev pub DependencyDone : List ExecutionAction → List ActionResult → Target → Type 0
DependencyDone actions results d =
    contains (action_targets actions) d ≡ true → is_reported results d ≡ true

All-done :
    (all graph done : List Target) (results : List ActionResult)
    → ((t : Target) → contains graph t ≡ true → contains all t ≡ true)
    → ((t : Target) → contains done t ≡ true → is_reported results t ≡ true)
    → (ds : List Target) → every (λ d. not (contains all d) || contains done d) ds ≡ true
    → All (λ d. contains graph d ≡ true → is_reported results d ≡ true) ds
All-done all graph done results known reported [] h = tt
All-done all graph done results known reported (d ∷ ds) h = (
  λ g. ground (arith, known d g, reported d),
  All-done all graph done results known reported ds (ground arith),
)

all_known :
    (actions : List ExecutionAction) {r : Runner}
    → Reach (create actions []) r
    → (t : Target) → contains (action_targets actions) t ≡ true
    → contains r.all_action_targets t ≡ true
unfolding create
all_known actions reached t g =
    rw (Reach-all reached) (rw (contains-add_all [] (action_targets actions) t) g)

-- In every state of a fresh run, each dependency of an action in flight is not in the graph or has
-- already a result that is successful or disabled.
pub Reach-dependencies_done :
    (actions : List ExecutionAction)
    → ((t : Target) → count t (action_targets actions) ≤ 1)
    → {r : Runner} → Reach (create actions []) r
    → All (λ a. All (DependencyDone actions r.results) a.dependency_targets) r.in_flight
Reach-dependencies_done actions distinct {r} reached =
    let v = Reach-Inv actions distinct reached in
    All-map (λ a. is_executable r a ≡ true)
      (λ a. All (DependencyDone actions r.results) a.dependency_targets)
      (λ a.
        All-done r.all_action_targets (action_targets actions) r.successful r.results
          (all_known actions reached) v.reported a.dependency_targets)
      r.in_flight v.ready
