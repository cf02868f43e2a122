-- ===== src/Runner/Schedule/Stuck.antt =====
-- cli/api/commands/run.ts: what becomes of the actions behind a skipped one.
use sqlanvil.Base.{
  ◌+◌, ◌≤◌, ◌≡◌, refl, Bool, true, false, List, ◌∷◌, [], ◌++◌, if◌then◌else◌, filter_by, arith, sym,
  subst, count, count-append, contains, contains-add, contains-count, add, ◌==◌, ◌∙◌,
}
use mathlib.Core.List.{Memᴰ}
use sqlanvil.Targets.{Target, target_eq}
use sqlanvil.Runner.State.{
  ActionResult, ExecutionAction, Runner, targets_of, create, stop, cancel, time_out,
}
use sqlanvil.Runner.Schedule.{
  is_executable, is_skippable, partition, start_action, start_all, cancel_pending, execute_ready,
  settled_state, settle_action, Returned, signalled, settled, Signal, stops, cancels, times_out,
  Settle, settles, Reach,
}
use sqlanvil.Runner.Schedule.Partition.{execute_ready-flat}
use sqlanvil.Runner.Schedule.Reports.{action_targets, count-split, action_targets-append}
use sqlanvil.Runner.Schedule.Invariant.{Inv, flat-active}
use sqlanvil.Runner.Schedule.Settling.{Reach-Inv, settle-Inv, Returned-target}
use sqlanvil.Runner.Schedule.Stranded.{
  after_call, Memᴰ-filter_by, Memᴰ-count, IsStranded, IsStranded-flat, IsStranded-Signal,
}

-- The steps of a run, from a state on.
pub data Later (r : Runner) : Runner → Type 0 where
  now : Later r r
  signals : {s t : Runner} → Later r s → Signal s t → Later r t
  settling : {s t : Runner} → Later r s → Settle s t → Later r t

-- The action that settles was in flight, so it is not `d`.
module _ (p : ExecutionAction) (d : Target) (r : Runner) (before rest : List ExecutionAction)
    (a : ExecutionAction) (chosen : r.in_flight ≡ before ++ a ∷ rest) (h : IsStranded p d r) where
  count-in_flight :
      count d (action_targets before) + count d (a.target ∷ []) + count d (action_targets rest) ≡ 0
  count-in_flight = ground (
    arith,
    h.not_in_flight,
    chosen,
    action_targets-append before (a ∷ rest),
    count-append d (action_targets before) (action_targets (a ∷ rest)),
  )

  other : (d == a.target) ≡ false
  other = ground (arith, count-in_flight)

  IsStranded-settled :
      (results : List ActionResult) (good : Bool)
      → IsStranded p d (record r {
        results = results;
        in_flight = before ++ rest;
        executed = add r.executed a.target;
        successful = if good then add r.successful a.target else r.successful;
      })
  IsStranded-settled results good = record {
    waiting = h.waiting;
    depends = h.depends;
    in_graph = h.in_graph;
    not_executed = ground (arith, h.not_executed, other, contains-add r.executed a.target d);
    not_successful = ground (arith, h.not_successful, other, contains-add r.successful a.target d);
    not_pending = h.not_pending;
    not_in_flight = ground (
      arith,
      count-in_flight,
      action_targets-append before rest,
      count-append d (action_targets before) (action_targets rest),
    );
  }

IsStranded-ready :
    (p : ExecutionAction) (d : Target) (r : Runner)
    → r.cancelled ≡ false
    → IsStranded p d r
    → IsStranded p d (execute_ready r)
IsStranded-ready p d r kept h =
    subst (λ x. IsStranded p d x) (sym (execute_ready-flat r)) (IsStranded-flat p d r kept h)

IsStranded-Settle :
    {r s : Runner} (p : ExecutionAction) (d : Target)
    → Settle r s
    → r.cancelled ≡ false
    → IsStranded p d r
    → IsStranded p d s
unfolding settle_action
IsStranded-Settle {r} p d (settles before rest a result chosen returned) kept h =
    IsStranded-ready p d _ kept (IsStranded-settled p d r before rest a chosen h _ _)

start_all-cancelled :
    (todo : List ExecutionAction) (r : Runner) → (start_all todo r).cancelled ≡ r.cancelled
unfolding start_all
start_all-cancelled [] r = refl
start_all-cancelled (a ∷ todo) r = start_all-cancelled todo (start_action a r)

execute_ready-cancelled : (r : Runner) → (execute_ready r).cancelled ≡ r.cancelled
unfolding partition cancel_pending
execute_ready-cancelled r =
    rw (execute_ready-flat r)
      (ground (arith, start_all-cancelled (filter_by (is_executable r) r.pending) (partition r)))

-- A state in which a run is not cancelled comes from states in which it is not.
Signal-cancelled : {r s : Runner} → Signal r s → s.cancelled ≡ false → r.cancelled ≡ false
unfolding stop cancel time_out
Signal-cancelled stops h = h
Signal-cancelled (cancels millis reason) h = cc
Signal-cancelled (times_out millis) h = cc

Settle-cancelled : {r s : Runner} → Settle r s → s.cancelled ≡ r.cancelled
unfolding settle_action
Settle-cancelled (settles before rest a result chosen returned) = execute_ready-cancelled _

pub Later-IsStranded :
    (p : ExecutionAction) (d : Target) {r s : Runner}
    → Later r s
    → s.cancelled ≡ false
    → IsStranded p d r
    → IsStranded p d s
Later-IsStranded p d now kept h = h
Later-IsStranded p d (signals more one) kept h =
    IsStranded-Signal p d one (Later-IsStranded p d more (Signal-cancelled one kept) h)
Later-IsStranded p d (settling more one) kept h =
    let before : _ ≡ false = sym (Settle-cancelled one) ∙ kept in
    IsStranded-Settle p d one before (Later-IsStranded p d more before h)

-- Skipping an action strands those that depend on it.
module _ (graph : List Target) (distinct : (t : Target) → count t graph ≤ 1) (r : Runner)
    (v : Inv graph [] r) (off : r.stopped ≡ false) (kept : r.cancelled ≡ false)
    (p d : ExecutionAction) where
  skip-IsStranded :
      Memᴰ p r.pending
      → Memᴰ d r.pending
      → is_skippable r d ≡ true
      → contains p.dependency_targets d.target ≡ true
      → contains r.all_action_targets d.target ≡ true
      → IsStranded p d.target (execute_ready r)
  skip-IsStranded here there skipped depends in_graph =
      let some_skip =
        Memᴰ-count d (filter_by (is_skippable r) r.pending)
          (Memᴰ-filter_by (is_skippable r) d r.pending there skipped) in
      let split = count-split r d.target r.pending in
      let total = v.conserved d.target in
      let most = distinct d.target in
      let mine = v.owned d.target in
      let executed : contains r.executed d.target ≡ false =
        ground (arith, contains-count d.target r.executed) in
      let successful : contains r.successful d.target ≡ false =
        ground (arith, v.settled_first d.target) in
      subst (λ x. IsStranded p d.target x) (sym (execute_ready-flat r ∙ flat-active r off kept))
        (after_call p d.target r depends in_graph executed successful here (omega arith)
          (omega arith) (omega arith))

Later-Reach : {c r s : Runner} → Reach c r → Later r s → Reach c s
Later-Reach reach now = reach
Later-Reach reach (signals more one) = signalled (Later-Reach reach more) one
Later-Reach reach (settling more one) = settled (Later-Reach reach more) one

-- When an action `a` settles, and leaves an action `d` with completed dependencies that it can only
-- skip, an action `p` that depends on `d` is never reported: it stays pending, without a result, in
-- every later state of a run that is not cancelled.
pub skipped_dependent_pending :
    (actions : List ExecutionAction)
    → ((t : Target) → count t (action_targets actions) ≤ 1)
    → {r : Runner} → Reach (create actions []) r
    → r.stopped ≡ false
    → r.cancelled ≡ false
    → (before rest : List ExecutionAction) (a : ExecutionAction) (result : ActionResult)
    → r.in_flight ≡ before ++ a ∷ rest
    → Returned a result
    → (p d : ExecutionAction) → Memᴰ p r.pending
    → Memᴰ d r.pending
    → is_skippable (settled_state a result (before ++ rest) r) d ≡ true
    → contains p.dependency_targets d.target ≡ true
    → contains r.all_action_targets d.target ≡ true
    → {u : Runner} → Later (settle_action a result (before ++ rest) r) u
    → u.cancelled ≡ false
    → Memᴰ p u.pending × (count p.target (targets_of u.results) ≡ 0)
unfolding settle_action
skipped_dependent_pending actions distinct {r} reached off kept before rest a result chosen returned
      p d here there skipped depends in_graph {u} later going =
    let graph = action_targets actions in
    let v =
      settle-Inv graph distinct r (Reach-Inv actions distinct reached) before rest a result chosen
        (Returned-target a result returned) in
    let stranded =
      Later-IsStranded p d.target later going
        (skip-IsStranded graph distinct _ v off kept p d here there skipped depends in_graph) in
    let end =
      Reach-Inv actions distinct
        (Later-Reach (settled reached (settles before rest a result chosen returned)) later) in
    let some_pending = Memᴰ-count p u.pending stranded.waiting in
    (stranded.waiting, omega (arith, end.conserved p.target, distinct p.target))
