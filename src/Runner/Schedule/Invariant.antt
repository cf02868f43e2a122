-- ===== src/Runner/Schedule/Invariant.antt =====
-- cli/api/commands/run.ts: the invariant of a fresh run, kept by one call of
-- `executeAllActionsReadyForExecution`.
use sqlanvil.Base.{
  ◌+◌, ◌≤◌, ◌≡◌, refl, Bool, true, false, List, ◌∷◌, [], ◌++◌, ◌||◌, not, map, filter_by, every,
  arith, sym, subst, count, count-append, contains, ==_refl, All, All-append, Bool-cases, inl, inr,
}
use sqlanvil.Targets.{Target, target_eq}
use sqlanvil.Runner.State.{
  ActionStatus, ActionResult, ExecutionTask, ExecutionAction, Runner, is_successful_action,
  targets_of,
}
use sqlanvil.Runner.Schedule.{
  is_executable, is_skippable, partition, start_action, start_all, started_results, cancel_pending,
  execute_ready, cancelled_result, skipped_result,
}
use sqlanvil.Runner.Schedule.Partition.{flat, execute_ready-flat}
use sqlanvil.Runner.Schedule.Reports.{
  action_targets, is_reported, count-split, targets-skipped, targets-cancelled, targets-append,
  action_targets-append, is_reported-append, has_result-count,
}

-- `satisfied` only grows with the set of successful actions.
pub satisfied_mono :
    (all old new : List Target)
    → ((t : Target) → contains old t ≡ true → contains new t ≡ true)
    → (ds : List Target) → every (λ d. not (contains all d) || contains old d) ds ≡ true
    → every (λ d. not (contains all d) || contains new d) ds ≡ true
satisfied_mono all old new grows [] h = refl
satisfied_mono all old new grows (d ∷ ds) h =
    ground (arith, grows d, satisfied_mono all old new grows ds)

abbrev pub Complete : Runner → ExecutionAction → Type 0
Complete r a = a.tasks ≡ [] → is_reported r.results a.target ≡ true

-- `graph` lists the targets of all actions, and `todo` the actions that a call is about to start.
pub record Inv (graph : List Target) (todo : List ExecutionAction) (r : Runner) : Type 0 where
  -- Each action is pending, about to start or reported, and only one of these.
  pub conserved :
      (t : Target)
      → count t (action_targets r.pending)
          + count t (action_targets todo)
          + count t (targets_of r.results)
        ≡ count t graph
  -- An action that is in flight or that has settled has a result, and is not both.
  pub owned :
      (t : Target)
      → count t (action_targets r.in_flight) + count t r.executed ≤ count t (targets_of r.results)
  pub startable : All (λ a. is_executable r a ≡ true) todo
  pub ready : All (λ a. is_executable r a ≡ true) r.in_flight
  pub complete : All (Complete r) r.in_flight
  pub settled_first : (t : Target) → contains r.successful t ≡ true → contains r.executed t ≡ true
  pub reported : (t : Target) → contains r.successful t ≡ true → is_reported r.results t ≡ true

abbrev new_result : Target → List ExecutionTask → ActionResult
new_result t [] = record { target = t; status = ActionStatus.disabled; tasks = [] }
new_result t (_ ∷ _) = record { target = t; status = ActionStatus.running; tasks = [] }

started_results-fresh :
    (results : List ActionResult) (t : Target) (ts : List ExecutionTask)
    → count t (targets_of results) ≡ 0
    → started_results results t ts ≡ results ++ new_result t ts ∷ []
unfolding started_results
started_results-fresh results t [] h = refl
started_results-fresh results t (_ ∷ _) h = ground (arith, has_result-count results t)

new_result-target : (t : Target) (ts : List ExecutionTask) → (new_result t ts).target ≡ t
new_result-target t [] = refl
new_result-target t (_ ∷ _) = refl

is_reported-new_result :
    (t : Target) (ts : List ExecutionTask) → ts ≡ [] → is_reported (new_result t ts ∷ []) t ≡ true
unfolding is_successful_action
is_reported-new_result t [] h = ground (arith, ==_refl t)
is_reported-new_result t (_ ∷ _) h = cc

pub All-map {ℓ κ μ} :
    {A : Type ℓ} (P : A → Type κ) (Q : A → Type μ)
    → ((a : A) → P a → Q a)
    → (xs : List A) → All P xs
    → All Q xs
All-map P Q f [] h = tt
All-map P Q f (x ∷ xs) h = (f x h.0, All-map P Q f xs h.1)

-- Appending results keeps what is reported.
Complete-append :
    (r : Runner) (extra : List ActionResult) (xs : List ExecutionAction)
    → All (Complete r) xs
    → All (Complete (record r { results = r.results ++ extra })) xs
Complete-append r extra =
    All-map (Complete r) (Complete (record r { results = r.results ++ extra }))
      (λ a done e. ground (arith, done e, is_reported-append r.results extra a.target))

All-filter {ℓ} : {A : Type ℓ} (p : A → Bool) (xs : List A) → All (λ a. p a ≡ true) (filter_by p xs)
All-filter p [] = tt
All-filter p (x ∷ xs) = elim (Bool-cases (p x)) [
  | inl good ↦ rw good (good, All-filter p xs)
  | inr bad ↦ rw bad (All-filter p xs)
]

pub flat-stopped : (r : Runner) → r.stopped ≡ true → flat r ≡ r
flat-stopped r on = ground arith

pub flat-cancelled :
    (r : Runner) → r.stopped ≡ false → r.cancelled ≡ true → flat r ≡ cancel_pending r
flat-cancelled r on gone = ground arith

pub flat-active :
    (r : Runner)
    → r.stopped ≡ false
    → r.cancelled ≡ false
    → flat r ≡ start_all (filter_by (is_executable r) r.pending) (partition r)
flat-active r on kept = ground arith

module _ (graph : List Target) (distinct : (t : Target) → count t graph ≤ 1) where
  start_action-Inv :
      (a : ExecutionAction) (todo : List ExecutionAction) (r : Runner)
      → Inv graph (a ∷ todo) r
      → Inv graph todo (start_action a r)
  unfolding start_action
  start_action-Inv a todo r v =
      let fresh : count a.target (targets_of r.results) ≡ 0 =
        ground (arith, v.conserved a.target, distinct a.target, ==_refl a.target) in
      let grown = started_results-fresh r.results a.target a.tasks fresh in
      let new = new_result a.target a.tasks in
      let r' : Runner = record r {
        results = r.results ++ new ∷ [];
        in_flight = r.in_flight ++ a ∷ [];
      } in
      let v' : Inv graph todo r' = record {
        conserved = λ t. ground (
          arith,
          v.conserved t,
          targets-append r.results (new ∷ []),
          count-append t (targets_of r.results) (new.target ∷ []),
          new_result-target a.target a.tasks,
        );
        owned = λ t. ground (
          arith,
          v.owned t,
          targets-append r.results (new ∷ []),
          count-append t (targets_of r.results) (new.target ∷ []),
          action_targets-append r.in_flight (a ∷ []),
          count-append t (action_targets r.in_flight) (a.target ∷ []),
          new_result-target a.target a.tasks,
        );
        startable = v.startable.1;
        ready = All-append _ r.in_flight (a ∷ []) v.ready (v.startable.0, tt);
        complete =
            All-append _ r.in_flight (a ∷ []) (Complete-append r (new ∷ []) r.in_flight v.complete)
              (
                (λ e. ground (
                  arith,
                  is_reported-append r.results (new ∷ []) a.target,
                  is_reported-new_result a.target a.tasks e,
                )),
                tt,
              );
        settled_first = v.settled_first;
        reported = λ t h. ground (arith, v.reported t h, is_reported-append r.results (new ∷ []) t);
      } in
      subst (λ rs. Inv graph todo (record r { results = rs; in_flight = r.in_flight ++ a ∷ [] }))
        (sym grown) v'

  start_all-Inv :
      (todo : List ExecutionAction) (r : Runner)
      → Inv graph todo r
      → Inv graph [] (start_all todo r)
  unfolding start_all
  start_all-Inv [] r v = v
  start_all-Inv (a ∷ todo) r v = start_all-Inv todo (start_action a r) (start_action-Inv a todo r v)

  -- Pending actions leave for the list of results, or to be started.
  move-Inv :
      (r : Runner) (rest todo : List ExecutionAction) (extra : List ActionResult)
      → ((t : Target)
          → count t (action_targets rest)
              + count t (action_targets todo)
              + count t (targets_of extra)
            ≡ count t (action_targets r.pending))
      → All (λ a. is_executable r a ≡ true) todo
      → Inv graph [] r
      → Inv graph todo (record r { pending = rest; results = r.results ++ extra })
  move-Inv r rest todo extra counts can v = record {
    conserved = λ t. ground (
      arith,
      v.conserved t,
      counts t,
      targets-append r.results extra,
      count-append t (targets_of r.results) (targets_of extra),
    );
    owned = λ t. ground (
      arith,
      v.owned t,
      targets-append r.results extra,
      count-append t (targets_of r.results) (targets_of extra),
    );
    startable = can;
    ready = v.ready;
    complete = Complete-append r extra r.in_flight v.complete;
    settled_first = v.settled_first;
    reported = λ t h. ground (arith, v.reported t h, is_reported-append r.results extra t);
  }

  partition-Inv :
      (r : Runner)
      → Inv graph [] r
      → Inv graph (filter_by (is_executable r) r.pending) (partition r)
  unfolding partition
  partition-Inv r v =
      move-Inv r _ _ (map skipped_result (filter_by (is_skippable r) r.pending))
        (λ t. ground (
          arith,
          count-split r t r.pending,
          targets-skipped (filter_by (is_skippable r) r.pending),
        ))
        (All-filter (is_executable r) r.pending) v

  cancel_pending-Inv : (r : Runner) → Inv graph [] r → Inv graph [] (cancel_pending r)
  unfolding cancel_pending
  cancel_pending-Inv r v =
      move-Inv r [] [] (map (cancelled_result r) r.pending)
        (λ t. ground (arith, targets-cancelled r r.pending)) tt v

  pub execute_ready-Inv : (r : Runner) → Inv graph [] r → Inv graph [] (execute_ready r)
  execute_ready-Inv r v = rw (execute_ready-flat r) (elim (Bool-cases r.stopped) [
    | inl on ↦ subst (λ x. Inv graph [] x) (sym (flat-stopped r on)) v
    | inr on ↦ elim (Bool-cases r.cancelled) [
      | inl gone ↦
          subst (λ x. Inv graph [] x) (sym (flat-cancelled r on gone)) (cancel_pending-Inv r v)
      | inr kept ↦
          subst (λ x. Inv graph [] x) (sym (flat-active r on kept))
            (start_all-Inv (filter_by (is_executable r) r.pending) (partition r)
              (partition-Inv r v))
    ]
  ])
